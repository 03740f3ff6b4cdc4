-- ===== src/Tests/Numbers.antt =====
-- A concrete instance of the floating-point operations: integers, with a division that is not exact.
use sparq_control.Common.{
  ℤ, pos, pos_part, neg_part, neg_ℤ, ◌+ℤ◌, ◌-ℤ◌, ◌*◌, ltb_ℤ, leb_ℤ, ◌+◌, ◌==◌, sub_ℕ, true,
}
use sparq_control.Common.Floats.{Floats}

abbrev pub integers : Floats
integers = record {
  F = ℤ;
  of_int = λ x. x;
  lit = λ n k. pos n;
  add = λ a b. a +ℤ b;
  sub = λ a b. a -ℤ b;
  mul = λ a b.
      sub_ℕ (pos_part a * pos_part b + neg_part a * neg_part b)
        (pos_part a * neg_part b + neg_part a * pos_part b);
  div = λ a b. a;
  neg = neg_ℤ;
  sqrt = λ a. a;
  pi = pos 3;
  radians = λ a. a;
  lt = ltb_ℤ;
  le = leb_ℤ;
  is_zero = λ a. pos_part a + neg_part a == 0;
  is_finite = λ a. true;
  single = λ a. a;
}
