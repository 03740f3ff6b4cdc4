-- ===== src/Hardware/Spg/Quantise.antt =====
-- The quantisation of qhrr0_hw/actuators/dongilc_protocol.py: range, error and monotonicity.
use sparq_control.Common.{ℕ, ◌+◌, ◌-◌, ◌*◌, ◌/◌, ◌^◌, ◌≤◌, ◌<◌, ◌≡◌, arith, ℤ, pos_part, ◌≤ℤ◌, ◌-ℤ◌}
use sparq_control.Common.Result.{ok}
use sparq_control.Hardware.Spg.Numbers.{require_range, round_half_away_from_zero, float_to_uint}

-- Half-up rounding of n / d is within half of one.
pub rounded_bounds :
    (n d : ℕ)
    → 0 < d
    → let q = (2 * n + d) / (2 * d) in (2 * (q * d) ≤ 2 * n + d) × (2 * n < 2 * (q * d) + d)
rounded_bounds n d h = grind arith

rounded_le : (a m d : ℕ) → 0 < d → a ≤ m * d → (2 * a + d) / (2 * d) ≤ m
rounded_le a m d h le = grind arith

rounded_mono : (a b d : ℕ) → a ≤ b → (2 * a + d) / (2 * d) ≤ (2 * b + d) / (2 * d)
rounded_mono a b d le = grind arith

mul_le : (a s m : ℕ) → a ≤ s → a * m ≤ m * s
mul_le a s m h = grind arith

mul_mono : (a b m : ℕ) → a ≤ b → a * m ≤ b * m
mul_mono a b m h = grind arith

-- `float_to_uint` with its range check passed: the exact code.
unfoldable pub code_of : ℤ → ℤ → ℤ → ℕ → ℕ
code_of x lo hi bits =
    let span = pos_part (hi -ℤ lo) in
    (2 * (pos_part (x -ℤ lo) * (2 ^ bits - 1)) + span) / (2 * span)

pub float_to_uint-ok :
    (x lo hi : ℤ)
    → (bits code : ℕ) → float_to_uint x lo hi bits ≡ ok code
    → (lo ≤ℤ x) × (x ≤ℤ hi) × (0 < pos_part (hi -ℤ lo)) × (code ≡ code_of x lo hi bits)
unfolding float_to_uint require_range round_half_away_from_zero code_of
float_to_uint-ok x lo hi bits code h = ground arith

pub float_to_uint-in_range :
    (x lo hi : ℤ)
    → (bits : ℕ) → lo ≤ℤ x
    → x ≤ℤ hi
    → 0 < pos_part (hi -ℤ lo)
    → float_to_uint x lo hi bits ≡ ok (code_of x lo hi bits)
unfolding float_to_uint require_range round_half_away_from_zero code_of
float_to_uint-in_range x lo hi bits h1 h2 h3 = ground arith

sub_le : (x lo hi : ℤ) → lo ≤ℤ x → x ≤ℤ hi → pos_part (x -ℤ lo) ≤ pos_part (hi -ℤ lo)
unfolding ◌-ℤ◌
sub_le x lo hi h1 h2 = ground arith

sub_mono : (x y lo : ℤ) → x ≤ℤ y → pos_part (x -ℤ lo) ≤ pos_part (y -ℤ lo)
unfolding ◌-ℤ◌
sub_mono x y lo h = ground arith

-- The code fits its width, and is within half a step of the value.
pub code_of_bounds :
    (x lo hi : ℤ)
    → (bits : ℕ) → lo ≤ℤ x
    → x ≤ℤ hi
    → 0 < pos_part (hi -ℤ lo)
    → let code = code_of x lo hi bits in
      let span = pos_part (hi -ℤ lo) in
      let exact = pos_part (x -ℤ lo) * (2 ^ bits - 1) in
      (code ≤ 2 ^ bits - 1)
      × (2 * (code * span) ≤ 2 * exact + span)
      × (2 * exact < 2 * (code * span) + span)
unfolding code_of
code_of_bounds x lo hi bits h1 h2 h3 =
    let span = pos_part (hi -ℤ lo) in
    let n = pos_part (x -ℤ lo) * (2 ^ bits - 1) in
    let m = 2 ^ bits - 1 in
    let le = mul_le (pos_part (x -ℤ lo)) span m (sub_le x lo hi h1 h2) in
    (rounded_le n m span h3 le, (rounded_bounds n span h3).0, (rounded_bounds n span h3).1)

-- The value is in range, and the code is within half a step of it and fits its width.
pub Quantised : ℤ → ℤ → ℤ → ℕ → ℕ → Type 0
Quantised x lo hi bits code =
    let span = pos_part (hi -ℤ lo) in
    let exact = pos_part (x -ℤ lo) * (2 ^ bits - 1) in
    (lo ≤ℤ x)
    × (x ≤ℤ hi)
    × (code ≤ 2 ^ bits - 1)
    × (2 * (code * span) ≤ 2 * exact + span)
    × (2 * exact < 2 * (code * span) + span)

-- A code that `float_to_uint` returns is of a value in range, fits its width and is within half a
-- step of the value.
pub float_to_uint-Quantised :
    (x lo hi : ℤ)
    → (bits code : ℕ) → float_to_uint x lo hi bits ≡ ok code
    → Quantised x lo hi bits code
unfolding Quantised
float_to_uint-Quantised x lo hi bits code h =
    let f = float_to_uint-ok x lo hi bits code h in
    let e = code_of_bounds x lo hi bits f.0 f.1 f.2 in ground arith

pub Quantised-fits :
    (x lo hi : ℤ) → (bits code : ℕ) → Quantised x lo hi bits code → code ≤ 2 ^ bits - 1
unfolding Quantised
Quantised-fits x lo hi bits code h = h.2

-- On one range, a larger value has a code that is as large or larger, where both are coded.
pub float_to_uint_mono :
    (x y lo hi : ℤ)
    → (bits a b : ℕ) → x ≤ℤ y
    → float_to_uint x lo hi bits ≡ ok a
    → float_to_uint y lo hi bits ≡ ok b
    → a ≤ b
unfolding code_of
float_to_uint_mono x y lo hi bits a b le ha hb =
    let span = pos_part (hi -ℤ lo) in
    let m = 2 ^ bits - 1 in
    let fa = float_to_uint-ok x lo hi bits a ha in
    let fb = float_to_uint-ok y lo hi bits b hb in
    let r =
      rounded_mono (pos_part (x -ℤ lo) * m) (pos_part (y -ℤ lo) * m) span
        (mul_mono (pos_part (x -ℤ lo)) (pos_part (y -ℤ lo)) m (sub_mono x y lo le)) in
    ground arith

le_of_pos : (x y : ℤ) → 0 < pos_part (y -ℤ x) → x ≤ℤ y
unfolding ◌-ℤ◌
le_of_pos x y h = ground arith

le_self : (x : ℤ) → x ≤ℤ x
le_self x = ground arith

sub_self : (x : ℤ) → pos_part (x -ℤ x) ≡ 0
unfolding ◌-ℤ◌
sub_self x = ground arith

rounded_exact : (s m : ℕ) → 0 < s → (2 * (s * m) + s) / (2 * s) ≡ m
rounded_exact s m h = grind arith

rounded_zero : (s : ℕ) → 0 < s → s / (2 * s) ≡ 0
rounded_zero s h = grind arith

-- On a range that is not empty, `float_to_uint` gives the lower end the code 0 and the upper end the
-- largest code of the width.
pub float_to_uint_ends :
    (lo hi : ℤ)
    → (bits : ℕ) → 0 < pos_part (hi -ℤ lo)
    → (float_to_uint lo lo hi bits ≡ ok 0) × (float_to_uint hi lo hi bits ≡ ok (2 ^ bits - 1))
unfolding code_of
float_to_uint_ends lo hi bits h =
    let span = pos_part (hi -ℤ lo) in
    let le = le_of_pos lo hi h in
    let a = float_to_uint-in_range lo lo hi bits (le_self lo) le h in
    let b = float_to_uint-in_range hi lo hi bits le (le_self hi) h in
    let z = sub_self lo in
    let rz = rounded_zero span h in
    let re = rounded_exact span (2 ^ bits - 1) h in (ground arith, ground arith)
