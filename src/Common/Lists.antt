-- ===== src/Common/Lists.antt =====
-- Lists measured and indexed by native numbers, under the library's names.
use Prim.Native.Nat.{ℕ, zero, suc, ◌+◌, ◌≤◌, ◌<◌}
use mathlib.Core.Path.{◌≡◌, refl}
use mathlib.Core.Bool.{Bool, true, false, not, ◌&&◌, ◌||◌}
use mathlib.Core.List.{List, [], ◌∷◌, ◌++◌}
use native.Mathlib.Omega.{arith}
use sparq_control.Common.Int.{ℤ, leb_ℤ}
use sparq_control.Common.Tests.{◌==◌, if◌then◌else◌}

module _ {ℓ} {A : Type ℓ} where
  abbrev pub length : List A → ℕ
  length [] = 0
  length (x ∷ xs) = suc (length xs)

  abbrev pub get_or : List A → ℕ → A → A
  get_or [] i d = d
  get_or (x ∷ xs) zero d = x
  get_or (x ∷ xs) (suc i) d = get_or xs i d

  abbrev pub take : ℕ → List A → List A
  take zero xs = []
  take (suc n) [] = []
  take (suc n) (x ∷ xs) = x ∷ take n xs

  abbrev pub replicate : ℕ → A → List A
  replicate zero a = []
  replicate (suc n) a = a ∷ replicate n a

  pub length-append : (xs ys : List A) → length (xs ++ ys) ≡ length xs + length ys
  length-append [] ys = omega arith
  length-append (x ∷ xs) ys = omega (arith, length-append xs ys)

  abbrev pub any : (A → Bool) → List A → Bool
  any p [] = false
  any p (x ∷ xs) = p x || any p xs

  -- No element stands twice, by a test of equality.
  abbrev pub is_distinct : (A → A → Bool) → List A → Bool
  is_distinct same [] = true
  is_distinct same (x ∷ xs) = not (any (same x) xs) && is_distinct same xs

  -- `set(xs)`, as a list that keeps the last of equal elements.
  unfoldable pub set_of : (A → A → Bool) → List A → List A
  set_of same [] = []
  set_of same (x ∷ xs) = if any (same x) xs then set_of same xs else x ∷ set_of same xs

  pub length-set_of-le : (same : A → A → Bool) (xs : List A) → length (set_of same xs) ≤ length xs
  unfolding set_of
  length-set_of-le same [] = omega arith
  length-set_of-le same (x ∷ xs) = ground (arith, length-set_of-le same xs)

  -- A list has no repetition exactly when its set has as many elements.
  pub length-set_of :
      (same : A → A → Bool) (xs : List A)
      → (length (set_of same xs) == length xs) ≡ is_distinct same xs
  unfolding set_of
  length-set_of same [] = refl
  length-set_of same (x ∷ xs) = ground (arith, length-set_of same xs, length-set_of-le same xs)

  -- The elements for which a test holds, in order.
  unfoldable pub filter : (A → Bool) → List A → List A
  filter p [] = []
  filter p (x ∷ xs) = if p x then x ∷ filter p xs else filter p xs

  -- `sorted` by a key: equal elements stay in the order of the list.
  unfoldable pub insert_by : (A → ℤ) → A → List A → List A
  insert_by key x [] = x ∷ []
  insert_by key x (y ∷ ys) = if leb_ℤ (key x) (key y) then x ∷ y ∷ ys else y ∷ insert_by key x ys

  unfoldable pub sorted_by : (A → ℤ) → List A → List A
  unfolding insert_by
  sorted_by key [] = []
  sorted_by key (x ∷ xs) = insert_by key x (sorted_by key xs)

  abbrev pub all : (A → Bool) → List A → Bool
  all p [] = true
  all p (x ∷ xs) = p x && all p xs

module _ {ℓ κ} {A : Type ℓ} where
  -- A predicate holds of every element.
  abbrev pub All : (A → Type κ) → List A → Type κ
  All P [] = Unit
  All P (x ∷ xs) = P x × All P xs

-- `x in xs` on numbers.
abbrev pub elem : ℕ → List ℕ → Bool
elem x [] = false
elem x (y ∷ ys) = x == y || elem x ys

-- `bytes ==`, on the contents of two byte strings.
abbrev pub bytes_eq : List ℕ → List ℕ → Bool
bytes_eq [] [] = true
bytes_eq (x ∷ xs) (y ∷ ys) = x == y && bytes_eq xs ys
bytes_eq _ _ = false

-- A value that fits one byte.
abbrev pub IsByte : ℕ → Type 0
IsByte b = b < 256
