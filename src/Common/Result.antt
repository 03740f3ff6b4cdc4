-- ===== src/Common/Result.antt =====
-- Python exceptions as values, and the chain of calls that may raise.
use mathlib.Core.Bool.{Bool, true, false}
use mathlib.Core.Path.{◌≡◌, refl}
use sparq_control.Common.Tests.{if◌then◌else◌}

-- The exception classes that the modelled code raises.
pub data Exn : Type 0 where
  value_error runtime_error zero_division os_error assertion_error struct_error type_error : Exn
  key_error attribute_error platform_config_error config_error timeout_expired : Exn

-- What a call gives back, or the exception that it raises.
pub data Result {ℓ} (A : Type ℓ) : Type ℓ where
  ok : A → Result A
  err : Exn → Result A

-- The next call, with what the call before it gave back.
infixl 5 ◌>>=◌
abbrev pub ◌>>=◌ {ℓ κ} : {X : Type ℓ} {Y : Type κ} → Result X → (X → Result Y) → Result Y
err e >>= next = err e
ok x >>= next = next x

-- `if c: raise e`
abbrev pub raise_if : Bool → Exn → Result (Unit {0})
raise_if c e = if c then err e else ok tt

-- The next call, after one that gives nothing back.
infixl 5 ◌>>◌
abbrev pub ◌>>◌ {ℓ} : {Y : Type ℓ} → Result (Unit {0}) → Result Y → Result Y
check >> next = check >>= λ done. next

-- What a call gives back satisfies a predicate, if the call does not raise.
abbrev pub Ensures {ℓ κ} : {X : Type ℓ} → (X → Type κ) → Result X → Type κ
Ensures P (ok x) = P x
Ensures P (err e) = Unit

module _ {ℓ κ μ} {Y : Type κ} (P : Y → Type μ) where
  pub Ensures-bind :
      {X : Type ℓ} (Q : X → Type ℓ) (r : Result X) (next : X → Result Y)
      → Ensures Q r
      → ((x : X) → Q x → Ensures P (next x))
      → Ensures P (r >>= next)
  Ensures-bind Q (ok x) next h k = k x h
  Ensures-bind Q (err e) next h k = tt

  pub Ensures-any :
      {X : Type ℓ} (r : Result X) (next : X → Result Y)
      → ((x : X) → Ensures P (next x))
      → Ensures P (r >>= next)
  Ensures-any (ok x) next k = k x
  Ensures-any (err e) next k = tt

module _ {κ μ} {Y : Type κ} (P : Y → Type μ) where
  pub Ensures-raise_if :
      (c : Bool) (e : Exn) (next : Result Y)
      → (c ≡ false → Ensures P next)
      → Ensures P (raise_if c e >> next)
  Ensures-raise_if true e next k = tt
  Ensures-raise_if false e next k = k refl
