-- ===== src/Common/Floats.antt =====
-- Floating-point numbers as the program uses them in decoding: a type with its operations, a
-- parameter of the model. No law is assumed of them.
use sparq_control.Common.Int.{ℤ}
use Prim.Native.Nat.{ℕ}
use mathlib.Core.Bool.{Bool}
use sparq_control.Common.Tests.{if◌then◌else◌}
use sparq_control.Common.Result.{Result, ok, err, zero_division}

pub record Floats : Type 1 where
  pub F : Type 0
  -- `float(n)`
  pub of_int : ℤ → F
  -- The decimal literal n / 10^k.
  pub lit : ℕ → ℕ → F
  pub add : F → F → F
  pub sub : F → F → F
  pub mul : F → F → F
  pub div : F → F → F
  pub neg : F → F
  pub sqrt : F → F
  -- `math.pi`
  pub pi : F
  -- `math.radians`
  pub radians : F → F
  -- `a < b`
  pub lt : F → F → Bool
  -- `a <= b`
  pub le : F → F → Bool
  -- `a == 0.0`, where a division by `a` raises `ZeroDivisionError`.
  pub is_zero : F → Bool
  -- `math.isfinite`
  pub is_finite : F → Bool
  -- The value that a `c_float` field keeps.
  pub single : F → F

-- Python's `a / b`.
abbrev pub divide : (fl : Floats) → fl.F → fl.F → Result fl.F
divide fl a b = if fl.is_zero b then err zero_division else ok (fl.div a b)
