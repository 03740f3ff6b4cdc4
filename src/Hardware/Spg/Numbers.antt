-- ===== src/Hardware/Spg/Numbers.antt =====
-- The utility functions of qhrr0_hw/actuators/dongilc_protocol.py. A command value is exact: an
-- integer number of some unit, the same for the value and for the limits that it is held against,
-- or a fraction of two numbers. The rounding errors of floats are not modelled.
use sparq_control.Common.{
  ℕ, suc, ◌+◌, ◌-◌, ◌*◌, ◌/◌, ◌%◌, ◌^◌, ◌||◌, ltb, ◌==◌, if◌then◌else◌, ℤ, pos, negsuc, pos_part,
  neg_ℤ, sub_ℕ, ltb_ℤ, ◌-ℤ◌,
}
use sparq_control.Common.Result.{Result, ok, ◌>>◌, value_error, zero_division, raise_if}

-- `ENC_MOD` and `ENC_HALF`
abbrev pub enc_mod : ℕ
enc_mod = 16384

abbrev pub enc_half : ℕ
enc_half = 8192

-- `require_range`
unfoldable pub require_range : ℤ → ℤ → ℤ → Result (Unit {0})
require_range x lo hi = raise_if (ltb_ℤ x lo || ltb_ℤ hi x) value_error

-- `round_half_away_from_zero` of the fraction x / d, for 0 < d.
unfoldable pub round_half_away_from_zero : ℤ → ℕ → ℤ
round_half_away_from_zero (pos n) d = pos ((2 * n + d) / (2 * d))
round_half_away_from_zero (negsuc n) d = neg_ℤ (pos ((2 * suc n + d) / (2 * d)))

-- `float_to_uint`. The range check makes `x - x_min` and the span natural numbers.
unfoldable pub float_to_uint : ℤ → ℤ → ℤ → ℕ → Result ℕ
unfolding require_range round_half_away_from_zero ◌-ℤ◌
float_to_uint x x_min x_max bits = do
  require_range x x_min x_max
  let span = pos_part (x_max -ℤ x_min)
  let max_int = 2 ^ bits - 1
  raise_if (span == 0) zero_division
  ok (pos_part (round_half_away_from_zero (pos (pos_part (x -ℤ x_min) * max_int)) span))

-- `wrap_u14`: `x & 0x3FFF`
unfoldable pub wrap_u14 : ℕ → ℕ
wrap_u14 x = x % 2 ^ 14

-- `shortest_delta_u14`
unfoldable pub shortest_delta_u14 : ℕ → ℕ → ℤ
unfolding wrap_u14
shortest_delta_u14 curr_u16 prev_u16 =
    let curr = wrap_u14 curr_u16 in
    let prev = wrap_u14 prev_u16 in
    let delta = sub_ℕ curr prev in
    if ltb_ℤ (pos enc_half) delta
    then sub_ℕ curr (prev + enc_mod)
    else if ltb_ℤ delta (neg_ℤ (pos enc_half))
    then sub_ℕ (curr + enc_mod) prev
    else delta

-- The integer that `signed_u14_count_to_rad` turns into radians.
unfoldable pub signed_u14 : ℕ → ℤ
unfolding wrap_u14
signed_u14 cnt =
    let value = wrap_u14 cnt in if ltb value enc_half then pos value else sub_ℕ value enc_mod
