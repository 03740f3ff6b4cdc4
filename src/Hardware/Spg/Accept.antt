-- ===== src/Hardware/Spg/Accept.antt =====
-- Which commands `_pack_mit_payload` of qhrr0_hw/actuators/dongilc_protocol.py accepts.
use sparq_control.Common.{
  ℕ, ◌<◌, ◌≡◌, Bool, true, ◌&&◌, arith, ℤ, pos, pos_part, neg_ℤ, ◌-ℤ◌, leb_ℤ, if◌then◌else◌,
}
use sparq_control.Common.Result.{Result, ok, err, value_error, ◌>>=◌, ◌>>◌}
use sparq_control.Hardware.Spg.Numbers.{float_to_uint, require_range}
use sparq_control.Hardware.Spg.Encode.{
  MitConfig, MitCommand, MitCodes, mit_codes, mit_bytes, pack_mit_payload,
}
use sparq_control.Hardware.Spg.Quantise.{code_of, float_to_uint-in_range}

abbrev within : ℤ → ℤ → ℤ → Bool
within x lo hi = leb_ℤ lo x && leb_ℤ x hi

-- `require_range` accepts a value between its limits.
require_range-within :
    (x lo hi : ℤ) → require_range x lo hi ≡ (if within x lo hi then ok tt else err value_error)
unfolding require_range
require_range-within x lo hi = ground arith

float_to_uint-within :
    (x lo hi : ℤ)
    → (bits : ℕ) → 0 < pos_part (hi -ℤ lo)
    → within x lo hi ≡ true
    → float_to_uint x lo hi bits ≡ ok (code_of x lo hi bits)
float_to_uint-within x lo hi bits h w = ground (arith, float_to_uint-in_range x lo hi bits)

-- Each limit leaves a range to quantise.
unfoldable pub HasRanges : MitConfig → Type 0
HasRanges cfg =
    (0 < pos_part (cfg.p_max -ℤ neg_ℤ cfg.p_max))
    × (0 < pos_part (cfg.v_max -ℤ neg_ℤ cfg.v_max))
    × (0 < pos_part (cfg.kp_max -ℤ pos 0))
    × (0 < pos_part (cfg.kd_max -ℤ pos 0))
    × (0 < pos_part (cfg.tau_max -ℤ neg_ℤ cfg.tau_max))

abbrev pub in_limits : MitConfig → MitCommand → Bool
in_limits cfg c =
    within c.position_rad (neg_ℤ cfg.p_max) cfg.p_max
    && within c.velocity_rad_s (neg_ℤ cfg.v_max) cfg.v_max
    && within c.kp (pos 0) cfg.kp_max
    && within c.kd (pos 0) cfg.kd_max
    && within c.torque_ff_nm (neg_ℤ cfg.tau_max) cfg.tau_max

abbrev pub codes_of : MitConfig → MitCommand → MitCodes
codes_of cfg c = record {
  p_u = code_of c.position_rad (neg_ℤ cfg.p_max) cfg.p_max 16;
  v_u = code_of c.velocity_rad_s (neg_ℤ cfg.v_max) cfg.v_max 12;
  kp_u = code_of c.kp (pos 0) cfg.kp_max 12;
  kd_u = code_of c.kd (pos 0) cfg.kd_max 8;
  t_u = code_of c.torque_ff_nm (neg_ℤ cfg.tau_max) cfg.tau_max 8;
}

abbrev gate : Bool → Result (Unit {0})
gate b = if b then ok tt else err value_error

chain_gates :
    (u v w x y : Bool) (ru rv rk rx ry : Result (Unit {0})) (a b c d e : Result ℕ) (m : MitCodes)
    → ru ≡ gate u
    → rv ≡ gate v
    → rk ≡ gate w
    → rx ≡ gate x
    → ry ≡ gate y
    → (u ≡ true → a ≡ ok m.p_u)
    → (v ≡ true → b ≡ ok m.v_u)
    → (w ≡ true → c ≡ ok m.kp_u)
    → (x ≡ true → d ≡ ok m.kd_u)
    → (y ≡ true → e ≡ ok m.t_u)
    → (ru
        >> (rv
            >> (rk
                >> (rx
                    >> (ry
                        >> (a >>= λ p. b >>= λ q. c >>= λ r. d >>= λ s. e >>= λ t.
                            ok (record { p_u = p; v_u = q; kp_u = r; kd_u = s; t_u = t })))))))
      ≡ (if u && v && w && x && y then ok m else err value_error)
chain_gates u v w x y ru rv rk rx ry a b c d e m hu hv hw hx hy ha hb hc hd he = ground arith

mit_codes-in_limits :
    (cfg : MitConfig) (c : MitCommand)
    → HasRanges cfg
    → mit_codes cfg c ≡ (if in_limits cfg c then ok (codes_of cfg c) else err value_error)
unfolding mit_codes HasRanges
mit_codes-in_limits cfg c h =
    chain_gates (within c.position_rad (neg_ℤ cfg.p_max) cfg.p_max)
      (within c.velocity_rad_s (neg_ℤ cfg.v_max) cfg.v_max) (within c.kp (pos 0) cfg.kp_max)
      (within c.kd (pos 0) cfg.kd_max) (within c.torque_ff_nm (neg_ℤ cfg.tau_max) cfg.tau_max)
      (require_range c.position_rad (neg_ℤ cfg.p_max) cfg.p_max)
      (require_range c.velocity_rad_s (neg_ℤ cfg.v_max) cfg.v_max)
      (require_range c.kp (pos 0) cfg.kp_max) (require_range c.kd (pos 0) cfg.kd_max)
      (require_range c.torque_ff_nm (neg_ℤ cfg.tau_max) cfg.tau_max)
      (float_to_uint c.position_rad (neg_ℤ cfg.p_max) cfg.p_max 16)
      (float_to_uint c.velocity_rad_s (neg_ℤ cfg.v_max) cfg.v_max 12)
      (float_to_uint c.kp (pos 0) cfg.kp_max 12) (float_to_uint c.kd (pos 0) cfg.kd_max 8)
      (float_to_uint c.torque_ff_nm (neg_ℤ cfg.tau_max) cfg.tau_max 8) (codes_of cfg c)
      (require_range-within c.position_rad (neg_ℤ cfg.p_max) cfg.p_max)
      (require_range-within c.velocity_rad_s (neg_ℤ cfg.v_max) cfg.v_max)
      (require_range-within c.kp (pos 0) cfg.kp_max) (require_range-within c.kd (pos 0) cfg.kd_max)
      (require_range-within c.torque_ff_nm (neg_ℤ cfg.tau_max) cfg.tau_max)
      (float_to_uint-within c.position_rad (neg_ℤ cfg.p_max) cfg.p_max 16 h.0)
      (float_to_uint-within c.velocity_rad_s (neg_ℤ cfg.v_max) cfg.v_max 12 h.1)
      (float_to_uint-within c.kp (pos 0) cfg.kp_max 12 h.2)
      (float_to_uint-within c.kd (pos 0) cfg.kd_max 8 h.3)
      (float_to_uint-within c.torque_ff_nm (neg_ℤ cfg.tau_max) cfg.tau_max 8 h.4)

-- Under limits that each leave a range, `_pack_mit_payload` refuses a command with `ValueError`
-- exactly when one of its five values is outside its limits, and packs the codes of any other.
pub pack_mit_payload-in_limits :
    (cfg : MitConfig) (c : MitCommand)
    → HasRanges cfg
    → pack_mit_payload cfg c
      ≡ (if in_limits cfg c then ok (mit_bytes (codes_of cfg c)) else err value_error)
unfolding pack_mit_payload
pack_mit_payload-in_limits cfg c h = rw (mit_codes-in_limits cfg c h) (ground arith)
