-- ===== src/Hardware/Spg/Encode.antt =====
-- The command encoders of `SPGActuatorProtocol` in qhrr0_hw/actuators/dongilc_protocol.py.
use sparq_control.Common.{
  negsuc, suc, ℕ, ◌+◌, ◌-◌, ◌*◌, ◌/◌, ◌%◌, ◌^◌, bit_or, ◌&&◌, not, List, [], ◌∷◌, ℤ, pos, pos_part,
  neg_ℤ, leb_ℤ, fits_i16, of_i16,
}
use sparq_control.Common.Result.{Result, ok, ◌>>=◌, ◌>>◌, value_error, raise_if}
use sparq_control.Hal.Frame.{CanFrame}
use sparq_control.Hardware.Spg.Numbers.{
  enc_mod, require_range, round_half_away_from_zero, float_to_uint, wrap_u14,
}

abbrev pub cmd_mit_control : ℕ
cmd_mit_control = 0xC0

abbrev pub cmd_mit_enter : ℕ
cmd_mit_enter = 0xC1

abbrev pub cmd_mit_exit : ℕ
cmd_mit_exit = 0xC2

abbrev pub cmd_mit_set_zero : ℕ
cmd_mit_set_zero = 0xC3

abbrev pub cmd_read_mit_params : ℕ
cmd_read_mit_params = 0xC4

abbrev pub cmd_write_mit_params : ℕ
cmd_write_mit_params = 0xC5

abbrev pub cmd_read_encoder_data : ℕ
cmd_read_encoder_data = 0x90

abbrev pub cmd_write_current_pos_as_zero : ℕ
cmd_write_current_pos_as_zero = 0x19

abbrev pub cmd_write_encoder_offset : ℕ
cmd_write_encoder_offset = 0x91

abbrev pub cmd_clear_error_flag : ℕ
cmd_clear_error_flag = 0x9B

-- `SPGMITConfig`, but for the feedback range, which only decoding uses.
pub record MitConfig : Type 0 where
  pub p_max : ℤ
  pub v_max : ℤ
  pub kp_max : ℤ
  pub kd_max : ℤ
  pub tau_max : ℤ

-- The arguments of `encode_impedance_command_frame`, in the units of the limits.
pub record MitCommand : Type 0 where
  pub position_rad : ℤ
  pub velocity_rad_s : ℤ
  pub kp : ℤ
  pub kd : ℤ
  pub torque_ff_nm : ℤ

-- The five codes in a payload: 16, 12, 12, 8 and 8 bits.
pub record MitCodes : Type 0 where
  pub p_u : ℕ
  pub v_u : ℕ
  pub kp_u : ℕ
  pub kd_u : ℕ
  pub t_u : ℕ

-- The range checks and the quantisation of `_pack_mit_payload`.
unfoldable pub mit_codes : MitConfig → MitCommand → Result MitCodes
unfolding float_to_uint require_range
mit_codes cfg c = do
  require_range c.position_rad (neg_ℤ cfg.p_max) cfg.p_max
  require_range c.velocity_rad_s (neg_ℤ cfg.v_max) cfg.v_max
  require_range c.kp (pos 0) cfg.kp_max
  require_range c.kd (pos 0) cfg.kd_max
  require_range c.torque_ff_nm (neg_ℤ cfg.tau_max) cfg.tau_max
  p_u ← float_to_uint c.position_rad (neg_ℤ cfg.p_max) cfg.p_max 16
  v_u ← float_to_uint c.velocity_rad_s (neg_ℤ cfg.v_max) cfg.v_max 12
  kp_u ← float_to_uint c.kp (pos 0) cfg.kp_max 12
  kd_u ← float_to_uint c.kd (pos 0) cfg.kd_max 8
  t_u ← float_to_uint c.torque_ff_nm (neg_ℤ cfg.tau_max) cfg.tau_max 8
  ok (record { p_u = p_u; v_u = v_u; kp_u = kp_u; kd_u = kd_u; t_u = t_u })

-- The bytes of `_pack_mit_payload`: `>> k` is `/ 2 ^ k` and `&` with a mask of k ones `% 2 ^ k`.
unfoldable pub mit_bytes : MitCodes → List ℕ
mit_bytes m =
    cmd_mit_control
    ∷ m.p_u / 2 ^ 8 % 2 ^ 8
    ∷ m.p_u % 2 ^ 8
    ∷ m.v_u / 2 ^ 4 % 2 ^ 8
    ∷ bit_or (m.v_u % 2 ^ 4 * 2 ^ 4) (m.kp_u / 2 ^ 8 % 2 ^ 4)
    ∷ m.kp_u % 2 ^ 8
    ∷ m.kd_u % 2 ^ 8
    ∷ m.t_u % 2 ^ 8
    ∷ []

-- `_pack_mit_payload`
unfoldable pub pack_mit_payload : MitConfig → MitCommand → Result (List ℕ)
unfolding mit_codes mit_bytes
pack_mit_payload cfg c = mit_codes cfg c >>= λ m. ok (mit_bytes m)

-- A factor k on the numerator of a fraction, for 0 < k.
abbrev pub times : ℕ → ℤ → ℤ
times k (pos n) = pos (k * n)
times k (negsuc n) = negsuc (k * suc n - 1)

-- `_pack_mit_set_zero_payload` of an offset of x / d degrees.
unfoldable pub pack_mit_set_zero_payload : ℤ → ℕ → Result (List ℕ)
unfolding round_half_away_from_zero
pack_mit_set_zero_payload x d = do
  let offset_raw = round_half_away_from_zero (times 100 x) d
  raise_if (not (fits_i16 offset_raw)) value_error
  ok (
      cmd_mit_set_zero
      ∷ 0
      ∷ 0
      ∷ 0
      ∷ 0
      ∷ 0
      ∷ of_i16 offset_raw % 2 ^ 8
      ∷ of_i16 offset_raw / 2 ^ 8
      ∷ [])

-- A command with no arguments.
unfoldable pub plain_frame : ℕ → ℕ → CanFrame
plain_frame command_id op = record {
  can_id = command_id;
  payload = op ∷ 0 ∷ 0 ∷ 0 ∷ 0 ∷ 0 ∷ 0 ∷ 0 ∷ [];
}

-- `encode_enable_frame`
unfoldable pub encode_enable_frame : ℕ → CanFrame
unfolding plain_frame
encode_enable_frame command_id = plain_frame command_id cmd_mit_enter

-- `encode_disable_frame`
unfoldable pub encode_disable_frame : ℕ → CanFrame
unfolding plain_frame
encode_disable_frame command_id = plain_frame command_id cmd_mit_exit

-- `encode_clear_fault_frame`
unfoldable pub encode_clear_fault_frame : ℕ → CanFrame
unfolding plain_frame
encode_clear_fault_frame command_id = plain_frame command_id cmd_clear_error_flag

-- `encode_impedance_command_frame`
unfoldable pub encode_impedance_command_frame : MitConfig → ℕ → MitCommand → Result CanFrame
unfolding pack_mit_payload
encode_impedance_command_frame cfg command_id c =
    pack_mit_payload cfg c >>= λ p. ok (record { can_id = command_id; payload = p })

-- `encode_torque_command_frame`
unfoldable pub encode_torque_command_frame : MitConfig → ℕ → ℤ → Result CanFrame
unfolding pack_mit_payload
encode_torque_command_frame cfg command_id torque_nm =
    pack_mit_payload cfg (record {
      position_rad = pos 0;
      velocity_rad_s = pos 0;
      kp = pos 0;
      kd = pos 0;
      torque_ff_nm = torque_nm;
    })
    >>= λ p. ok (record { can_id = command_id; payload = p })

-- `encode_zero_position_frame`, for an offset of x / d degrees.
unfoldable pub encode_zero_position_frame : ℕ → ℤ → ℕ → Result CanFrame
unfolding pack_mit_set_zero_payload
encode_zero_position_frame command_id x d =
    pack_mit_set_zero_payload x d >>= λ p. ok (record { can_id = command_id; payload = p })

-- `encode_write_mit_params_frame`, with kt and the gear ratio as fractions.
unfoldable pub encode_write_mit_params_frame : ℕ → ℤ → ℤ → ℤ × ℕ → ℤ × ℕ → Result CanFrame
unfolding round_half_away_from_zero
encode_write_mit_params_frame command_id v_max tau_max kt gear = do
  raise_if (not (leb_ℤ (pos 0) v_max && leb_ℤ v_max (pos 255))) value_error
  raise_if (not (leb_ℤ (pos 0) tau_max && leb_ℤ tau_max (pos 255))) value_error
  let kt_raw = round_half_away_from_zero (times 1000 kt.0) kt.1
  let gear_ratio_raw = round_half_away_from_zero (times 100 gear.0) gear.1
  raise_if (not (leb_ℤ (pos 0) kt_raw && leb_ℤ kt_raw (pos 0xFFFF))) value_error
  raise_if (not (leb_ℤ (pos 0) gear_ratio_raw && leb_ℤ gear_ratio_raw (pos 0xFFFF))) value_error
  ok (record {
    can_id = command_id;
    payload =
        cmd_write_mit_params
        ∷ pos_part v_max % 2 ^ 8
        ∷ pos_part tau_max % 2 ^ 8
        ∷ pos_part kt_raw % 2 ^ 8
        ∷ pos_part kt_raw / 2 ^ 8
        ∷ pos_part gear_ratio_raw % 2 ^ 8
        ∷ pos_part gear_ratio_raw / 2 ^ 8
        ∷ 0
        ∷ [];
  })

-- `encode_write_encoder_offset_frame`
unfoldable pub encode_write_encoder_offset_frame : ℕ → ℕ → CanFrame
encode_write_encoder_offset_frame command_id offset =
    let offset_u16 = offset % 2 ^ 16 in
    record {
      can_id = command_id;
      payload =
          cmd_write_encoder_offset
          ∷ 0
          ∷ 0
          ∷ 0
          ∷ 0
          ∷ 0
          ∷ offset_u16 % 2 ^ 8
          ∷ offset_u16 / 2 ^ 8 % 2 ^ 8
          ∷ [];
    }

-- `encode_set_current_position_as_rad_frame` once the desired angle is a count below `enc_mod`.
unfoldable pub encode_set_current_position_frame : ℕ → ℕ → ℕ → CanFrame
unfolding encode_write_encoder_offset_frame wrap_u14
encode_set_current_position_frame command_id original_u16 desired_cnt =
    let original_cnt = wrap_u14 original_u16 in
    encode_write_encoder_offset_frame command_id ((desired_cnt + enc_mod - original_cnt) % enc_mod)
