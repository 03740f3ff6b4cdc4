-- ===== src/Tests/Hardware.antt =====
-- Tests of the modules for qhrr0_hw.
use sparq_control.Common.{
  ℕ, ◌+◌, ◌-◌, ◌*◌, ◌^◌, ◌<◌, ◌≤◌, ◌≡◌, true, none, some, List, [], ◌∷◌, refl, arith, ℤ, pos,
  negsuc, pos_part, neg_part, ◌≤ℤ◌, ◌-ℤ◌, if◌then◌else◌, length, get_or, All, IsByte,
}
use sparq_control.Common.Result.{ok, err, value_error, ◌>>=◌}
use sparq_control.Hal.Frame.{CanFrame}
use sparq_control.Hal.Freshness.{new_manager}
use sparq_control.Hal.Imu.{Driver, blank_pose, on_frame}
use sparq_control.Hardware.E2box.{protocol}
use sparq_control.Hardware.E2box
use sparq_control.Hardware.E2box.Decoding.{Effect, kind_of, on_frame-Effect}
use sparq_control.Hardware.Spg.Numbers.{
  float_to_uint, require_range, round_half_away_from_zero, shortest_delta_u14, signed_u14, wrap_u14,
}
use sparq_control.Hardware.Spg.Encode.{
  MitConfig, MitCommand, MitCodes, mit_bytes, mit_codes, pack_mit_payload,
  encode_zero_position_frame, encode_write_mit_params_frame, encode_set_current_position_frame,
  cmd_mit_control,
}
use sparq_control.Hardware.Spg.Decode
use sparq_control.Hardware.Spg.Decode.{decode_frame, u16}
use sparq_control.Hardware.Spg.Quantise.{float_to_uint_mono, float_to_uint_ends}
use sparq_control.Hardware.Spg.Payload.{
  Codes, CodesFit, unpack, pack_mit_payload-unpack, unpack-mit_bytes,
}
use sparq_control.Hardware.Spg.Accept.{HasRanges, in_limits, codes_of, pack_mit_payload-in_limits}
use sparq_control.Hardware.Spg.Params.{
  ZeroPosition, encode_zero_position_frame-ZeroPosition, WrittenParams,
  encode_write_mit_params_frame-WrittenParams, encode_set_current_position_frame_sum,
  shortest_delta_u14_leads, wrap_u14-signed_u14,
}
use sparq_control.Hardware.Spg.Responses.{Response, decode_frame-Response}
use sparq_control.Dashboard.Decode.Agreement.{turning, orientation, status_of, dashboard_reads_same}
use sparq_control.Dashboard.Decode.{decode_e2box_gyro, decode_e2box_quat, decode_spg_status}
use sparq_control.Tests.Numbers.{integers}

-- Limits of 12.5, 45, 500, 5 and 40, in tenths.
abbrev pub some_config : MitConfig
some_config = record {
  p_max = pos 125;
  v_max = pos 450;
  kp_max = pos 5000;
  kd_max = pos 50;
  tau_max = pos 400;
}

abbrev some_command : MitCommand
some_command = record {
  position_rad = negsuc 9;
  velocity_rad_s = pos 0;
  kp = pos 200;
  kd = pos 10;
  torque_ff_nm = pos 33;
}

some_config-HasRanges : HasRanges some_config
unfolding HasRanges ◌-ℤ◌
some_config-HasRanges = ground arith

pack_mit_payload-in_limits_example : pack_mit_payload some_config some_command ≡ (
    if in_limits some_config some_command
    then ok (mit_bytes (codes_of some_config some_command))
    else err value_error)
pack_mit_payload-in_limits_example =
    pack_mit_payload-in_limits some_config some_command some_config-HasRanges

abbrev some_payload : List ℕ
some_payload = 0xC0 ∷ 117 ∷ 194 ∷ 128 ∷ 0 ∷ 164 ∷ 51 ∷ 138 ∷ []

pack_some : pack_mit_payload some_config some_command ≡ ok some_payload
unfolding pack_mit_payload mit_codes mit_bytes float_to_uint require_range round_half_away_from_zero
    ◌-ℤ◌
pack_some = refl

pack_mit_payload-unpack_example :
    (length some_payload ≡ 8)
    × (get_or some_payload 0 0 ≡ cmd_mit_control)
    × All IsByte some_payload
    × Codes some_config some_command (unpack some_payload)
pack_mit_payload-unpack_example =
    pack_mit_payload-unpack some_config some_command some_payload pack_some

abbrev some_codes : MitCodes
some_codes = record { p_u = 0x1234; v_u = 0xABC; kp_u = 0xDEF; kd_u = 0x56; t_u = 0x78 }

some_codes-fit : CodesFit some_codes
unfolding CodesFit
some_codes-fit = omega arith

unpack_some : unpack (mit_bytes some_codes) ≡ some_codes
unpack_some = unpack-mit_bytes some_codes some_codes-fit

float_three : float_to_uint (pos 3) (negsuc 9) (pos 10) 8 ≡ ok 166
unfolding float_to_uint require_range round_half_away_from_zero ◌-ℤ◌
float_three = refl

float_seven : float_to_uint (pos 7) (negsuc 9) (pos 10) 8 ≡ ok 217
unfolding float_to_uint require_range round_half_away_from_zero ◌-ℤ◌
float_seven = refl

float_to_uint_mono_example : 166 ≤ 217
float_to_uint_mono_example =
    float_to_uint_mono (pos 3) (pos 7) (negsuc 9) (pos 10) 8 166 217 (omega arith) float_three
      float_seven

range_twenty : 0 < pos_part (pos 10 -ℤ negsuc 9)
unfolding ◌-ℤ◌
range_twenty = omega arith

float_to_uint_ends_run :
    (float_to_uint (negsuc 9) (negsuc 9) (pos 10) 8 ≡ ok 0)
    × (float_to_uint (pos 10) (negsuc 9) (pos 10) 8 ≡ ok (2 ^ 8 - 1))
float_to_uint_ends_run = float_to_uint_ends (negsuc 9) (pos 10) 8 range_twenty

encode_zero_position_frame-ZeroPosition_example :
    ZeroPosition 0x101 (negsuc 1499) 7 (encode_zero_position_frame 0x101 (negsuc 1499) 7)
encode_zero_position_frame-ZeroPosition_example =
    encode_zero_position_frame-ZeroPosition 0x101 (negsuc 1499) 7 (omega arith)

encode_write_mit_params_frame-WrittenParams_run :
    WrittenParams 0x101
      (pos 45)
      (pos 40)
      (pos 95, 1)
      (pos 900, 1)
      (encode_write_mit_params_frame 0x101 (pos 45) (pos 40) (pos 95, 1) (pos 900, 1))
encode_write_mit_params_frame-WrittenParams_run =
    encode_write_mit_params_frame-WrittenParams 0x101 (pos 45) (pos 40) (pos 95, 1) (pos 900, 1)

encode_set_current_position_frame_sum_run :
    let f = encode_set_current_position_frame 0x101 16000 500 in
    (wrap_u14 (u16 f.payload 6 7 + 16000) ≡ 500)
    × (u16 f.payload 6 7 < 16384)
    × All IsByte f.payload
encode_set_current_position_frame_sum_run =
    encode_set_current_position_frame_sum 0x101 16000 500 (omega arith)

shortest_delta_u14_leads_run :
    let d = shortest_delta_u14 16300 100 in
    (negsuc 8191 ≤ℤ d)
    × (d ≤ℤ pos 8192)
    × (wrap_u14 (100 + pos_part d + neg_part d * 16383) ≡ wrap_u14 16300)
shortest_delta_u14_leads_run = shortest_delta_u14_leads 16300 100

wrap_u14-signed_u14_run :
    let s = signed_u14 16000 in
    (negsuc 8191 ≤ℤ s)
    × (s ≤ℤ pos 8191)
    × (wrap_u14 (pos_part s + neg_part s * 16383) ≡ wrap_u14 16000)
wrap_u14-signed_u14_run = wrap_u14-signed_u14 16000

abbrev spg_config : Decode.Config integers
spg_config = record {
  feedback_id = 0x101;
  feedback_position_max = pos 125;
  gear_ratio = pos 9;
  feedback_speed_is_motor_side = true;
  expose_single_turn_position = true;
  iq_count_to_amp = some (pos 2);
  torque_constant_nm_per_a = none;
  gear_efficiency = pos 1;
}

abbrev status_frame : CanFrame
status_frame = record { can_id = 0x101; payload = 0xC0 ∷ 30 ∷ 1 ∷ 0 ∷ 2 ∷ 0 ∷ 3 ∷ 0 ∷ [] }

decode_frame-Response_example :
    Response integers spg_config status_frame 50 (decode_frame integers spg_config status_frame 50)
decode_frame-Response_example = decode_frame-Response integers spg_config status_frame 50

abbrev imu_config : E2box.Config integers
imu_config = record {
  request_id = 0x200;
  quat_id = 0x201;
  gyro_id = 0x202;
  cmd_get_quat = 1;
  cmd_get_gyro = 2;
  cmd_get_all = 3;
  quat_scale = pos 1;
  gyro_scale = pos 1;
  normalize_quat = true;
}

abbrev pub imu_driver : Driver ℤ
imu_driver = record { state = blank_pose; quat_comm = new_manager 10; gyro_comm = new_manager 10 }

abbrev gyro_frame : CanFrame
gyro_frame = record { can_id = 0x202; payload = 1 ∷ 0 ∷ 2 ∷ 0 ∷ 3 ∷ 0 ∷ 0 ∷ 0 ∷ [] }

on_frame-Effect_example :
    Effect integers
      (kind_of integers imu_config gyro_frame)
      imu_driver
      9
      (on_frame (protocol integers imu_config) imu_driver gyro_frame 9)
on_frame-Effect_example = on_frame-Effect integers imu_config imu_driver gyro_frame 9

dashboard_reads_same_example :
    (turning integers (E2box.decode_gyro integers imu_config gyro_frame.payload 9)
      ≡ (decode_e2box_gyro integers gyro_frame.payload (pos 1) >>= λ v. ok (some v)))
    × (orientation integers (E2box.decode_quat integers imu_config gyro_frame.payload 9) ≡ (
        decode_e2box_quat integers gyro_frame.payload (pos 1) true >>= λ q.
        ok (some q.0, some q.1)))
    × (status_of integers (Decode.decode_mit_status integers spg_config status_frame.payload 9) ≡ (
        decode_spg_status integers status_frame.payload (pos 125) (pos 2048) (pos 33) >>= λ s.
        ok (some s.position_rad, some s.temperature_c)))
dashboard_reads_same_example =
    dashboard_reads_same integers imu_config spg_config gyro_frame.payload gyro_frame.payload
      status_frame.payload 9 (pos 2048) (pos 33) refl refl refl
