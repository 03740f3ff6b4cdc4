-- ===== src/Hardware/Spg/Decode.antt =====
-- The decoders of `SPGActuatorProtocol` in qhrr0_hw/actuators/dongilc_protocol.py, over the float
-- operations that are a parameter. `time.monotonic()` is the argument `now`.
use Prim.Native.String.{String}
use sparq_control.Common.{
  ℕ, Bool, true, false, not, ◌||◌, Option, none, some, List, [], ◌∷◌, ℤ, pos, to_i8, to_i16, u16_le,
  length, get_or, ◌==◌, if◌then◌else◌,
}
use sparq_control.Common.Floats.{Floats}
use sparq_control.Common.Result.{Result, ok, err, ◌>>=◌, ◌>>◌, value_error, raise_if}
use sparq_control.Hal.Frame.{CanFrame}
use sparq_control.Hal.Actuator.{int, float, Raw, ActuatorState, blank_state}
use sparq_control.Hardware.Spg.Numbers.{wrap_u14, signed_u14}
use sparq_control.Hardware.Spg.Encode.{
  cmd_mit_control, cmd_mit_enter, cmd_mit_exit, cmd_mit_set_zero, cmd_read_mit_params,
  cmd_read_encoder_data, cmd_write_current_pos_as_zero, cmd_write_encoder_offset,
  cmd_clear_error_flag,
}

-- `SPGMITStatus`
pub record MitStatus : Type 0 where
  pub temp_c : ℤ
  pub iq_counts : ℤ
  pub speed_dps : ℤ
  pub mit_position_i16 : ℤ

-- `SPGEncoderData`
pub record EncoderData : Type 0 where
  pub temp_c : ℤ
  pub encoder_position_u16 : ℕ
  pub encoder_original_u16 : ℕ
  pub encoder_offset_u16 : ℕ

-- `SPGMITParams`, with kt in thousandths and the gear ratio in hundredths.
pub record MitParams : Type 0 where
  pub v_max_rad_s : ℕ
  pub tau_max_nm : ℕ
  pub kt_out_raw : ℕ
  pub gear_ratio_raw : ℕ

-- `payload8[i]`
abbrev pub byte : List ℕ → ℕ → ℕ
byte payload i = get_or payload i 0

-- `struct.unpack("<H", payload8[i : i + 2])`
abbrev pub u16 : List ℕ → ℕ → ℕ → ℕ
u16 payload lo hi = u16_le (byte payload lo) (byte payload hi)

-- `_parse_mit_status_v14`
unfoldable pub parse_mit_status : List ℕ → Result MitStatus
parse_mit_status payload8 = do
  raise_if (not (length payload8 == 8) || not (byte payload8 0 == cmd_mit_control)) value_error
  ok (record {
    temp_c = to_i8 (byte payload8 1);
    iq_counts = to_i16 (u16 payload8 2 3);
    speed_dps = to_i16 (u16 payload8 4 5);
    mit_position_i16 = to_i16 (u16 payload8 6 7);
  })

-- `_parse_encoder_data`
unfoldable pub parse_encoder_data : List ℕ → Result EncoderData
unfolding wrap_u14
parse_encoder_data payload8 = do
  raise_if (not (length payload8 == 8) || not (byte payload8 0 == cmd_read_encoder_data))
      value_error
  ok (record {
    temp_c = to_i8 (byte payload8 1);
    encoder_position_u16 = wrap_u14 (u16 payload8 2 3);
    encoder_original_u16 = wrap_u14 (u16 payload8 4 5);
    encoder_offset_u16 = wrap_u14 (u16 payload8 6 7);
  })

-- `_parse_mit_params`
unfoldable pub parse_mit_params : List ℕ → Result MitParams
parse_mit_params payload8 = do
  raise_if (not (length payload8 == 8) || not (byte payload8 0 == cmd_read_mit_params)) value_error
  ok (record {
    v_max_rad_s = byte payload8 1;
    tau_max_nm = byte payload8 2;
    kt_out_raw = u16 payload8 3 4;
    gear_ratio_raw = u16 payload8 5 6;
  })

-- `_ack_enabled_hint`
unfoldable pub ack_enabled_hint : ℕ → Option Bool
ack_enabled_hint cmd =
    if cmd == cmd_mit_enter
    then some true
    else if cmd == cmd_mit_exit || cmd == cmd_clear_error_flag
    then some false
    else none

-- `_ack_mode`
unfoldable pub ack_mode : ℕ → Option String
ack_mode cmd =
    if cmd == cmd_mit_enter
    then some "MIT_ENTER_ACK"
    else if cmd == cmd_mit_exit
    then some "MIT_EXIT_ACK"
    else if cmd == cmd_mit_set_zero
    then some "MIT_SET_ZERO_ACK"
    else if cmd == cmd_clear_error_flag
    then some "CLEAR_ERROR_ACK"
    else if cmd == cmd_write_current_pos_as_zero
    then some "WRITE_CURRENT_POS_AS_ZERO_ACK"
    else if cmd == cmd_write_encoder_offset
    then some "WRITE_ENCODER_OFFSET_ACK"
    else none

-- `cmd in (...)` of the acknowledged commands.
abbrev pub is_ack : ℕ → Bool
is_ack cmd =
    cmd == cmd_mit_enter
    || cmd == cmd_mit_exit
    || cmd == cmd_write_current_pos_as_zero
    || cmd == cmd_write_encoder_offset
    || cmd == cmd_mit_set_zero
    || cmd == cmd_clear_error_flag

module _ (fl : Floats) where
  open fl use {F, of_int, lit, mul, div, pi, radians}

  -- `SPGActuatorProtocol`, by what decoding uses of its constructor's arguments.
  pub record Config : Type 0 where
    pub feedback_id : ℕ
    pub feedback_position_max : F
    pub gear_ratio : F
    pub feedback_speed_is_motor_side : Bool
    pub expose_single_turn_position : Bool
    pub iq_count_to_amp : Option F
    pub torque_constant_nm_per_a : Option F
    pub gear_efficiency : F

  -- `CNT2RAD`
  abbrev cnt2rad : F
  cnt2rad = div (mul (lit 2 0) pi) (of_int (pos 16384))

  -- `u14_count_to_rad`
  unfoldable pub u14_count_to_rad : ℕ → F
  unfolding wrap_u14
  u14_count_to_rad cnt = mul (of_int (pos (wrap_u14 cnt))) cnt2rad

  -- `signed_u14_count_to_rad`
  unfoldable pub signed_u14_count_to_rad : ℕ → F
  unfolding signed_u14
  signed_u14_count_to_rad cnt = mul (of_int (signed_u14 cnt)) cnt2rad

  -- `_decode_mit_status`
  unfoldable pub decode_mit_status : Config → List ℕ → ℕ → Result (ActuatorState F)
  unfolding parse_mit_status
  decode_mit_status c payload8 now = do
    status ← parse_mit_status payload8
    let v = radians (of_int status.speed_dps)
    let velocity = if c.feedback_speed_is_motor_side then div v c.gear_ratio else v
    let position =
        mul (div (of_int status.mit_position_i16) (of_int (pos 32767))) c.feedback_position_max
    let current : Option F = elim c.iq_count_to_amp [
      | none ↦ none
      | some k ↦ some (mul (of_int status.iq_counts) k)
    ]
    let torque : Option F = elim current [
      | none ↦ none
      | some a ↦ elim c.torque_constant_nm_per_a [
        | none ↦ none
        | some k ↦ some (mul (mul (mul a k) c.gear_ratio) c.gear_efficiency)
      ]
    ]
    ok (record blank_state {
      position_rad = if c.expose_single_turn_position then some position else none;
      velocity_rad_s = some velocity;
      torque_nm = torque;
      current_a = current;
      temperature_c = some (of_int status.temp_c);
      last_feedback_t = now;
      raw =
          ("cmd", int (pos cmd_mit_control))
          ∷ ("iq_counts", int status.iq_counts)
          ∷ ("speed_dps", int status.speed_dps)
          ∷ ("position_i16", int status.mit_position_i16)
          ∷ ("mit_position_i16", int status.mit_position_i16)
          ∷ ("feedback_position_max_rad", float c.feedback_position_max)
          ∷ ("position_output_rad", float position)
          ∷ ("mit_position_rad", float position)
          ∷ [];
    })

  -- `_decode_encoder_data`
  unfoldable pub decode_encoder_data : Config → List ℕ → ℕ → Result (ActuatorState F)
  unfolding parse_encoder_data signed_u14_count_to_rad u14_count_to_rad
  decode_encoder_data c payload8 now = do
    enc ← parse_encoder_data payload8
    let signed = signed_u14_count_to_rad enc.encoder_position_u16
    ok (record blank_state {
      position_rad = if c.expose_single_turn_position then some (div signed c.gear_ratio) else none;
      temperature_c = some (of_int enc.temp_c);
      last_feedback_t = now;
      raw =
          ("cmd", int (pos cmd_read_encoder_data))
          ∷ ("encoder_position_u16", int (pos enc.encoder_position_u16))
          ∷ ("encoder_original_u16", int (pos enc.encoder_original_u16))
          ∷ ("encoder_offset_u16", int (pos enc.encoder_offset_u16))
          ∷ ("encoder_position_rad_signed_motor", float signed)
          ∷ ("encoder_original_rad_motor", float (u14_count_to_rad enc.encoder_original_u16))
          ∷ ("encoder_offset_rad_motor", float (u14_count_to_rad enc.encoder_offset_u16))
          ∷ [];
    })

  -- `_decode_mit_params`
  unfoldable pub decode_mit_params : List ℕ → ℕ → Result (ActuatorState F)
  unfolding parse_mit_params
  decode_mit_params payload8 now = do
    params ← parse_mit_params payload8
    ok (record blank_state {
      mode = some "MIT_PARAMS";
      last_feedback_t = now;
      raw =
          ("cmd", int (pos cmd_read_mit_params))
          ∷ ("v_max_rad_s", int (pos params.v_max_rad_s))
          ∷ ("tau_max_nm", int (pos params.tau_max_nm))
          ∷ ("kt_out_nm_per_a", float (mul (of_int (pos params.kt_out_raw)) (lit 1 3)))
          ∷ ("gear_ratio", float (mul (of_int (pos params.gear_ratio_raw)) (lit 1 2)))
          ∷ [];
    })

  -- The entries that `_decode_ack_like_frame` adds to `raw` after the command.
  unfoldable pub ack_raw : ℕ → List ℕ → Raw F
  unfolding u14_count_to_rad
  ack_raw cmd payload8 =
      let offset_u16 = u16 payload8 6 7 in
      let offset_deg = mul (of_int (to_i16 offset_u16)) (lit 1 2) in
      if cmd == cmd_mit_set_zero
      then ("offset_i16", int (to_i16 offset_u16))
        ∷ ("offset_deg", float offset_deg)
        ∷ ("offset_rad", float (radians offset_deg))
        ∷ []
      else if cmd == cmd_write_current_pos_as_zero || cmd == cmd_write_encoder_offset
      then ("encoder_offset_u16", int (pos offset_u16))
        ∷ ("encoder_offset_rad_motor", float (u14_count_to_rad offset_u16))
        ∷ []
      else if cmd == cmd_clear_error_flag
      then ("fault_code_after_clear", int (pos (byte payload8 1))) ∷ []
      else []

  -- `_decode_ack_like_frame`
  unfoldable pub decode_ack_like_frame : List ℕ → ℕ → Result (ActuatorState F)
  unfolding ack_enabled_hint ack_mode ack_raw
  decode_ack_like_frame payload8 now = do
    raise_if (not (length payload8 == 8)) value_error
    let cmd = byte payload8 0
    ok (record blank_state {
      is_enabled = ack_enabled_hint cmd;
      mode = ack_mode cmd;
      fault_code = if cmd == cmd_clear_error_flag then some (byte payload8 1) else none;
      last_feedback_t = now;
      raw = ("cmd", int (pos cmd)) ∷ ack_raw cmd payload8;
    })

  abbrev pub handled : Result (ActuatorState F) → Result (Option (ActuatorState F))
  handled r = r >>= λ s. ok (some s)

  -- `decode_frame`
  unfoldable pub decode_frame : Config → CanFrame → ℕ → Result (Option (ActuatorState F))
  unfolding decode_mit_status decode_encoder_data decode_mit_params decode_ack_like_frame
  decode_frame c frame now =
      let payload = frame.payload in
      let cmd = byte payload 0 in
      if not (frame.can_id == c.feedback_id)
      then ok none
      else if not (length payload == 8)
      then err value_error
      else if cmd == cmd_mit_control
      then handled (decode_mit_status c payload now)
      else if cmd == cmd_read_encoder_data
      then handled (decode_encoder_data c payload now)
      else if cmd == cmd_read_mit_params
      then handled (decode_mit_params payload now)
      else if is_ack cmd
      then handled (decode_ack_like_frame payload now)
      else ok none
