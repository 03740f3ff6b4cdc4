-- ===== src/Hardware/Spg/Responses.antt =====
-- `decode_frame` of qhrr0_hw/actuators/dongilc_protocol.py over every command byte: which frames
-- are answered, ignored and refused.
use sparq_control.Common.{
  ℕ, ◌≡◌, ◌≢◌, Bool, true, false, ◌||◌, Option, none, some, arith, length, ◌==◌, ◌⊎◌,
}
use sparq_control.Common.Floats.{Floats}
use sparq_control.Common.Result.{Result, ok, err, value_error}
use sparq_control.Hal.Frame.{CanFrame}
use sparq_control.Hal.Actuator.{ActuatorState}
use sparq_control.Hardware.Spg.Encode.{cmd_mit_control, cmd_read_encoder_data, cmd_read_mit_params}
use sparq_control.Hardware.Spg.Decode.{
  byte, is_ack, Config, decode_frame, decode_mit_status, decode_encoder_data, decode_mit_params,
  decode_ack_like_frame, parse_mit_status, parse_encoder_data, parse_mit_params,
}

-- The command bytes that a drive answers with.
abbrev is_answer : ℕ → Bool
is_answer cmd =
    cmd == cmd_mit_control
    || cmd == cmd_read_encoder_data
    || cmd == cmd_read_mit_params
    || is_ack cmd

module _ (fl : Floats) where
  open fl use {F}

  -- What decoding made of a frame.
  pub Response : Config fl → CanFrame → ℕ → Result (Option (ActuatorState F)) → Type 0
  Response c f now (ok none) =
      (f.can_id ≢ c.feedback_id) ⊎ ((length f.payload ≡ 8) × (is_answer (byte f.payload 0) ≡ false))
  Response c f now (ok (some s)) =
      (f.can_id ≡ c.feedback_id)
      × (length f.payload ≡ 8)
      × (is_answer (byte f.payload 0) ≡ true)
      × (s.last_feedback_t ≡ now)
  Response c f now (err e) = (f.can_id ≡ c.feedback_id) × (length f.payload ≢ 8) × (e ≡ value_error)

  -- A frame with another id is ignored. A frame with the drive's id raises `ValueError` exactly when
  -- it has not eight bytes, is ignored for a command byte that is not an answer, and otherwise is
  -- decoded to a state with the present feedback time.
  pub decode_frame-Response :
      (c : Config fl) (f : CanFrame) (now : ℕ) → Response c f now (decode_frame fl c f now)
  unfolding Response decode_frame decode_mit_status decode_encoder_data decode_mit_params
      decode_ack_like_frame parse_mit_status parse_encoder_data parse_mit_params
  decode_frame-Response c f now = ground arith
