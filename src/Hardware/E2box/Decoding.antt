-- ===== src/Hardware/E2box/Decoding.antt =====
-- The IMU driver of hal/hardware/can/imu/driver.py with the protocol of
-- qhrr0_hw/imu/e2box_protocol.py: which frames reach which part of the state.
use sparq_control.Common.{ℕ, not, ◌&&◌, ◌≡◌, ◌≢◌, arith, none, some, length, ◌==◌, if◌then◌else◌}
use sparq_control.Common.Floats.{Floats}
use sparq_control.Hal.Frame.{CanFrame}
use sparq_control.Hal.Freshness.{mark_rx, mark_decode_error}
use sparq_control.Hal.Imu.{Driver, on_frame}
use sparq_control.Hardware.E2box.{Config, protocol}

-- What a frame is to the driver.
pub data Kind : Type 0 where
  other broken quat gyro : Kind

module _ (fl : Floats) where
  open fl use {F, is_zero}

  -- A frame of one of the two ids is broken by its length, or by a scale of zero.
  abbrev pub kind_of : Config fl → CanFrame → Kind
  kind_of c frame =
      let has_length = length frame.payload == 8 in
      if frame.can_id == c.quat_id
      then (if has_length && not (is_zero c.quat_scale) then quat else broken)
      else if frame.can_id == c.gyro_id
      then (if has_length && not (is_zero c.gyro_scale) then gyro else broken)
      else other

  -- What the driver does with a frame at time `now`, by the frame's kind.
  abbrev pub Effect : Kind → Driver F → ℕ → Driver F → Type 0
  Effect other d now d' = d' ≡ d
  Effect broken d now d' = d' ≡ record d {
    quat_comm = mark_decode_error d.quat_comm now;
    gyro_comm = mark_decode_error d.gyro_comm now;
  }
  Effect quat d now d' =
      (d'.quat_comm ≡ mark_rx d.quat_comm (some now) now)
      × (d'.gyro_comm ≡ d.gyro_comm)
      × (d'.state.last_quat_t ≡ now)
      × (d'.state.quat_xyzw ≢ none)
      × (d'.state.projected_gravity_b ≢ none)
      × (d'.state.angular_velocity_rad_s ≡ d.state.angular_velocity_rad_s)
      × (d'.state.last_gyro_t ≡ d.state.last_gyro_t)
  Effect gyro d now d' =
      (d'.gyro_comm ≡ mark_rx d.gyro_comm (some now) now)
      × (d'.quat_comm ≡ d.quat_comm)
      × (d'.state.last_gyro_t ≡ now)
      × (d'.state.angular_velocity_rad_s ≢ none)
      × (d'.state.quat_xyzw ≡ d.state.quat_xyzw)
      × (d'.state.projected_gravity_b ≡ d.state.projected_gravity_b)
      × (d'.state.last_quat_t ≡ d.state.last_quat_t)

  -- A frame of another id changes nothing. A broken frame of either id leaves the state and counts
  -- a decode error in both monitors. A well-formed quaternion frame renews the quaternion, the
  -- gravity, their time and their monitor and nothing of the gyro, and a well-formed gyro frame
  -- the gyro's alone.
  pub on_frame-Effect :
      (c : Config fl) (d : Driver F) (frame : CanFrame) (now : ℕ)
      → Effect (kind_of c frame) d now (on_frame (protocol fl c) d frame now)
  unfolding on_frame protocol
  on_frame-Effect c d frame now = ground arith
