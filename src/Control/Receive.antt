-- ===== src/Control/Receive.antt =====
-- `_on_actuator_frame` of robot_controller/controller.py: feedback goes to the driver, and echoes of
-- the controller's own frames do not.
use sparq_control.Common.{ℕ, ◌≤◌, ◌+◌, ◌≡◌, ◌&&◌, Option, arith, if◌then◌else◌, any, refl}
use sparq_control.Common.Result.{Result, ok, err}
use sparq_control.Hal.Frame.{CanFrame}
use sparq_control.Hal.Actuator.{ActuatorState, Driver, on_frame}
use sparq_control.Hal.Transport.{
  Transport, Link, send_frame, is_recent_tx_echo, is_copy, tx_echo_reject_window,
}
use sparq_control.Hal.Transport.Echo.{IsMemory, is_recent, is_recent_tx_echo-any}
use sparq_control.Hal.Transport.Memory.{Sends, send_frame-Sends}

module _ {F : Type 0} (decode_frame : CanFrame → ℕ → Result (Option (ActuatorState F))) where
  -- `_on_actuator_frame`, with the clock's reading in the echo test and the one in the driver.
  unfoldable pub on_actuator_frame : Transport → Driver F → CanFrame → ℕ → ℕ → Transport × Driver F
  unfolding is_recent_tx_echo on_frame
  on_actuator_frame t d frame now later =
      let (t', is_echo) = is_recent_tx_echo t frame now in
      (t', if is_echo then d else on_frame decode_frame d frame later)

  -- A received frame reaches the driver exactly when no remembered frame with its id and data was
  -- sent in the 0.25 s before, for a memory that is in the order of time.
  pub on_actuator_frame-any :
      (t : Transport) (d : Driver F) (frame : CanFrame) (now later : ℕ)
      → IsMemory now t.recent_tx_frames
      → (on_actuator_frame t d frame now later).1 ≡ (
          if any (λ x. is_recent now x && is_copy frame x) t.recent_tx_frames
          then d
          else on_frame decode_frame d frame later)
  unfolding on_actuator_frame
  on_actuator_frame-any t d frame now later h = rw (is_recent_tx_echo-any t frame now h) refl

  -- What a driver makes of the frame that a send, with this result, has sent.
  pub Own : Driver F → CanFrame → ℕ → ℕ → Result (Unit {0}) × Transport → Type 0
  Own d frame now later (ok _, t) = (on_actuator_frame t d frame now later).1 ≡ d
  Own d frame now later (err e, t) = Unit

  Sends-Own :
      (link : Link) (d : Driver F) (frame : CanFrame) (now later : ℕ) (t : Transport)
      (o : Result (Unit {0}) × Transport)
      → Sends link frame now t o
      → Own d frame now later o
  unfolding Own on_actuator_frame
  Sends-Own link d frame now later t (ok _, t') h = ground (arith, h.4)
  Sends-Own link d frame now later t (err e, t') h = tt

  -- If the send of a frame returns, and the frame comes back within 0.25 s, then the actuator's driver
  -- stays as it is.
  pub send_frame-Own :
      (link : Link) (t : Transport) (d : Driver F) (frame : CanFrame) (sent now later : ℕ)
      → IsMemory sent t.recent_tx_frames
      → sent ≤ now
      → now ≤ sent + tx_echo_reject_window
      → Own d frame now later (send_frame link frame sent t)
  send_frame-Own link t d frame sent now later h le win =
      Sends-Own link d frame now later t (send_frame link frame sent t)
        (send_frame-Sends link frame t sent now h le win)
