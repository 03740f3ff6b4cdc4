-- ===== src/Hal/Actuator/OnFrame.antt =====
-- `on_frame` of hal/hardware/can/actuator/driver.py on each outcome of decoding.
use sparq_control.Common.{
  ℕ, ◌+◌, true, false, ◌≡◌, refl, arith, Option, none, some, ltb, if◌then◌else◌,
}
use sparq_control.Common.Result.{Result, ok, err}
use sparq_control.Hal.Frame.{CanFrame}
use sparq_control.Hal.Freshness.{mark_rx, mark_decode_error}
use sparq_control.Hal.Transaction
use sparq_control.Hal.Actuator.{ActuatorState, Driver, merge, handle, on_frame}

module _ {F : Type 0} where
  -- What a frame does to the driver, by the outcome of decoding it.
  abbrev pub Handles :
      Result (Option (ActuatorState F)) → CanFrame → ℕ → Driver F → Driver F → Type 0
  Handles (err e) frame now d d' =
      (d'.state ≡ d.state)
      × (d'.transaction_manager ≡ d.transaction_manager)
      × (d'.comm_manager.status.decode_error_count ≡ d.comm_manager.status.decode_error_count + 1)
      × (d'.comm_manager.status.last_fault_t ≡ now)
      × (d'.comm_manager.status.rx_count ≡ d.comm_manager.status.rx_count)
      × (d'.comm_manager.status.last_rx_t ≡ d.comm_manager.status.last_rx_t)
      × (d'.comm_manager.status.is_stale ≡ d.comm_manager.status.is_stale)
  Handles (ok none) frame now d d' = d' ≡ d
  Handles (ok (some p)) frame now d d' =
      (d'.state ≡ merge d.state p)
      × (d'.transaction_manager ≡ Transaction.mark_rx d.transaction_manager frame.can_id)
      × (d'.comm_manager.status.rx_count ≡ d.comm_manager.status.rx_count + 1)
      × (d'.comm_manager.status.is_online ≡ true)
      × (d'.comm_manager.status.is_stale ≡ false)
      × (d'.comm_manager.status.last_rx_t
          ≡ (if ltb 0 p.last_feedback_t then p.last_feedback_t else now))
      × (d'.comm_manager.status.decode_error_count ≡ d.comm_manager.status.decode_error_count)

  handle_lem :
      (r : Result (Option (ActuatorState F))) (d : Driver F) (frame : CanFrame) (now : ℕ)
      → Handles r frame now d (handle r d frame now)
  unfolding handle mark_rx mark_decode_error
  handle_lem (err e) d frame now = (refl, refl, refl, refl, refl, refl, refl)
  handle_lem (ok none) d frame now = refl
  handle_lem (ok (some p)) d frame now = (refl, refl, refl, refl, refl, ground arith, refl)

  -- A frame that fails to decode is only counted as a decode error, one that the protocol does not
  -- handle changes nothing, and a decoded one is merged into the state, marks its CAN id in the
  -- pending transaction and makes the feedback fresh as of its feedback time.
  pub on_frame-Handles :
      (decode_frame : CanFrame → ℕ → Result (Option (ActuatorState F))) (d : Driver F)
      (frame : CanFrame) (now : ℕ)
      → Handles (decode_frame frame now) frame now d (on_frame decode_frame d frame now)
  unfolding on_frame
  on_frame-Handles decode_frame d frame now = handle_lem (decode_frame frame now) d frame now
