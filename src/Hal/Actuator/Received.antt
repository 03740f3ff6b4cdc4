-- ===== src/Hal/Actuator/Received.antt =====
-- hal/hardware/can/actuator/driver.py: the state after a series of received frames.
use sparq_control.Common.{ℕ, ◌+◌, ◌≡◌, refl, arith, Option, none, some, List, [], ◌∷◌, map, length}
use sparq_control.Common.Result.{Result, ok, err}
use sparq_control.Hal.Frame.{CanFrame}
use sparq_control.Hal.Freshness.{mark_rx, mark_decode_error}
use sparq_control.Hal.Actuator.{ActuatorState, Driver, handle, on_frame}
use sparq_control.Hal.Actuator.Latest.{last_some, merge_all, merge_all-last_some}

module _ {F : Type 0} (decode_frame : CanFrame → ℕ → Result (Option (ActuatorState F))) where
  -- The driver after these frames, each with the time of its reception.
  unfoldable pub receive_all : Driver F → List (CanFrame × ℕ) → Driver F
  unfolding on_frame
  receive_all d [] = d
  receive_all d ((frame, now) ∷ rest) = receive_all (on_frame decode_frame d frame now) rest

  abbrev decoded_first :
      Result (Option (ActuatorState F)) → List (ActuatorState F) → List (ActuatorState F)
  decoded_first (ok (some p)) rest = p ∷ rest
  decoded_first (ok none) rest = rest
  decoded_first (err e) rest = rest

  -- What the protocol decodes from the frames.
  unfoldable pub decoded : List (CanFrame × ℕ) → List (ActuatorState F)
  decoded [] = []
  decoded ((frame, now) ∷ rest) = decoded_first (decode_frame frame now) (decoded rest)

  abbrev failed_first : Result (Option (ActuatorState F)) → ℕ → ℕ
  failed_first (ok p) n = n
  failed_first (err e) n = n + 1

  -- How many of the frames raise.
  unfoldable pub failed : List (CanFrame × ℕ) → ℕ
  failed [] = 0
  failed ((frame, now) ∷ rest) = failed_first (decode_frame frame now) (failed rest)

  -- The state and the counters after the frames.
  Received : Driver F → List (ActuatorState F) → ℕ → Driver F → Type 0
  Received d partials failures d' =
      (d'.state ≡ merge_all d.state partials)
      × (d'.comm_manager.status.rx_count ≡ d.comm_manager.status.rx_count + length partials)
      × (d'.comm_manager.status.decode_error_count
          ≡ d.comm_manager.status.decode_error_count + failures)

  receive_all-Received :
      (d : Driver F) (fs : List (CanFrame × ℕ))
      → Received d (decoded fs) (failed fs) (receive_all d fs)
  unfolding receive_all decoded failed Received mark_rx mark_decode_error
  receive_all-Received d [] = (refl, omega arith, omega arith)
  receive_all-Received d ((frame, now) ∷ rest) =
      after (decode_frame frame now) (receive_all-Received (on_frame decode_frame d frame now) rest)
    where
      after :
          (r : Result (Option (ActuatorState F)))
          → Received
              (handle r d frame now)
              (decoded rest)
              (failed rest)
              (receive_all (handle r d frame now) rest)
          → Received d
              (decoded_first r (decoded rest))
              (failed_first r (failed rest))
              (receive_all (handle r d frame now) rest)
      after (ok (some p)) h = (h.0, omega (arith, h.1), h.2)
      after (ok none) h = h
      after (err e) h = (h.0, h.1, omega (arith, h.2))

  -- After any frames, each field of the state holds the last value that a decoded frame had for it, or
  -- its value before if none had one. Each decoded frame is counted once as received, and each frame
  -- whose decoding raises once as a decode error.
  pub receive_all-last_some :
      (d : Driver F) (fs : List (CanFrame × ℕ))
      → let d' = receive_all d fs in
        let ps = decoded fs in
        (d'.state.position_rad ≡ last_some (d.state.position_rad ∷ map (λ p. p.position_rad) ps))
        × (d'.state.velocity_rad_s
            ≡ last_some (d.state.velocity_rad_s ∷ map (λ p. p.velocity_rad_s) ps))
        × (d'.state.torque_nm ≡ last_some (d.state.torque_nm ∷ map (λ p. p.torque_nm) ps))
        × (d'.state.current_a ≡ last_some (d.state.current_a ∷ map (λ p. p.current_a) ps))
        × (d'.state.temperature_c
            ≡ last_some (d.state.temperature_c ∷ map (λ p. p.temperature_c) ps))
        × (d'.state.voltage_v ≡ last_some (d.state.voltage_v ∷ map (λ p. p.voltage_v) ps))
        × (d'.state.fault_code ≡ last_some (d.state.fault_code ∷ map (λ p. p.fault_code) ps))
        × (d'.state.is_enabled ≡ last_some (d.state.is_enabled ∷ map (λ p. p.is_enabled) ps))
        × (d'.state.mode ≡ last_some (d.state.mode ∷ map (λ p. p.mode) ps))
        × (d'.comm_manager.status.rx_count ≡ d.comm_manager.status.rx_count + length ps)
        × (d'.comm_manager.status.decode_error_count
            ≡ d.comm_manager.status.decode_error_count + failed fs)
  unfolding Received
  receive_all-last_some d fs =
      let (state, received, errors) = receive_all-Received d fs in
      let fields = merge_all-last_some d.state (decoded fs) in
      rw state (
        fields.0, fields.1, fields.2, fields.3, fields.4, fields.5, fields.6, fields.7, fields.8,
        received, errors,
      )
