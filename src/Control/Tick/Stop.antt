-- ===== src/Control/Tick/Stop.antt =====
-- A tick of robot_controller/controller.py that ends in DISABLED or ESTOP disables every actuator.
use mathlib.Core.Path.{refl, sym, ap, ◌∙◌}
use sparq_control.Common.{
  ℕ, ◌+◌, ◌≤◌, ◌≡◌, ◌&&◌, Bool, true, false, some, List, [], ◌∷◌, ◌++◌, arith, if◌then◌else◌,
}
use sparq_control.Common.Result.{Result, ok, err}
use sparq_control.Hal.Frame.{CanFrame, can_sff_mask}
use sparq_control.Hal.Transport.{opened, send_frame, connect, client_send, remember_tx_frame}
use sparq_control.Hardware.Spg.Encode.{encode_disable_frame}
use sparq_control.Shm.OperatorCommand.{OperatorCommand}
use sparq_control.Shm.ControlCommand.{ControlCommand}
use sparq_control.Control.StateMachine.{
  Mode, disabled, enabling, normal, damping, zero_setting, estop, update,
}
use sparq_control.Control.Consume.{consume_operator_command}
use sparq_control.Control.Sends.{send_disable_all}
use sparq_control.Control.World.{Actuator, Robot, Env, ◌>>=◌, return, send, after_send, proceed}
use sparq_control.Control.Tick.{request_imu_on_tick, consume, update_machine, output, act}
use sparq_control.Control.Tick.Safety.{next_machine}
use sparq_control.Control.Tick.Reach.{frames, Standard, Sent, send_disable_all-Sent}

-- The modes that disable the actuators.
abbrev pub Stops : Mode → Type 0
Stops disabled = Unit
Stops estop = Unit
Stops enabling = ⊥
Stops normal = ⊥
Stops damping = ⊥
Stops zero_setting = ⊥

-- The request to the IMU that a tick sends first, if it is configured.
abbrev pub requests : Env → List CanFrame
requests env = if env.imu_enabled && env.request_all_each_tick then env.imu_request ∷ [] else []

append_sent : (xs fs gs : List CanFrame) → (xs ++ fs) ++ gs ≡ xs ++ (fs ++ gs)
append_sent [] fs gs = refl
append_sent (x ∷ xs) fs gs = ap (λ ys. x ∷ ys) (append_sent xs fs gs)

append_nothing : (xs : List CanFrame) → xs ≡ xs ++ []
append_nothing [] = refl
append_nothing (x ∷ xs) = ap (λ ys. x ∷ ys) (append_nothing xs)

module _ {F : Type 0} (env : Env) (takes : (f : CanFrame) → env.link.accepts f ≡ ok tt) where
  -- Frames were sent, and nothing else of the robot that matters has changed.
  Requested : List CanFrame → Robot F → Result (Unit {0}) × Robot F → Type 0
  Requested fs r (ok _, s) =
      (s.sent ≡ r.sent ++ fs)
      × (s.can.client ≡ opened)
      × (s.machine ≡ r.machine)
      × (s.latch ≡ r.latch)
      × (s.actuators ≡ r.actuators)
  Requested fs r (err e, s) = ⊥

  send-Requested :
      (f : CanFrame) (r : Robot F)
      → f.can_id ≤ can_sff_mask
      → r.can.client ≡ opened
      → Requested (f ∷ []) r (send env f r)
  unfolding Requested send after_send send_frame connect client_send remember_tx_frame
  send-Requested f r le c = ground (arith, takes f)

  request_if :
      (b : Bool) (r : Robot F)
      → env.imu_request.can_id ≤ can_sff_mask
      → r.can.client ≡ opened
      → Requested
          (if b then env.imu_request ∷ [] else [])
          r
          ((if b then send env env.imu_request else return tt) r)
  unfolding Requested
  request_if true r le c = send-Requested env.imu_request r le c
  request_if false r le c = (append_nothing r.sent, c, refl, refl, refl)

  stop_output :
      (op : OperatorCommand) (cmd : ControlCommand) (mode : Mode) (u : Robot F)
      → Stops mode
      → output env op cmd mode u ≡ send_disable_all env u
  unfolding output
  stop_output op cmd disabled u h = refl
  stop_output op cmd estop u h = refl
  stop_output op cmd enabling u h = absurd h
  stop_output op cmd normal u h = absurd h
  stop_output op cmd damping u h = absurd h
  stop_output op cmd zero_setting u h = absurd h

  joined :
      (fs gs : List CanFrame) (r s : Robot F) (o : Result (Unit {0}) × Robot F)
      → s.sent ≡ r.sent ++ fs
      → Sent gs s o
      → Sent (fs ++ gs) r o
  unfolding Sent
  joined fs gs r s (ok _, t) e h = h ∙ ap (λ xs. xs ++ gs) e ∙ append_sent r.sent fs gs
  joined fs gs r s (err x, t) e h = h

  disable_each :
      (actuators : List (ℕ × Actuator F)) (u : Robot F)
      → u.actuators ≡ actuators
      → Standard encode_disable_frame actuators
      → u.can.client ≡ opened
      → Sent (frames encode_disable_frame actuators) u (send_disable_all env u)
  disable_each actuators u e std c = rw (sym e) (send_disable_all-Sent env takes u (rw e std) c)

  stopped :
      (fs : List CanFrame) (op : OperatorCommand) (cmd : ControlCommand) (r s : Robot F)
      (o : Result (Unit {0}) × Robot F)
      → Requested fs s o
      → s.sent ≡ r.sent
      → s.machine ≡ r.machine
      → s.latch ≡ r.latch
      → s.actuators ≡ r.actuators
      → Standard encode_disable_frame r.actuators
      → Stops (next_machine env op r).mode
      → Sent (fs ++ frames encode_disable_frame r.actuators) r (
          proceed o (λ _.
            consume op >>= λ op'. update_machine op' (env.clock r.readings) >>= output env op' cmd))
  unfolding Requested consume update_machine
  stopped fs op cmd r s (err x, t) q e m l a std stops = absurd q
  stopped fs op cmd r s (ok _, t) (is_sent, c, m', l', a') e m l a std stops =
      let op' = (consume_operator_command t.latch op).1 in
      let machine = update t.machine (some op') (env.clock r.readings) in
      let u = record t { latch = (consume_operator_command t.latch op).0; machine = machine } in
      let same : machine ≡ next_machine env op r = rw (m' ∙ m) (rw (l' ∙ l) refl) in
      let acts : t.actuators ≡ r.actuators = a' ∙ a in
      rw (stop_output op' cmd machine.mode u (rw same stops)) (
        joined fs (frames encode_disable_frame r.actuators) r u (send_disable_all env u)
          (rw (sym e) is_sent) (disable_each r.actuators u acts std c))

  -- While the client has an open connection and takes every frame, and all ids are standard, a tick that takes
  -- the machine to DISABLED or ESTOP, or leaves it there, does not raise, and sends each actuator the
  -- disable frame, once and in order, after the configured request to the IMU.
  pub act_stops-Sent :
      (op : OperatorCommand) (cmd : ControlCommand) (r : Robot F)
      → Standard encode_disable_frame r.actuators
      → env.imu_request.can_id ≤ can_sff_mask
      → r.can.client ≡ opened
      → Stops (next_machine env op r).mode
      → Sent (requests env ++ frames encode_disable_frame r.actuators) r (act env op cmd r)
  unfolding act request_imu_on_tick
  act_stops-Sent op cmd r std le c stops =
      let s = record r { readings = r.readings + 1 } in
      stopped (requests env) op cmd r s (request_imu_on_tick env s)
        (request_if (env.imu_enabled && env.request_all_each_tick) s le c) refl refl refl refl std
        stops
