-- ===== src/Control/Tick/Safety.antt =====
-- The safety of a tick of robot_controller/controller.py: which drive commands leave in it.
use mathlib.Core.Path.{refl, sym, ◌∙◌}
use sparq_control.Common.{
  ℕ, ◌+◌, ◌≡◌, ◌⊎◌, inl, inr, ◌&&◌, Bool, true, false, some, List, arith, if◌then◌else◌,
}
use sparq_control.Common.Result.{Result, ok, err, Exn}
use sparq_control.Hal.Frame.{CanFrame}
use sparq_control.Shm.OperatorCommand.{OperatorCommand}
use sparq_control.Shm.ControlCommand.{ControlCommand}
use sparq_control.Control.StateMachine.{Mode, Machine, update}
use sparq_control.Control.Consume.{Latch, consume_operator_command}
use sparq_control.Control.World.{Robot, Env, ◌>>=◌, return, send, proceed}
use sparq_control.Control.Tick.{request_imu_on_tick, consume, update_machine, output, act}
use sparq_control.Control.Tick.Kept.{
  SentBy, SentBy-trans, SentBy-weaken, Kept, Kept-refl, Kept-send, Kept-SentBy, Kept-machine,
  Kept-latch,
}
use sparq_control.Control.Tick.Output.{HasCommand, mode_command, output-Kept}

-- A frame of a tick in this mode: the request to the IMU, or the mode's drive command.
unfoldable pub IsOutput : Env → Mode → CanFrame → Type 0
IsOutput env mode f = (f ≡ env.imu_request) ⊎ HasCommand (mode_command mode) f

-- The machine after a tick, with the clock as it was read at its start.
abbrev pub next_machine : {F : Type 0} → Env → OperatorCommand → Robot F → Machine
next_machine env op r =
    update r.machine (some (consume_operator_command r.latch op).1) (env.clock r.readings)

-- Both parts of a tick's frames.
sent_in_mode :
    (env : Env) (mode : Mode) (xs ys zs : List CanFrame)
    → SentBy (λ f. f ≡ env.imu_request) xs ys
    → SentBy (HasCommand (mode_command mode)) ys zs
    → SentBy (IsOutput env mode) xs zs
unfolding IsOutput
sent_in_mode env mode xs ys zs h k =
    SentBy-trans (IsOutput env mode) xs ys zs
      (SentBy-weaken _ (IsOutput env mode) xs ys (λ f p. inl p) h)
      (SentBy-weaken _ (IsOutput env mode) ys zs (λ f p. inr p) k)

same_mode :
    (env : Env) (m n : Mode) (xs ys : List CanFrame)
    → m ≡ n
    → SentBy (IsOutput env n) xs ys
    → SentBy (IsOutput env m) xs ys
same_mode env m n xs ys e h = rw e h

sent_from :
    (P : CanFrame → Type 0) (xs ys zs : List CanFrame) → ys ≡ xs → SentBy P ys zs → SentBy P xs zs
sent_from P xs ys zs e h = rw (sym e) h

same_update :
    (a b : Machine) (k l : Latch) (op : OperatorCommand) (now : ℕ)
    → a ≡ b
    → k ≡ l
    → update a (some (consume_operator_command k op).1) now
      ≡ update b (some (consume_operator_command l op).1) now
same_update a b k l op now e h = rw e (rw h refl)

module _ {F : Type 0} (env : Env) where
  -- After a tick that began in the first state and ended with this result in the second.
  pub Ticked : OperatorCommand → Robot F → Result (Unit {0}) × Robot F → Type 0
  Ticked op r (ok _, s) =
      (s.machine ≡ next_machine env op r) × SentBy (IsOutput env s.machine.mode) r.sent s.sent
  Ticked op r (err e, s) = SentBy (IsOutput env s.machine.mode) r.sent s.sent

  request_if :
      (b : Bool) (r : Robot F)
      → Kept (λ f. f ≡ env.imu_request) r ((if b then send env env.imu_request else return tt) r).1
  request_if true r = Kept-send (λ f. f ≡ env.imu_request) env env.imu_request refl r
  request_if false r = Kept-refl (λ f. f ≡ env.imu_request) r

  request-Kept : (r : Robot F) → Kept (λ f. f ≡ env.imu_request) r (request_imu_on_tick env r).1
  unfolding request_imu_on_tick
  request-Kept r = request_if (env.imu_enabled && env.request_all_each_tick) r

  output-Ticked :
      (op : OperatorCommand) (r s : Robot F) (mode : Mode) (o : Result (Unit {0}) × Robot F)
      → SentBy (λ f. f ≡ env.imu_request) r.sent s.sent
      → s.machine ≡ next_machine env op r
      → s.machine.mode ≡ mode
      → Kept (HasCommand (mode_command mode)) s o.1
      → Ticked op r o
  unfolding Ticked
  output-Ticked op r s mode (ok _, t) h m e k =
      let same = Kept-machine _ s t k in
      let sent = sent_in_mode env mode r.sent s.sent t.sent h (Kept-SentBy _ s t k) in
      (
        ground (arith, same, m),
        same_mode env t.machine.mode mode r.sent t.sent (ground (arith, same, e)) sent,
      )
  output-Ticked op r s mode (err x, t) h m e k =
      let same = Kept-machine _ s t k in
      let sent = sent_in_mode env mode r.sent s.sent t.sent h (Kept-SentBy _ s t k) in
      same_mode env t.machine.mode mode r.sent t.sent (ground (arith, same, e)) sent

  err-Ticked :
      (op : OperatorCommand) (r t : Robot F) (x : Exn)
      → SentBy (λ f. f ≡ env.imu_request) r.sent t.sent
      → Ticked op r (err x, t)
  unfolding Ticked IsOutput
  err-Ticked op r t x h =
      SentBy-weaken _ (IsOutput env t.machine.mode) r.sent t.sent (λ f p. inl p) h

  -- The robot when the state machine has been updated.
  abbrev updated : OperatorCommand → ℕ → Robot F → Robot F
  updated op now s =
      let (latch, op') = consume_operator_command s.latch op in
      record s { latch = latch; machine = update s.machine (some op') now }

  after_request :
      (op : OperatorCommand) (cmd : ControlCommand) (r s : Robot F)
      (o : Result (Unit {0}) × Robot F)
      → Kept (λ f. f ≡ env.imu_request) s o.1
      → s.machine ≡ r.machine
      → s.latch ≡ r.latch
      → s.sent ≡ r.sent
      → Ticked op r (
          proceed o (λ _.
            consume op >>= λ op'. update_machine op' (env.clock r.readings) >>= output env op' cmd))
  unfolding consume update_machine
  after_request op cmd r s (ok _, t) k m l e =
      let u = updated op (env.clock r.readings) t in
      let op' = (consume_operator_command t.latch op).1 in
      output-Ticked op r u u.machine.mode (output env op' cmd u.machine.mode u)
        (sent_from _ r.sent s.sent t.sent e (Kept-SentBy _ s t k))
        (same_update t.machine r.machine t.latch r.latch op (env.clock r.readings)
          (Kept-machine _ s t k ∙ m) (Kept-latch _ s t k ∙ l))
        refl (output-Kept env op' cmd u.machine.mode u)
  after_request op cmd r s (err x, t) k m l e =
      err-Ticked op r t x (sent_from _ r.sent s.sent t.sent e (Kept-SentBy _ s t k))

  -- All frames of a tick, whether or not it raises, are requests to the IMU or carry the one drive
  -- command of the mode that the tick ends in: 0xC2 in DISABLED and ESTOP, 0xC1 in ENABLING, 0xC3 in
  -- ZERO_SETTING, 0xC0 in DAMPING and NORMAL. If it does not raise, the machine is updated once, by
  -- the consumed command and the clock's reading at the start.
  pub act-Ticked :
      (op : OperatorCommand) (cmd : ControlCommand) (r : Robot F) → Ticked op r (act env op cmd r)
  unfolding act
  act-Ticked op cmd r =
      let s = record r { readings = r.readings + 1 } in
      after_request op cmd r s (request_imu_on_tick env s) (request-Kept s) refl refl refl
