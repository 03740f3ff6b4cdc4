-- ===== src/Control/Tick/Reach.antt =====
-- With a client that takes every frame, the output methods of robot_controller/controller.py reach
-- every actuator.
use mathlib.Core.Path.{refl, sym}
use sparq_control.Common.{ℕ, ◌≡◌, ◌≤◌, List, [], ◌∷◌, ◌++◌, arith}
use sparq_control.Common.Result.{Result, ok, err}
use sparq_control.Hal.Frame.{CanFrame, can_sff_mask}
use sparq_control.Hal.Transport.{opened, send_frame, connect, client_send, remember_tx_frame}
use sparq_control.Hardware.Spg.Encode.{encode_disable_frame}
use sparq_control.Telemetry.Snapshot.{Source}
use sparq_control.Control.Sends.{record_output_command, send_to_each, send_disable_all}
use sparq_control.Control.World.{Actuator, Robot, Env, Action, send, after_send, proceed}

append_one :
    (xs : List CanFrame) (x : CanFrame) (ys : List CanFrame)
    → xs ++ (x ∷ ys) ≡ (xs ++ (x ∷ [])) ++ ys
append_one [] x ys = refl
append_one (y ∷ xs) x ys = ground (arith, append_one xs x ys)

append_nil : (xs : List CanFrame) → xs ≡ xs ++ []
append_nil [] = refl
append_nil (x ∷ xs) = ground (arith, append_nil xs)

module _ {F : Type 0} where
  -- The frames for the actuators, in their order.
  abbrev pub frames : (ℕ → CanFrame) → List (ℕ × Actuator F) → List CanFrame
  frames frame [] = []
  frames frame ((k, a) ∷ d) = frame a.command_id ∷ frames frame d

  -- The frames have standard CAN IDs.
  abbrev pub Standard : (ℕ → CanFrame) → List (ℕ × Actuator F) → Type 0
  Standard frame [] = Unit
  Standard frame ((k, a) ∷ d) = ((frame a.command_id).can_id ≤ can_sff_mask) × Standard frame d

  -- A finished action that has sent the frames.
  unfoldable pub Sent : List CanFrame → Robot F → Result (Unit {0}) × Robot F → Type 0
  Sent fs r (ok _, s) = s.sent ≡ r.sent ++ fs
  Sent fs r (err e, s) = ⊥

  nothing_sent : (r : Robot F) → Sent [] r (ok tt, r)
  unfolding Sent
  nothing_sent r = append_nil r.sent

  moved :
      (f : CanFrame) (fs : List CanFrame) (r s : Robot F) (o : Result (Unit {0}) × Robot F)
      → s.sent ≡ r.sent ++ f ∷ []
      → Sent fs s o
      → Sent (f ∷ fs) r o
  unfolding Sent
  moved f fs r s (ok _, t) e h = cc (e, h, append_one r.sent f fs)
  moved f fs r s (err x, t) e h = h

  from_recorded :
      (fs : List CanFrame) (r s : Robot F) (o : Result (Unit {0}) × Robot F)
      → s.sent ≡ r.sent
      → Sent fs s o
      → Sent fs r o
  unfolding Sent
  from_recorded fs r s (ok _, t) e h = rw (sym e) h
  from_recorded fs r s (err x, t) e h = h

  module _ (env : Env) (takes : (f : CanFrame) → env.link.accepts f ≡ ok tt) where
    Accepted : CanFrame → Robot F → Result (Unit {0}) × Robot F → Type 0
    Accepted f r (ok _, s) = (s.sent ≡ r.sent ++ f ∷ []) × (s.can.client ≡ opened)
    Accepted f r (err e, s) = ⊥

    send-Accepted :
        (f : CanFrame) (r : Robot F)
        → f.can_id ≤ can_sff_mask
        → r.can.client ≡ opened
        → Accepted f r (send env f r)
    unfolding Accepted send after_send send_frame connect client_send remember_tx_frame
    send-Accepted f r le c = ground (arith, takes f)

    rest-Sent :
        (f : CanFrame) (fs : List CanFrame) (r : Robot F) (o : Result (Unit {0}) × Robot F)
        (k : Action F (Unit {0}))
        → Accepted f r o
        → ((s : Robot F) → s.can.client ≡ opened → Sent fs s (k s))
        → Sent (f ∷ fs) r (proceed o (λ _. k))
    unfolding Accepted
    rest-Sent f fs r (ok _, s) k (is_sent, c) h = moved f fs r s (k s) is_sent (h s c)
    rest-Sent f fs r (err e, s) k a h = absurd a

    each-Sent :
        (frame : ℕ → CanFrame) (d : List (ℕ × Actuator F)) (r : Robot F)
        → Standard frame d
        → r.can.client ≡ opened
        → Sent (frames frame d) r (send_to_each env frame d r)
    unfolding send_to_each
    each-Sent frame [] r h c = nothing_sent r
    each-Sent frame ((k, a) ∷ d) r h c =
        let f = frame a.command_id in
        rest-Sent f (frames frame d) r (send env f r) (send_to_each env frame d)
          (send-Accepted f r h.0 c) (λ s c'. each-Sent frame d s h.1 c')

    -- While the client has an open connection and takes every frame, and the actuators' ids are standard,
    -- `_send_disable_all` does not raise, and sends each actuator the disable frame, once and in order.
    pub send_disable_all-Sent :
        (r : Robot F)
        → Standard encode_disable_frame r.actuators
        → r.can.client ≡ opened
        → Sent (frames encode_disable_frame r.actuators) r (send_disable_all env r)
    unfolding send_disable_all record_output_command
    send_disable_all-Sent r h c =
        let s = (record_output_command env Source.disable [] r).1 in
        from_recorded (frames encode_disable_frame r.actuators) r s
          (send_to_each env encode_disable_frame r.actuators s) refl
          (each-Sent encode_disable_frame r.actuators s h c)
