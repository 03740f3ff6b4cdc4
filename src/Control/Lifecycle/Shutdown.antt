-- ===== src/Control/Lifecycle/Shutdown.antt =====
-- How `shutdown` of robot_controller/controller.py ends.
use mathlib.Core.Path.{refl, sym, subst, ◌∙◌}
use sparq_control.Common.{
  ◌≡◌, ◌≢◌, ◌⊎◌, inl, inr, Bool, true, false, List, ◌++◌, arith, if◌then◌else◌,
}
use sparq_control.Common.Floats.{Floats}
use sparq_control.Common.Result.{Result, ok, err, attribute_error}
use sparq_control.Hal.Frame.{CanFrame}
use sparq_control.Hal.Transport.{absent, opened, is_connected}
use sparq_control.Hardware.Spg.Encode.{encode_disable_frame}
use sparq_control.Control.Sends.{send_disable_all}
use sparq_control.Control.Lifecycle.{
  Phase, shutting_down, stopped, is_stopped, Controller, Outside, shutdown, phase, then_phase, stop,
  finish, disable_if_connected, publish_forced, close_runtime,
}
use sparq_control.Control.Tick.{make_snapshot, publish_state}
use sparq_control.Control.Tick.Publish.{Returns, make_snapshot-Returns, publish_state-Returns}
use sparq_control.Control.Tick.Reach.{frames, Standard, Sent, send_disable_all-Sent}
use sparq_control.Control.World.{Robot, Env, proceed, raise, read_clock, ◌>>=◌}

module _ (fl : Floats) where
  open fl use {F}

  -- What a shutdown has done, with these frames sent at its end.
  unfoldable pub ShutDown :
      Env → Outside → Controller F → List CanFrame → Result (Unit {0}) × Controller F → Type 0
  unfolding shutdown
  ShutDown env out before sent (ok _, c) =
      (c.controller_state ≡ stopped)
      × (shutdown fl env out c ≡ (ok tt, c))
      × (c.is_running ≡ false)
      × (c.robot.can.client ≡ absent)
      × (c.robot.sent ≡ sent)
      × (before.is_closed ≡ false)
      × (out.stop_all ≡ ok tt)
      × (out.unlink_all ≡ ok tt)
  ShutDown env out before sent (err e, c) =
      (c.controller_state ≡ shutting_down)
      × (c.is_running ≡ false)
      × (c.robot.sent ≡ sent)
      × ((out.stop_all ≢ ok tt) ⊎ ((before.is_closed ≡ true) ⊎ (out.unlink_all ≢ ok tt)))

  -- What publishing at a shutdown has done.
  Published : Controller F → Result (Unit {0}) × Robot F → Type 0
  Published c (ok _, r) = (c.is_closed ≡ false) × (r.sent ≡ c.robot.sent)
  Published c (err e, r) = (c.is_closed ≡ true) × (r.sent ≡ c.robot.sent)

  publish_forced-Published :
      (env : Env) (c : Controller F) → Published c (publish_forced fl env c c.robot)
  unfolding Published publish_forced Returns
  publish_forced-Published env c = by_flag c.is_closed refl
    where
      raised :
          {A : Type 0} (o : Result A × Robot F)
          → Returns c.robot o
          → c.is_closed ≡ true
          → Published c (proceed o (λ s. read_clock env >>= λ n. raise attribute_error))
      raised (ok a, r) h shut = (shut, h.0)
      raised (err e, r) h shut = absurd h

      proceeded :
          {A : Type 0} (o : Result A × Robot F)
          → Returns c.robot o
          → Returns c.robot (proceed o (λ _ r. (ok tt, r)))
      proceeded (ok a, r) h = h
      proceeded (err e, r) h = h

      by_outcome :
          (o : Result (Unit {0}) × Robot F)
          → Returns c.robot o
          → c.is_closed ≡ false
          → Published c o
      by_outcome (ok _, r) h writes = (writes, h.0)
      by_outcome (err e, r) h writes = absurd h

      by_flag :
          (b : Bool)
          → c.is_closed ≡ b
          → Published c (
              (if b
                  then (make_snapshot env >>= λ s. read_clock env >>= λ n. raise attribute_error)
                  else (publish_state fl env true >>= λ s. λ r. (ok tt, r)))
                c.robot)
      by_flag true shut =
          raised (make_snapshot env c.robot) (make_snapshot-Returns env c.robot) shut
      by_flag false writes =
          by_outcome _
            (proceeded (publish_state fl env true c.robot)
              (publish_state-Returns fl env true c.robot))
            writes

  -- How `finish` ends.
  Finished : Outside → Controller F → Result (Unit {0}) × Controller F → Type 0
  Finished out c (ok _, d) =
      (d.is_running ≡ c.is_running)
      × (d.robot.can.client ≡ absent)
      × (d.robot.sent ≡ c.robot.sent)
      × (c.is_closed ≡ false)
      × (out.stop_all ≡ ok tt)
      × (out.unlink_all ≡ ok tt)
  Finished out c (err e, d) =
      (d.controller_state ≡ c.controller_state)
      × (d.is_running ≡ c.is_running)
      × (d.robot.sent ≡ c.robot.sent)
      × ((out.stop_all ≢ ok tt) ⊎ ((c.is_closed ≡ true) ⊎ (out.unlink_all ≢ ok tt)))

  finish-Finished :
      (env : Env) (out : Outside) (c : Controller F) → Finished out c (finish fl env out c)
  unfolding finish close_runtime Finished Published
  finish-Finished env out c =
      from_stop out.stop_all refl (publish_forced fl env) (publish_forced-Published env c)
    where
      from_unlink :
          (r : Robot F) (x : Result (Unit {0}))
          → c.is_closed ≡ false
          → r.sent ≡ c.robot.sent
          → out.stop_all ≡ ok tt
          → out.unlink_all ≡ x
          → Finished out c (x, close_runtime (record c { robot = r }))
      from_unlink r (err e) h k stops unlinks = (refl, refl, k, ground (arith, unlinks))
      from_unlink r (ok _) h k stops unlinks = (refl, refl, k, h, stops, unlinks)

      from_publish :
          (o : Result (Unit {0}) × Robot F)
          → Published c o
          → out.stop_all ≡ ok tt
          → Finished out c
              (then_phase (o.0, record c { robot = o.1 }) λ c2. (out.unlink_all, close_runtime c2))
      from_publish (err e, r) h stops = (refl, refl, h.1, inr (inl h.0))
      from_publish (ok _, r) h stops = from_unlink r out.unlink_all h.0 h.1 stops refl

      from_stop :
          (x : Result (Unit {0}))
          → out.stop_all ≡ x
          → (m : Controller F → Robot F → Result (Unit {0}) × Robot F) → Published c (m c c.robot)
          → Finished out c (
              then_phase
                (x, c)
                λ c1.
                  then_phase
                    (phase c1.controller_state (m c1) c1)
                    λ c2. (out.unlink_all, close_runtime c2))
      from_stop (err e) stops m h = (refl, refl, refl, ground (arith, stops))
      from_stop (ok _) stops m h = from_publish (m c c.robot) h stops

  stopped_of : (p : Phase) → is_stopped p ≡ true → p ≡ stopped
  stopped_of p h = ground arith

  stop-ShutDown :
      (env : Env) (out : Outside) (before c : Controller F) (o : Result (Unit {0}) × Controller F)
      → c.controller_state ≡ shutting_down
      → c.is_running ≡ false
      → c.is_closed ≡ before.is_closed
      → Finished out c o
      → ShutDown env out before c.robot.sent (stop fl o)
  unfolding Finished ShutDown stop shutdown
  stop-ShutDown env out before c (ok _, d) state runs shut h =
      (refl, refl, h.0 ∙ runs, h.1, h.2, sym shut ∙ h.3, h.4, h.5)
  stop-ShutDown env out before c (err e, d) state runs shut h =
      (h.0 ∙ state, h.1 ∙ runs, h.2, rw shut at h.3)

  pub shutdown-of_disabled :
      (env : Env) (out : Outside) (c : Controller F)
      → c.controller_state ≢ stopped
      → ShutDown env out c (disable_if_connected fl env c.robot).sent (shutdown fl env out c)
  unfolding shutdown
  shutdown-of_disabled env out c n = by_state (is_stopped c.controller_state) refl
    where
      down : Controller F
      down = record c {
        controller_state = shutting_down;
        is_running = false;
        robot = disable_if_connected fl env c.robot;
      }

      by_state :
          (b : Bool)
          → is_stopped c.controller_state ≡ b
          → ShutDown env out c
              (disable_if_connected fl env c.robot).sent
              (if b then (ok tt, c) else stop fl (finish fl env out down))
      by_state true h = absurd (n (stopped_of c.controller_state h))
      by_state false h =
          stop-ShutDown env out c down (finish fl env out down) refl refl refl
            (finish-Finished env out down)

  disabled_frames :
      (env : Env) (r : Robot F)
      → ((f : CanFrame) → env.link.accepts f ≡ ok tt)
      → Standard encode_disable_frame r.actuators
      → r.can.client ≡ opened
      → (disable_if_connected fl env r).sent ≡ r.sent ++ frames encode_disable_frame r.actuators
  unfolding disable_if_connected Sent
  disabled_frames env r takes std up =
      by_flag (is_connected r.can) (rw up refl)
        (after (send_disable_all env r) (send_disable_all-Sent env takes r std up))
    where
      by_flag :
          (b : Bool)
          → b ≡ true
          → (send_disable_all env r).1.sent ≡ r.sent ++ frames encode_disable_frame r.actuators
          → (if b then (send_disable_all env r).1 else r).sent
            ≡ r.sent ++ frames encode_disable_frame r.actuators
      by_flag true e h = h
      by_flag false e h = ground (arith, e)

      after :
          (o : Result (Unit {0}) × Robot F)
          → Sent (frames encode_disable_frame r.actuators) r o
          → o.1.sent ≡ r.sent ++ frames encode_disable_frame r.actuators
      after (ok _, s) h = h
      after (err e, s) h = absurd h

  -- With an open connection that takes every frame and standard ids, a shutdown of a controller that is
  -- not STOPPED sends every actuator the disable frame, once and in order, and nothing else, whether it
  -- returns or raises. If it returns, the controller is STOPPED, does not run and has no CAN client, all
  -- its calls have returned, and a second shutdown changes nothing. It raises only if stopping the
  -- processes or unlinking has raised or the publishers were closed before, and then the controller
  -- does not run.
  pub shutdown-ShutDown :
      (env : Env) (out : Outside) (c : Controller F)
      → c.controller_state ≢ stopped
      → ((f : CanFrame) → env.link.accepts f ≡ ok tt)
      → Standard encode_disable_frame c.robot.actuators
      → c.robot.can.client ≡ opened
      → ShutDown env out c
          (c.robot.sent ++ frames encode_disable_frame c.robot.actuators)
          (shutdown fl env out c)
  shutdown-ShutDown env out c n takes std up =
      subst (λ sent. ShutDown env out c sent (shutdown fl env out c))
        (disabled_frames env c.robot takes std up) (shutdown-of_disabled env out c n)
