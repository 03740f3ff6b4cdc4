-- ===== src/Control/Lifecycle/Started.antt =====
-- How `start` of robot_controller/controller.py ends.
use mathlib.Core.Path.{refl, ap, ◌∙◌}
use sparq_control.Common.{◌≡◌, ◌≢◌, ◌⊎◌, inl, inr, true, false, List, ◌++◌, arith}
use sparq_control.Common.Floats.{Floats}
use sparq_control.Common.Result.{Result, Exn, ok, err}
use sparq_control.Hal.Frame.{CanFrame}
use sparq_control.Hal.Transport.{is_connected, connect}
use sparq_control.Control.Lifecycle.{
  Phase, start_can_daemon, bringup_imu, start_child_processes, running, shutting_down, stopped,
  error, Controller, Outside, shutdown, start, phase, then_phase, open_segments, connect_can,
  bringup, start_phases, recover, disable_if_connected, publish_forced,
}
use sparq_control.Control.Tick.Publish.{Returns}
use sparq_control.Control.World.{Robot, Env, lift, ◌>>◌}
use sparq_control.Control.Lifecycle.Calls.{startup_requests, Did, bringup-Did, published}
use sparq_control.Control.Lifecycle.Shutdown.{ShutDown, shutdown-of_disabled}

module _ (fl : Floats) where
  open fl use {F}

  -- What a start has done: every call has returned and the controller runs; or it does not run, and is
  -- STOPPED unless its shutdown has raised.
  pub Started : Env → Outside → Controller F → Result (Unit {0}) × Controller F → Type 0
  Started env out before (ok _, c) =
      (c.controller_state ≡ running)
      × (c.is_running ≡ true)
      × (c.is_closed ≡ false)
      × (is_connected c.robot.can ≡ true)
      × (c.robot.sent ≡ before.robot.sent ++ startup_requests env out)
      × (out.segments ≡ ok tt)
      × (out.start_daemon ≡ ok tt)
      × (out.register_callbacks ≡ ok tt)
      × (out.start_all ≡ ok tt)
  Started env out before (err e, c) =
      (c.is_running ≡ false)
      × ((c.controller_state ≡ stopped)
          ⊎ ((c.controller_state ≡ shutting_down)
              × ((out.stop_all ≢ ok tt)
                  ⊎ ((out.unlink_all ≢ ok tt)
                      ⊎ ((before.is_closed ≡ true) × (out.segments ≢ ok tt))))))

  -- The body of `start`: if it raises, the publishers are open, or are as before.
  Ran : Env → Outside → Controller F → Result (Unit {0}) × Controller F → Type 0
  Ran env out before (ok u, c) = Started env out before (ok u, c)
  Ran env out before (err e, c) =
      (c.is_closed ≡ false) ⊎ ((c.is_closed ≡ before.is_closed) × (out.segments ≢ ok tt))

  module _ (env : Env) (out : Outside) (before : Controller F) where
    -- A phase leaves this, or has raised with open publishers.
    Stage : (Controller F → Type 0) → Result (Unit {0}) × Controller F → Type 0
    Stage P (ok _, d) = P d
    Stage P (err e, d) = Ran env out before (err e, d)

    chain :
        (P : Controller F → Type 0) (o : Result (Unit {0}) × Controller F)
        (next : Controller F → Result (Unit {0}) × Controller F)
        → Stage P o
        → ((d : Controller F) → P d → Ran env out before (next d))
        → Ran env out before (then_phase o next)
    unfolding Stage
    chain P (ok _, d) next h k = k d h
    chain P (err e, d) next h k = h

    -- The phase of a controller with open publishers.
    phase-Stage :
        (P : Controller F → Type 0) (Q : Result (Unit {0}) × Robot F → Type 0) (p : Phase)
        (d : Controller F) (o : Result (Unit {0}) × Robot F)
        → d.is_closed ≡ false
        → Q o
        → ((r : Robot F) → Q (ok tt, r) → P (record d { controller_state = p; robot = r }))
        → Stage P (o.0, record d { controller_state = p; robot = o.1 })
    unfolding Stage Ran
    phase-Stage P Q p d (ok _, r) is_open h k = k r h
    phase-Stage P Q p d (err e, r) is_open h k = inl is_open

    Opened : Controller F → Type 0
    Opened d = (d.is_closed ≡ false) × (d.robot.sent ≡ before.robot.sent) × (out.segments ≡ ok tt)

    segments-Stage : Stage Opened (open_segments out before)
    unfolding Stage Opened Ran open_segments
    segments-Stage = ground arith

    Linked : Controller F → Type 0
    Linked d =
        (d.is_closed ≡ false)
        × (d.robot.sent ≡ before.robot.sent)
        × (out.segments ≡ ok tt)
        × (is_connected d.robot.can ≡ true)
        × (out.start_daemon ≡ ok tt)
        × (out.register_callbacks ≡ ok tt)

    -- The calls of the second phase.
    Linking : Robot F → Result (Unit {0}) × Robot F → Type 0
    Linking r (ok _, s) =
        (s.sent ≡ r.sent)
        × (is_connected s.can ≡ true)
        × (out.start_daemon ≡ ok tt)
        × (out.register_callbacks ≡ ok tt)
    Linking r (err e, s) = Unit

    links :
        (r : Robot F)
        → Linking r ((lift out.start_daemon >> (connect_can env >> lift out.register_callbacks)) r)
    unfolding Linking connect_can connect
    links r = ground arith

    Asked : Controller F → Type 0
    Asked d =
        (d.is_closed ≡ false)
        × (d.robot.sent ≡ before.robot.sent ++ startup_requests env out)
        × (out.segments ≡ ok tt)
        × (is_connected d.robot.can ≡ true)
        × (out.start_daemon ≡ ok tt)
        × (out.register_callbacks ≡ ok tt)

    last-Ran :
        (d : Controller F)
        → Asked d
        → d.is_running ≡ true
        → out.start_all ≡ ok tt
        → Ran env out before (phase running (publish_forced fl env d) d)
    unfolding Asked Ran Started Returns
    last-Ran d h runs all_started =
        by_outcome (publish_forced fl env d d.robot) (published fl env d h.0)
      where
        by_outcome :
            (o : Result (Unit {0}) × Robot F)
            → Returns d.robot o
            → Ran env out before (o.0, record d { controller_state = running; robot = o.1 })
        by_outcome (ok _, r) same = (
          refl,
          runs,
          h.0,
          ap is_connected same.1 ∙ h.3,
          same.0 ∙ h.1,
          h.2,
          h.4,
          h.5,
          all_started,
        )
        by_outcome (err e, r) same = absurd same

    -- The outcome of `start_all`, which touches nothing else.
    Launched : Robot F → Result (Unit {0}) × Robot F → Type 0
    Launched r (ok _, s) = (s ≡ r) × (out.start_all ≡ ok tt)
    Launched r (err e, s) = Unit

    launches : (r : Robot F) → Launched r (lift out.start_all r)
    unfolding Launched
    launches r = ground arith

    start_phases-Ran : Ran env out before (start_phases fl env out before)
    unfolding start_phases Opened Linked Asked Linking Launched
    start_phases-Ran =
        let k5 = λ (c4 : Controller F).
          phase running (publish_forced fl env (record c4 { is_running = true }))
            (record c4 { is_running = true }) in
        let k4 = λ (c3 : Controller F).
          then_phase (phase start_child_processes (lift out.start_all) c3) k5 in
        let k3 = λ (c2 : Controller F). then_phase (phase bringup_imu (bringup env out) c2) k4 in
        let links_up = lift out.start_daemon >> (connect_can env >> lift out.register_callbacks) in
        let k2 = λ (c1 : Controller F). then_phase (phase start_can_daemon links_up c1) k3 in
        chain Opened (open_segments out before) k2 segments-Stage λ c1 h1.
          chain Linked (phase start_can_daemon links_up c1) k3
            (phase-Stage Linked (Linking c1.robot) start_can_daemon c1 (links_up c1.robot) h1.0
              (links c1.robot) (λ r q. (h1.0, q.0 ∙ h1.1, h1.2, q.1, q.2, q.3)))
            λ c2 h2.
              chain Asked (phase bringup_imu (bringup env out) c2) k4
                (phase-Stage Asked (Did (startup_requests env out) c2.robot) bringup_imu c2
                  (bringup env out c2.robot) h2.0 (bringup-Did env out c2.robot h2.3)
                  (λ r q. (
                    h2.0,
                    q.0 ∙ ap (λ l. l ++ startup_requests env out) h2.1,
                    h2.2,
                    q.1,
                    h2.4,
                    h2.5,
                  )))
                λ c3 h3.
                  chain (λ d. Asked d × (out.start_all ≡ ok tt))
                    (phase start_child_processes (lift out.start_all) c3) k5
                    (phase-Stage (λ d. Asked d × (out.start_all ≡ ok tt)) (Launched c3.robot)
                      start_child_processes c3 (lift out.start_all c3.robot) h3.0
                      (launches c3.robot)
                      (λ r q. (
                        (
                          h3.0,
                          ap (λ s. s.sent) q.0 ∙ h3.1,
                          h3.2,
                          ap (λ s. is_connected s.can) q.0 ∙ h3.3,
                          h3.4,
                          h3.5,
                        ),
                        q.1,
                      )))
                    λ c4 h4. last-Ran (record c4 { is_running = true }) h4.0 refl h4.1

  -- The exception of the body is raised again, or that of its shutdown.
  raised_again :
      (env : Env) (out : Outside) (before c : Controller F) (e : Exn) (sent : List CanFrame)
      (o : Result (Unit {0}) × Controller F)
      → (c.is_closed ≡ false) ⊎ ((c.is_closed ≡ before.is_closed) × (out.segments ≢ ok tt))
      → ShutDown fl env out (record c { controller_state = error }) sent o
      → Started env out before (elim o.0 [ ok _ ↦ (err e, o.1) | err e' ↦ (err e', o.1) ])
  unfolding ShutDown Started
  raised_again env out before c e sent (ok _, d) ran h = (h.2, inl h.0)
  raised_again env out before c e sent (err e', d) ran h =
      (h.1, inr (h.0, ground (arith, h.3, ran)))

  recover-Started :
      (env : Env) (out : Outside) (before : Controller F) (o : Result (Unit {0}) × Controller F)
      → Ran env out before o
      → Started env out before (recover fl env out o)
  unfolding Ran recover
  recover-Started env out before (ok _, c) h = h
  recover-Started env out before (err e, c) h =
      let failed : Controller F = record c { controller_state = error } in
      raised_again env out before c e (disable_if_connected fl env c.robot).sent
        (shutdown fl env out failed) h (shutdown-of_disabled fl env out failed (ground arith))

  -- A `start` that returns has made every call: the segments are open, the daemon and the processes
  -- started, the CAN client made and the callbacks registered, and the configured requests to the IMU,
  -- and no other frames, were sent; the controller is RUNNING. A `start` that raises leaves a controller
  -- that does not run and is STOPPED, unless stopping the processes or unlinking has raised, or no
  -- segments were opened and the publishers were closed before.
  pub start-Started :
      (env : Env) (out : Outside) (c : Controller F) → Started env out c (start fl env out c)
  unfolding start
  start-Started env out c =
      recover-Started env out c (start_phases fl env out c) (start_phases-Ran env out c)
