-- ===== src/Control/Lifecycle/Calls.antt =====
-- What the calls of `start` and `shutdown` of robot_controller/controller.py send.
use mathlib.Core.Path.{refl, ap, ◌∙◌}
use sparq_control.Common.{
  ℕ, zero, suc, ◌≡◌, inl, inr, true, false, ◌&&◌, List, [], ◌∷◌, ◌++◌, replicate, arith, Bool-cases,
  if◌then◌else◌,
}
use sparq_control.Common.Floats.{Floats}
use sparq_control.Common.Result.{Result, ok, err}
use sparq_control.Hal.Frame.{CanFrame}
use sparq_control.Hal.Transport.{is_connected, connect, send_frame, client_send, remember_tx_frame}
use sparq_control.Control.Lifecycle.{
  Controller, Outside, connect_can, bringup, request_imu, publish_forced,
}
use sparq_control.Control.Tick.{publish_state}
use sparq_control.Control.Tick.Publish.{Returns, publish_state-Returns}
use sparq_control.Control.World.{Robot, Env, proceed, send, after_send}

append_assoc : (xs ys zs : List CanFrame) → (xs ++ ys) ++ zs ≡ xs ++ (ys ++ zs)
append_assoc [] ys zs = refl
append_assoc (x ∷ xs) ys zs = ap (λ l. x ∷ l) (append_assoc xs ys zs)

append_none : (xs : List CanFrame) → xs ≡ xs ++ []
append_none [] = refl
append_none (x ∷ xs) = ap (λ l. x ∷ l) (append_none xs)

-- The requests to the IMU of a start.
abbrev pub startup_requests : Env → Outside → List CanFrame
startup_requests env out =
    if env.imu_enabled && out.request_all_on_start
    then replicate out.startup_request_count env.imu_request
    else []

module _ {F : Type 0} where
  -- An action that returns has sent these frames, with a client that was made.
  abbrev pub Did : List CanFrame → Robot F → Result (Unit {0}) × Robot F → Type 0
  Did fs r (ok _, s) = (s.sent ≡ r.sent ++ fs) × (is_connected s.can ≡ true)
  Did fs r (err e, s) = Unit

  pub connect_can-Did : (env : Env) (r : Robot F) → Did [] r (connect_can env r)
  unfolding connect_can connect
  connect_can-Did env r = ground (arith, append_none r.sent)

  send-Did : (env : Env) (f : CanFrame) (r : Robot F) → Did (f ∷ []) r (send env f r)
  unfolding send after_send send_frame connect client_send remember_tx_frame
  send-Did env f r = ground arith

  request_imu-Did :
      (env : Env) (n : ℕ) (r : Robot F)
      → is_connected r.can ≡ true
      → Did (replicate n env.imu_request) r (request_imu env n r)
  unfolding request_imu
  request_imu-Did env zero r h = (append_none r.sent, h)
  request_imu-Did env (suc n) r h =
      after (send env env.imu_request r) (send-Did env env.imu_request r) (request_imu env n)
        (request_imu-Did env n)
    where
      after :
          (o : Result (Unit {0}) × Robot F)
          → Did (env.imu_request ∷ []) r o
          → (k : Robot F → Result (Unit {0}) × Robot F)
          → ((s : Robot F) → is_connected s.can ≡ true → Did (replicate n env.imu_request) s (k s))
          → Did (replicate (suc n) env.imu_request) r (proceed o (λ _. k))
      after (err e, s) h k rest = tt
      after (ok _, s) (one, c) k rest = join (k s) (rest s c)
        where
          join :
              (o : Result (Unit {0}) × Robot F)
              → Did (replicate n env.imu_request) s o
              → Did (replicate (suc n) env.imu_request) r o
          join (err e, t) h = tt
          join (ok _, t) (more, c') = (
            more
                ∙ ap (λ l. l ++ replicate n env.imu_request) one
                ∙ append_assoc r.sent (env.imu_request ∷ []) (replicate n env.imu_request),
            c',
          )

  pub bringup-Did :
      (env : Env) (out : Outside) (r : Robot F)
      → is_connected r.can ≡ true
      → Did (startup_requests env out) r (bringup env out r)
  unfolding bringup
  bringup-Did env out r h = elim (Bool-cases (env.imu_enabled && out.request_all_on_start)) [
    | inl asked ↦ rw asked (request_imu-Did env out.startup_request_count r h)
    | inr quiet ↦ rw quiet (append_none r.sent, h)
  ]

module _ (fl : Floats) where
  open fl use {F}

  pub published :
      (env : Env) (c : Controller F)
      → c.is_closed ≡ false
      → Returns c.robot (publish_forced fl env c c.robot)
  unfolding publish_forced Returns
  published env c open_still =
      rw open_still
        (after (publish_state fl env true c.robot) (publish_state-Returns fl env true c.robot))
    where
      after :
          {A : Type 0} (o : Result A × Robot F)
          → Returns c.robot o
          → Returns c.robot (proceed o (λ _ s. (ok tt, s)))
      after (ok a, s) h = h
      after (err e, s) h = h
