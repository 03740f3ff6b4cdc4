-- ===== src/Control/Tick/Publish.antt =====
-- Publishing the state in robot_controller/controller.py never raises.
use sparq_control.Common.{ℕ, ◌+◌, ◌≡◌, refl, ◌∙◌, Bool, Option, none, some, List, [], ◌∷◌}
use sparq_control.Common.Floats.{Floats}
use sparq_control.Common.Result.{Result, ok, err}
use sparq_control.Hal.Imu.{update_flags}
use sparq_control.Telemetry.Snapshot.{ActuatorSnapshot, RobotSnapshot}
use sparq_control.Telemetry.Publisher.{Publisher}
use sparq_control.Control.Sends.{get_actuator, sorted, keys}
use sparq_control.Control.Tick.{
  snapshot_one, snapshot_each, assemble, snapshot_from, make_snapshot, publish_by,
  publish_control_state, publish_dashboard, publish_both, publish_state,
}
use sparq_control.Control.World.{Actuator, Robot, Env, Action, proceed, modify, return, ◌>>=◌}

module _ {F : Type 0} where
  -- The action has not raised, nor sent a frame or touched the client.
  unfoldable pub Returns : {A : Type 0} → Robot F → Result A × Robot F → Type 0
  Returns r (ok a, s) = (s.sent ≡ r.sent) × (s.can ≡ r.can)
  Returns r (err e, s) = ⊥

  Returns-later :
      {B : Type 0} (r s : Robot F) (o : Result B × Robot F)
      → (s.sent ≡ r.sent) × (s.can ≡ r.can)
      → Returns s o
      → Returns r o
  unfolding Returns
  Returns-later r s (ok b, t) h k = (k.0 ∙ h.0, k.1 ∙ h.1)
  Returns-later r s (err e, t) h k = k

  proceed-Returns :
      {A B : Type 0} (r : Robot F) (o : Result A × Robot F) (k : A → Action F B)
      → Returns r o
      → ((a : A) (s : Robot F) → Returns s (k a s))
      → Returns r (proceed o k)
  unfolding Returns
  proceed-Returns r (ok a, s) k h next = Returns-later r s (k a s) h (next a s)
  proceed-Returns r (err e, s) k h next = h

  one-Returns :
      (env : Env) (now k : ℕ) (items : List (ActuatorSnapshot F)) (a : Option (Actuator F))
      (r : Robot F)
      → Returns r (snapshot_one env now k items a r)
  unfolding Returns snapshot_one
  one-Returns env now k items none r = (refl, refl)
  one-Returns env now k items (some a) r = (refl, refl)

  each-Returns :
      (env : Env) (now : ℕ) (ks : List ℕ) (items : List (ActuatorSnapshot F)) (r : Robot F)
      → Returns r (snapshot_each env now ks items r)
  unfolding snapshot_each Returns
  each-Returns env now [] items r = (refl, refl)
  each-Returns env now (k ∷ ks) items r =
      proceed-Returns r (snapshot_one env now k items (get_actuator r.actuators k) r)
        (snapshot_each env now ks) (one-Returns env now k items (get_actuator r.actuators k) r)
        (each-Returns env now ks)

  assemble-Returns :
      (env : Env) (now : ℕ) (items : List (ActuatorSnapshot F)) (r : Robot F)
      → Returns r (assemble env now items r)
  unfolding assemble Returns
  assemble-Returns env now items r = (refl, refl)

  from-Returns : (env : Env) (now : ℕ) (r : Robot F) → Returns r (snapshot_from env now r)
  unfolding snapshot_from assemble
  from-Returns env now r =
      let ks = sorted (keys r.actuators) in
      proceed-Returns r (snapshot_each env now ks [] r) (assemble env now)
        (each-Returns env now ks [] r) (assemble-Returns env now)

  pub make_snapshot-Returns : (env : Env) (r : Robot F) → Returns r (make_snapshot env r)
  unfolding make_snapshot Returns
  make_snapshot-Returns env r =
      let t = env.clock (r.readings + 1) in
      from-Returns env (env.clock r.readings)
        (record r { readings = r.readings + 1 + 1; imu = update_flags r.imu t })

module _ (fl : Floats) where
  open fl use {F}

  by-Returns :
      (env : Env) (snapshot : RobotSnapshot F) (force : Bool) (p : Option (Publisher F))
      (r : Robot F)
      → Returns r (publish_by fl env snapshot force p r)
  unfolding publish_by Returns
  by-Returns env snapshot force none r = (refl, refl)
  by-Returns env snapshot force (some p) r = (refl, refl)

  control_state-Returns :
      (env : Env) (snapshot : RobotSnapshot F) (force : Bool) (r : Robot F)
      → Returns r (publish_control_state fl env snapshot force r)
  unfolding publish_control_state Returns
  control_state-Returns env snapshot force r =
      proceed-Returns r (publish_by fl env snapshot force r.shm_state_publisher r)
        (λ p. modify (λ r. record r { shm_state_publisher = p }))
        (by-Returns env snapshot force r.shm_state_publisher r) (λ p s. (refl, refl))

  dashboard-Returns :
      (env : Env) (snapshot : RobotSnapshot F) (force : Bool) (r : Robot F)
      → Returns r (publish_dashboard fl env snapshot force r)
  unfolding publish_dashboard Returns
  dashboard-Returns env snapshot force r =
      proceed-Returns r (publish_by fl env snapshot force r.dashboard_publisher r)
        (λ p. modify (λ r. record r { dashboard_publisher = p }))
        (by-Returns env snapshot force r.dashboard_publisher r) (λ p s. (refl, refl))

  both-Returns :
      (env : Env) (force : Bool) (snapshot : RobotSnapshot F) (r : Robot F)
      → Returns r (publish_both fl env force snapshot r)
  unfolding publish_both Returns
  both-Returns env force snapshot r =
      proceed-Returns r (publish_control_state fl env snapshot force r)
        (λ _. publish_dashboard fl env snapshot force >>= λ _. return snapshot)
        (control_state-Returns env snapshot force r)
        (λ _ s.
          proceed-Returns s (publish_dashboard fl env snapshot force s) (λ _. return snapshot)
            (dashboard-Returns env snapshot force s) (λ _ t. (refl, refl)))

  pub publish_state-Returns :
      (env : Env) (force : Bool) (r : Robot F) → Returns r (publish_state fl env force r)
  unfolding publish_state
  publish_state-Returns env force r =
      proceed-Returns r (make_snapshot env r) (publish_both fl env force)
        (make_snapshot-Returns env r) (both-Returns env force)
