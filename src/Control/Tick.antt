-- ===== src/Control/Tick.antt =====
-- `tick` of robot_controller/controller.py, and the snapshot that it publishes.
pub mod Kept
pub mod Output
pub mod Safety
pub mod Reach
pub mod Stop
pub mod Publish
use sparq_control.Common.{
  ℕ, ◌-◌, ◌+◌, Bool, true, false, ◌&&◌, Option, none, some, List, [], ◌∷◌, ◌++◌, ltb, ◌==◌,
  if◌then◌else◌,
}
use sparq_control.Common.Floats.{Floats}
use sparq_control.Common.Result.{Result, ok, err}
use sparq_control.Hal.Freshness.{update_fault_flags}
use sparq_control.Hal.Imu.{update_flags}
use sparq_control.Shm.OperatorCommand.{OperatorCommand}
use sparq_control.Shm.ControlCommand.{ControlCommand}
use sparq_control.Telemetry.Snapshot.{ActuatorSnapshot, RobotSnapshot}
use sparq_control.Telemetry.Publisher.{Publisher, publish}
use sparq_control.Control.StateMachine.{
  Mode, disabled, enabling, normal, damping, zero_setting, estop, Machine, update,
}
use sparq_control.Control.Consume.{consume_operator_command}
use sparq_control.Control.Sends.{
  sorted, keys, get_actuator, send_disable_all, send_enable_all, send_zero_set_all,
  send_damping_all, send_policy_command,
}
use sparq_control.Control.World.{
  Actuator, Robot, Env, Action, ◌>>=◌, ◌>>◌, return, get, modify, read_clock, send,
}

module _ {F : Type 0} where
  -- `_request_imu_on_tick`
  unfoldable pub request_imu_on_tick : Env → Action F (Unit {0})
  unfolding send
  request_imu_on_tick env =
      if env.imu_enabled && env.request_all_each_tick then send env env.imu_request else return tt

  -- A driver put back under its key.
  unfoldable pub set_actuator : List (ℕ × Actuator F) → ℕ → Actuator F → List (ℕ × Actuator F)
  set_actuator [] k a = []
  set_actuator ((j, b) ∷ d) k a = if j == k then (j, a) ∷ d else (j, b) ∷ set_actuator d k a

  -- `update_fault_flags` of the actuator's driver.
  abbrev update_actuator : Actuator F → ℕ → Actuator F
  update_actuator a now = record a {
    driver = record a.driver { comm_manager = update_fault_flags a.driver.comm_manager now };
  }

  -- The snapshot of an actuator, whose flags are up to date.
  unfoldable pub actuator_snapshot : ℕ → ℕ → Actuator F → ActuatorSnapshot F
  actuator_snapshot now k a =
      let s = a.driver.state in
      let status = a.driver.comm_manager.status in
      record {
        can_id = k;
        position_rad = s.position_rad;
        velocity_rad_s = s.velocity_rad_s;
        torque_nm = s.torque_nm;
        current_a = s.current_a;
        temperature_c = s.temperature_c;
        fault_code = s.fault_code;
        is_enabled = s.is_enabled;
        last_feedback_t = s.last_feedback_t;
        age = if s.last_feedback_t == 0 then none else some (now - s.last_feedback_t);
        online = status.is_online;
        stale = status.is_stale;
      }

  -- One turn of the loop of `_make_snapshot`.
  unfoldable pub snapshot_one :
      Env
      → ℕ
      → ℕ
      → List (ActuatorSnapshot F)
      → Option (Actuator F)
      → Action F (List (ActuatorSnapshot F))
  unfolding set_actuator actuator_snapshot update_fault_flags
  snapshot_one env now k items none = return items
  snapshot_one env now k items (some a) = do
    t ← read_clock env
    let a' = update_actuator a t
    modify (λ r. record r { actuators = set_actuator r.actuators k a' })
    return (items ++ actuator_snapshot now k a' ∷ [])

  unfoldable pub snapshot_each :
      Env → ℕ → List ℕ → List (ActuatorSnapshot F) → Action F (List (ActuatorSnapshot F))
  unfolding snapshot_one get_actuator
  snapshot_each env now [] items = return items
  snapshot_each env now (k ∷ ks) items = do
    r ← get
    items' ← snapshot_one env now k items (get_actuator r.actuators k)
    snapshot_each env now ks items'

  -- The end of `_make_snapshot`, with the time of its start and the actuators' snapshots.
  unfoldable pub assemble : Env → ℕ → List (ActuatorSnapshot F) → Action F (RobotSnapshot F)
  assemble env now items r =
      let imu = r.imu in
      (
        ok (record {
          mode = r.machine.mode;
          timestamp_monotonic = now;
          timestamp_unix = env.unix_ns r.readings;
          actuators = items;
          imu = record {
            quat_xyzw = imu.state.quat_xyzw;
            projected_gravity_b = imu.state.projected_gravity_b;
            angular_velocity_rad_s = imu.state.angular_velocity_rad_s;
            last_quat_t = imu.state.last_quat_t;
            last_gyro_t = imu.state.last_gyro_t;
            quat_online = imu.quat_comm.status.is_online;
            gyro_online = imu.gyro_comm.status.is_online;
            quat_stale = imu.quat_comm.status.is_stale;
            gyro_stale = imu.gyro_comm.status.is_stale;
          };
          command_output = r.last_output;
        }),
        r,
      )

  -- The rest of `_make_snapshot` after the IMU's flags are updated.
  unfoldable pub snapshot_from : Env → ℕ → Action F (RobotSnapshot F)
  unfolding snapshot_each sorted assemble
  snapshot_from env now = do
    r ← get
    items ← snapshot_each env now (sorted (keys r.actuators)) []
    assemble env now items

  -- `_make_snapshot`
  unfoldable pub make_snapshot : Env → Action F (RobotSnapshot F)
  unfolding snapshot_from update_flags
  make_snapshot env = do
    now ← read_clock env
    t ← read_clock env
    modify (λ r. record r { imu = update_flags r.imu t })
    snapshot_from env now

  -- The operator command of this tick, as the state machine is given it.
  unfoldable pub consume : OperatorCommand → Action F OperatorCommand
  unfolding consume_operator_command
  consume op r =
      let (latch, op') = consume_operator_command r.latch op in (ok op', record r { latch = latch })

  -- `self.state_machine.update`
  unfoldable pub update_machine : OperatorCommand → ℕ → Action F Mode
  unfolding update
  update_machine op now r =
      let m = update r.machine (some op) now in (ok m.mode, record r { machine = m })

  -- The output of `tick` in each mode.
  unfoldable pub output : Env → OperatorCommand → ControlCommand → Mode → Action F (Unit {0})
  unfolding send_disable_all send_enable_all send_zero_set_all send_damping_all send_policy_command
  output env op cmd estop = send_disable_all env
  output env op cmd disabled = send_disable_all env
  output env op cmd enabling = send_enable_all env
  output env op cmd zero_setting = send_zero_set_all env (some op)
  output env op cmd damping = send_damping_all env
  output env op cmd normal = send_policy_command env cmd

  -- `tick` up to the publication, with what it reads from the two segments.
  unfoldable pub act : Env → OperatorCommand → ControlCommand → Action F (Unit {0})
  unfolding request_imu_on_tick consume update_machine output
  act env op cmd = do
    now ← read_clock env
    request_imu_on_tick env
    op' ← consume op
    mode ← update_machine op' now
    output env op' cmd mode

module _ (fl : Floats) where
  open fl use {F}

  -- The publication by one publisher, if it is there.
  unfoldable pub publish_by :
      Env → RobotSnapshot F → Bool → Option (Publisher F) → Action F (Option (Publisher F))
  unfolding publish
  publish_by env snapshot force none = return none
  publish_by env snapshot force (some p) = do
    now ← read_clock env
    r ← get
    return (some (publish fl p snapshot force now (env.unix_ns r.readings)))

  unfoldable pub publish_control_state : Env → RobotSnapshot F → Bool → Action F (Unit {0})
  unfolding publish_by
  publish_control_state env snapshot force = do
    r ← get
    p ← publish_by env snapshot force r.shm_state_publisher
    modify (λ r. record r { shm_state_publisher = p })

  unfoldable pub publish_dashboard : Env → RobotSnapshot F → Bool → Action F (Unit {0})
  unfolding publish_by
  publish_dashboard env snapshot force = do
    r ← get
    p ← publish_by env snapshot force r.dashboard_publisher
    modify (λ r. record r { dashboard_publisher = p })

  -- The two publications of `_publish_state`, which returns the snapshot.
  unfoldable pub publish_both : Env → Bool → RobotSnapshot F → Action F (RobotSnapshot F)
  unfolding publish_control_state publish_dashboard
  publish_both env force snapshot = do
    publish_control_state env snapshot force
    publish_dashboard env snapshot force
    return snapshot

  -- `_publish_state`
  unfoldable pub publish_state : Env → Bool → Action F (RobotSnapshot F)
  unfolding make_snapshot publish_both
  publish_state env force = make_snapshot env >>= publish_both env force

  -- `tick`
  unfoldable pub tick : Env → OperatorCommand → ControlCommand → Action F (RobotSnapshot F)
  unfolding act publish_state
  tick env op cmd = act env op cmd >> publish_state env false
