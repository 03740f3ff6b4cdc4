-- ===== src/Control/Lifecycle.antt =====
-- `start` and `shutdown` of robot_controller/controller.py. What the segments, the child processes and
-- the callbacks' registration do outside the process is an argument: whether each call returns.
pub mod Calls
pub mod Shutdown
pub mod Started
use sparq_control.Common.{
  ℕ, zero, suc, ◌+◌, Bool, true, false, ◌&&◌, ◌||◌, Option, none, some, List, [], ◌∷◌,
  if◌then◌else◌,
}
use sparq_control.Common.Floats.{Floats}
use sparq_control.Common.Result.{Result, ok, err, attribute_error}
use sparq_control.Hal.Frame.{CanFrame}
use sparq_control.Hal.Transport.{Transport, absent, is_connected, connect}
use sparq_control.Telemetry.Publisher.{Publisher}
use sparq_control.Control.Sends.{send_disable_all}
use sparq_control.Control.Tick.{make_snapshot, publish_state}
use sparq_control.Control.World.{
  Robot, Env, Action, ◌>>=◌, ◌>>◌, return, raise, read_clock, lift, send,
}

-- `RobotControllerState`
pub data Phase : Type 0 where
  created init_shm start_can_daemon bringup_imu start_child_processes running shutting_down stopped
        error :
      Phase

-- `self.controller_state == RobotControllerState.STOPPED`
abbrev pub is_stopped : Phase → Bool
is_stopped stopped = true
is_stopped created = false
is_stopped init_shm = false
is_stopped start_can_daemon = false
is_stopped bringup_imu = false
is_stopped start_child_processes = false
is_stopped running = false
is_stopped shutting_down = false
is_stopped error = false

-- `RobotController`, with the fields that starting and stopping change. `is_closed` says that the
-- writers of its publishers are closed.
pub record Controller (F : Type 0) : Type 0 where
  pub controller_state : Phase
  pub is_running : Bool
  pub is_closed : Bool
  pub robot : Robot F

-- The calls that leave the process, in the order of their use, and the settings of the IMU. Closing
-- segments and sockets raises nothing.
pub record Outside : Type 0 where
  pub segments : Result (Unit {0})
  pub start_daemon : Result (Unit {0})
  pub register_callbacks : Result (Unit {0})
  pub start_all : Result (Unit {0})
  pub stop_all : Result (Unit {0})
  pub unlink_all : Result (Unit {0})
  pub request_all_on_start : Bool
  pub startup_request_count : ℕ
  pub control_state_period : ℕ
  pub dashboard_period : ℕ

module _ {F : Type 0} where
  -- `self.can.connect()`
  unfoldable pub connect_can : Env → Action F (Unit {0})
  unfolding connect
  connect_can env r = let (x, t) = connect env.link r.can in (x, record r { can = t })

  -- The loop of `_bringup_imu`; the delay after each request is not modelled.
  unfoldable pub request_imu : Env → ℕ → Action F (Unit {0})
  unfolding send
  request_imu env zero = return tt
  request_imu env (suc n) = send env env.imu_request >> request_imu env n

  -- `_bringup_imu`
  unfoldable pub bringup : Env → Outside → Action F (Unit {0})
  unfolding request_imu
  bringup env out =
      if env.imu_enabled && out.request_all_on_start
      then request_imu env out.startup_request_count
      else return tt

  -- The publishers that `start` opens.
  abbrev pub open_publishers : Outside → Robot F → Robot F
  open_publishers out r = record r {
    shm_state_publisher =
        some (record { period = out.control_state_period; last_publish_t = 0; segment = none });
    dashboard_publisher =
        some (record { period = out.dashboard_period; last_publish_t = 0; segment = none });
  }

  -- The first phase of `start`.
  unfoldable pub open_segments : Outside → Controller F → Result (Unit {0}) × Controller F
  open_segments out c = elim out.segments [
    | err e ↦ (err e, record c { controller_state = init_shm })
    | ok _ ↦ (
      ok tt,
      record c {
        controller_state = init_shm;
        is_closed = false;
        robot = open_publishers out c.robot;
      },
    )
  ]

  abbrev pub is_there : Option (Publisher F) → Bool
  is_there none = false
  is_there (some p) = true

  -- `_close_runtime`; a publisher stays an attribute when its writer is closed.
  unfoldable pub close_runtime : Controller F → Controller F
  close_runtime c = record c {
    is_closed = c.is_closed || is_there c.robot.shm_state_publisher;
    robot = record c.robot { can = record c.robot.can { client = absent } };
  }

  -- A phase of `start`: the state is set, and the calls are made.
  abbrev pub phase : Phase → Action F (Unit {0}) → Controller F → Result (Unit {0}) × Controller F
  phase p m c = let (x, r) = m c.robot in (x, record c { controller_state = p; robot = r })

  -- The next phase, unless this one has raised.
  abbrev pub then_phase :
      Result (Unit {0}) × Controller F
      → (Controller F → Result (Unit {0}) × Controller F)
      → Result (Unit {0}) × Controller F
  then_phase (ok _, c) next = next c
  then_phase (err e, c) next = (err e, c)

module _ (fl : Floats) where
  open fl use {F}

  -- `self._publish_state(force=True)`. A closed writer has no segment to write to.
  unfoldable pub publish_forced : Env → Controller F → Action F (Unit {0})
  unfolding publish_state make_snapshot
  publish_forced env c =
      if c.is_closed
      then (make_snapshot env >>= λ snapshot. read_clock env >>= λ now. raise attribute_error)
      else (publish_state fl env true >>= λ snapshot. return tt)

  -- `shutdown` after the disable frames.
  unfoldable pub finish : Env → Outside → Controller F → Result (Unit {0}) × Controller F
  unfolding publish_forced close_runtime
  finish env out c =
      then_phase (out.stop_all, c)
        λ c1.
          then_phase (phase c1.controller_state (publish_forced env c1) c1)
            λ c2. (out.unlink_all, close_runtime c2)

  -- The robot after `if self.can.is_connected(): self._send_disable_all()`, which may have raised: that
  -- is only logged.
  unfoldable pub disable_if_connected : Env → Robot F → Robot F
  unfolding send_disable_all
  disable_if_connected env r = if is_connected r.can then (send_disable_all env r).1 else r

  -- The state STOPPED, unless a call has raised.
  unfoldable pub stop : Result (Unit {0}) × Controller F → Result (Unit {0}) × Controller F
  stop (ok _, c) = (ok tt, record c { controller_state = stopped })
  stop (err e, c) = (err e, c)

  -- `shutdown`
  unfoldable pub shutdown : Env → Outside → Controller F → Result (Unit {0}) × Controller F
  unfolding finish disable_if_connected stop
  shutdown env out c =
      if is_stopped c.controller_state
      then (ok tt, c)
      else stop (
          finish env out (record c {
            controller_state = shutting_down;
            is_running = false;
            robot = disable_if_connected env c.robot;
          }))

  -- The body of `start` in its `try`.
  unfoldable pub start_phases : Env → Outside → Controller F → Result (Unit {0}) × Controller F
  unfolding open_segments connect_can bringup publish_forced
  start_phases env out c = then_phase (open_segments out c) λ c1.
      then_phase
        (phase start_can_daemon
          (lift out.start_daemon >> (connect_can env >> lift out.register_callbacks)) c1)
        λ c2. then_phase (phase bringup_imu (bringup env out) c2) λ c3.
          then_phase (phase start_child_processes (lift out.start_all) c3) λ c4.
            let c5 : Controller F = record c4 { is_running = true } in
            phase running (publish_forced env c5) c5

  -- The handler of `start`: the exception is raised again after `shutdown`, which may raise itself.
  unfoldable pub recover :
      Env → Outside → Result (Unit {0}) × Controller F → Result (Unit {0}) × Controller F
  unfolding shutdown
  recover env out (ok _, c) = (ok tt, c)
  recover env out (err e, c) =
      let (x, c') = shutdown env out (record c { controller_state = error }) in
      elim x [ ok _ ↦ (err e, c') | err e' ↦ (err e', c') ]

  -- `start`
  unfoldable pub start : Env → Outside → Controller F → Result (Unit {0}) × Controller F
  unfolding start_phases recover
  start env out c = recover env out (start_phases env out c)
