-- ===== src/Control/World.antt =====
-- The state of robot_controller/controller.py, and its methods as actions: an action takes the
-- robot and gives back its result or an exception, with the robot as it is then. What is outside
-- is an argument: the CAN client's link, and the clock, as a reading for each number of readings
-- taken before.
use sparq_control.Common.{ℕ, ◌+◌, Bool, Option, List, [], ◌∷◌, ◌++◌, ℤ}
use sparq_control.Common.Result.{Result, ok, err, Exn}
use sparq_control.Hal.Frame.{CanFrame}
use sparq_control.Hal.Actuator.{Driver}
use sparq_control.Hal.Imu.{Driver as ImuDriver}
use sparq_control.Hal.Transport.{Link, Transport, send_frame}
use sparq_control.Hardware.Spg.Encode.{MitConfig}
use sparq_control.Control.StateMachine.{Machine}
use sparq_control.Control.Consume.{Latch}
use sparq_control.Telemetry.Snapshot.{CommandOutput}
use sparq_control.Telemetry.Publisher.{Publisher}

-- An entry of `actuators`: the protocol's settings and the driver.
pub record Actuator (F : Type 0) : Type 0 where
  pub command_id : ℕ
  pub mit_config : MitConfig
  pub driver : Driver F

-- `RobotController`, by what its tick uses. `sent` lists the frames that the client took.
pub record Robot (F : Type 0) : Type 0 where
  pub machine : Machine
  pub latch : Latch
  pub can : Transport
  pub actuators : List (ℕ × Actuator F)
  pub imu : ImuDriver F
  pub last_output : CommandOutput
  pub shm_state_publisher : Option (Publisher F)
  pub dashboard_publisher : Option (Publisher F)
  pub readings : ℕ
  pub sent : List CanFrame

-- The configuration that a tick uses, and what is outside.
pub record Env : Type 0 where
  pub link : Link
  pub clock : ℕ → ℕ
  pub unix_ns : ℕ → ℕ
  pub imu_enabled : Bool
  pub request_all_each_tick : Bool
  pub imu_request : CanFrame
  pub velocity_damping_kd : ℤ

abbrev pub Action : Type 0 → Type 0 → Type 0
Action F A = Robot F → Result A × Robot F

module _ {F : Type 0} where
  infixl 5 ◌>>=◌ ◌>>◌
  -- What follows an action: nothing after an exception.
  abbrev pub proceed : {A B : Type 0} → Result A × Robot F → (A → Action F B) → Result B × Robot F
  proceed (ok a, r) f = f a r
  proceed (err e, r) f = (err e, r)

  abbrev pub ◌>>=◌ : {A B : Type 0} → Action F A → (A → Action F B) → Action F B
  m >>= f = λ r. proceed (m r) f

  abbrev pub ◌>>◌ : {B : Type 0} → Action F (Unit {0}) → Action F B → Action F B
  m >> k = m >>= λ _. k

  abbrev pub return : {A : Type 0} → A → Action F A
  return a = λ r. (ok a, r)

  abbrev pub raise : {A : Type 0} → Exn → Action F A
  raise e = λ r. (err e, r)

  -- A result without effects.
  abbrev pub lift : {A : Type 0} → Result A → Action F A
  lift x = λ r. (x, r)

  abbrev pub get : Action F (Robot F)
  get = λ r. (ok r, r)

  abbrev pub modify : (Robot F → Robot F) → Action F (Unit {0})
  modify f = λ r. (ok tt, f r)

  -- `time.monotonic()`
  abbrev pub read_clock : Env → Action F ℕ
  read_clock env = λ r. (ok (env.clock r.readings), record r { readings = r.readings + 1 })

  -- What `self.can.send_frame` made of the robot.
  unfoldable pub after_send :
      CanFrame → Robot F → Result (Unit {0}) × Transport → Result (Unit {0}) × Robot F
  after_send frame r (ok _, t) =
      (ok tt, record r { can = t; readings = r.readings + 1; sent = r.sent ++ frame ∷ [] })
  after_send frame r (err e, t) = (err e, record r { can = t })

  -- `self.can.send_frame`, which reads the clock when the client has taken the frame.
  unfoldable pub send : Env → CanFrame → Action F (Unit {0})
  unfolding after_send send_frame
  send env frame r = after_send frame r (send_frame env.link frame (env.clock r.readings) r.can)
