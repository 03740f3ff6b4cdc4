-- ===== src/Telemetry/Snapshot.antt =====
-- robot_controller/telemetry/robot_snapshot.py. Times are in nanoseconds, and command values are
-- exact, as in the encoders.
use sparq_control.Common.{ℕ, Bool, Option, List}
use sparq_control.Hal.Imu.{Quat, Vec3}
use sparq_control.Hardware.Spg.Encode.{MitCommand}
use sparq_control.Control.StateMachine.{Mode}

pub record ActuatorSnapshot (F : Type 0) : Type 0 where
  pub can_id : ℕ
  pub position_rad : Option F
  pub velocity_rad_s : Option F
  pub torque_nm : Option F
  pub current_a : Option F
  pub temperature_c : Option F
  pub fault_code : Option ℕ
  pub is_enabled : Option Bool
  pub last_feedback_t : ℕ
  pub age : Option ℕ
  pub online : Bool
  pub stale : Bool

pub record ImuSnapshot (F : Type 0) : Type 0 where
  pub quat_xyzw : Option (Quat F)
  pub projected_gravity_b : Option (Vec3 F)
  pub angular_velocity_rad_s : Option (Vec3 F)
  pub last_quat_t : ℕ
  pub last_gyro_t : ℕ
  pub quat_online : Bool
  pub gyro_online : Bool
  pub quat_stale : Bool
  pub gyro_stale : Bool

-- `CommandTargetSnapshot`: the CAN ID and the five values of the command.
pub record CommandTarget : Type 0 where
  pub can_id : ℕ
  pub values : MitCommand

-- The names in `COMMAND_OUTPUT_SOURCE_NAMES`.
pub data Source : Type 0 where
  none_source enable disable zero_set damping policy : Source

-- `COMMAND_OUTPUT_SOURCE_VALUES`
abbrev pub source_value : Source → ℕ
source_value none_source = 0
source_value enable = 1
source_value disable = 2
source_value zero_set = 3
source_value damping = 4
source_value policy = 5

-- `CommandOutputSnapshot`
pub record CommandOutput : Type 0 where
  pub source : Source
  pub timestamp_monotonic : ℕ
  pub targets : List CommandTarget

pub record RobotSnapshot (F : Type 0) : Type 0 where
  pub mode : Mode
  pub timestamp_monotonic : ℕ
  pub timestamp_unix : ℕ
  pub actuators : List (ActuatorSnapshot F)
  pub imu : ImuSnapshot F
  pub command_output : CommandOutput
