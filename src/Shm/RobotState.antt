-- ===== src/Shm/RobotState.antt =====
-- robot_controller/shm/robot_state.py: the robot state segment and the dict that readers make of
-- it. A flag byte is a Boolean and a time a number of nanoseconds; the range of a double is not
-- modelled.
use Prim.Native.String.{String}
use sparq_control.Common.{
  ℕ, ◌-◌, Bool, not, Option, none, some, List, [], ◌∷◌, ltb, ◌==◌, if◌then◌else◌, ℤ, pos, negsuc,
  take, min,
}
use sparq_control.Common.Floats.{Floats}
use sparq_control.Hal.Imu.{Quat, Vec3}
use sparq_control.Telemetry.Snapshot.{CommandTarget}

abbrev pub max_robot_state_actuators : ℕ
max_robot_state_actuators = 12

-- `ActuatorStateC`
pub record ActuatorStateC (F : Type 0) : Type 0 where
  pub can_id : ℕ
  pub position_rad : F
  pub velocity_rad_s : F
  pub torque_nm : F
  pub current_a : F
  pub temperature_c : F
  pub fault_code : ℤ
  pub is_enabled : ℤ
  pub last_feedback_t : ℕ
  pub age : F
  pub online : Bool
  pub stale : Bool

-- `ImuStateC`
pub record ImuStateC (F : Type 0) : Type 0 where
  pub quat_xyzw : Quat F
  pub projected_gravity_b : Vec3 F
  pub angular_velocity_rad_s : Vec3 F
  pub last_quat_t : ℕ
  pub last_gyro_t : ℕ
  pub quat_online : Bool
  pub gyro_online : Bool
  pub quat_stale : Bool
  pub gyro_stale : Bool

-- `CommandOutputStateC`; only the targets below the count are kept.
pub record CommandOutputStateC : Type 0 where
  pub timestamp_monotonic : ℕ
  pub source : ℕ
  pub target_count : ℕ
  pub targets : List CommandTarget

-- `RobotStateC`; only the actuators below the count are kept.
pub record RobotStateC (F : Type 0) : Type 0 where
  pub timestamp_ns : ℕ
  pub timestamp_monotonic : ℕ
  pub timestamp_unix : ℕ
  pub controller_mode : ℕ
  pub actuator_count : ℕ
  pub imu : ImuStateC F
  pub actuators : List (ActuatorStateC F)
  pub command_output : CommandOutputStateC

-- `COMMAND_OUTPUT_SOURCE_NAMES.get`, where `none` stands for the name made of the number.
unfoldable pub source_name : ℕ → Option String
source_name v =
    if v == 0
    then some "NONE"
    else if v == 1
    then some "ENABLE"
    else if v == 2
    then some "DISABLE"
    else if v == 3
    then some "ZERO_SET"
    else if v == 4
    then some "DAMPING"
    else if v == 5
    then some "POLICY"
    else none

-- `_mode_name`, where `none` stands for the name made of the number.
unfoldable pub mode_name : ℕ → Option String
mode_name v =
    if v == 0
    then some "DISABLED"
    else if v == 1
    then some "ENABLING"
    else if v == 2
    then some "NORMAL"
    else if v == 3
    then some "DAMPING"
    else if v == 4
    then some "ZERO_SETTING"
    else if v == 5
    then some "ESTOP"
    else none

-- The dict of `_actuator_to_dict`.
pub record ActuatorDict (F : Type 0) : Type 0 where
  pub can_id : ℕ
  pub position_rad : Option F
  pub velocity_rad_s : Option F
  pub torque_nm : Option F
  pub current_a : Option F
  pub temperature_c : Option F
  pub fault_code : Option ℕ
  pub is_enabled : Option Bool
  pub last_feedback_t : ℕ
  pub age : Option F
  pub online : Bool
  pub stale : Bool

-- `None if x < 0 else x`
abbrev pub if_natural : ℤ → Option ℕ
if_natural (pos n) = some n
if_natural (negsuc n) = none

-- `None if x < 0 else bool(x)`
abbrev pub if_flag : ℤ → Option Bool
if_flag (pos n) = some (not (n == 0))
if_flag (negsuc n) = none

-- The dict of `_command_output_to_dict`.
pub record CommandOutputDict : Type 0 where
  pub is_online : Bool
  pub source : Option String
  pub timestamp_monotonic : ℕ
  pub age : Option ℕ
  pub target_count : ℕ
  pub targets : List CommandTarget

-- `_command_output_to_dict`
unfoldable pub command_output_to_dict : CommandOutputStateC → ℕ → CommandOutputDict
unfolding source_name
command_output_to_dict item now =
    let target_count = min item.target_count max_robot_state_actuators in
    record {
      is_online = ltb 0 item.timestamp_monotonic;
      source = source_name item.source;
      timestamp_monotonic = item.timestamp_monotonic;
      age = if ltb 0 item.timestamp_monotonic then some (now - item.timestamp_monotonic) else none;
      target_count = target_count;
      targets = take target_count item.targets;
    }

-- The dict of `robot_state_to_dict`.
pub record RobotDict (F : Type 0) : Type 0 where
  pub timestamp_monotonic : ℕ
  pub timestamp_unix : ℕ
  pub controller_state : Option String
  pub imu : ImuStateC F
  pub actuators : List (ActuatorDict F)
  pub command_output : CommandOutputDict

module _ (fl : Floats) where
  open fl use {F, of_int, lt}

  -- `_actuator_to_dict`
  unfoldable pub actuator_to_dict : ActuatorStateC F → ActuatorDict F
  actuator_to_dict item =
      let has_feedback = ltb 0 item.last_feedback_t in
      record {
        can_id = item.can_id;
        position_rad = if has_feedback then some item.position_rad else none;
        velocity_rad_s = if has_feedback then some item.velocity_rad_s else none;
        torque_nm = if has_feedback then some item.torque_nm else none;
        current_a = if has_feedback then some item.current_a else none;
        temperature_c = if has_feedback then some item.temperature_c else none;
        fault_code = if_natural item.fault_code;
        is_enabled = if_flag item.is_enabled;
        last_feedback_t = item.last_feedback_t;
        age = if lt item.age (of_int (pos 0)) then none else some item.age;
        online = item.online;
        stale = item.stale;
      }

  unfoldable pub actuators_to_dicts : List (ActuatorStateC F) → List (ActuatorDict F)
  unfolding actuator_to_dict
  actuators_to_dicts [] = []
  actuators_to_dicts (a ∷ rest) = actuator_to_dict a ∷ actuators_to_dicts rest

  -- `robot_state_to_dict`
  unfoldable pub robot_state_to_dict : RobotStateC F → ℕ → RobotDict F
  unfolding mode_name actuators_to_dicts command_output_to_dict
  robot_state_to_dict s now = record {
    timestamp_monotonic = s.timestamp_monotonic;
    timestamp_unix = s.timestamp_unix;
    controller_state = mode_name s.controller_mode;
    imu = s.imu;
    actuators =
        actuators_to_dicts (take (min s.actuator_count max_robot_state_actuators) s.actuators);
    command_output = command_output_to_dict s.command_output now;
  }

  -- `RobotStateShm.read_latest`
  unfoldable pub read_latest : RobotStateC F → ℕ → Option (RobotDict F)
  unfolding robot_state_to_dict
  read_latest s now = if s.timestamp_ns == 0 then none else some (robot_state_to_dict s now)
