-- ===== src/Config/Controller.antt =====
-- robot_controller/core/config.py: the configuration of the robot controller and the helpers that read
-- it.
pub mod Load
pub mod Loaded
pub mod Validate
pub mod Valid
use Prim.Native.String.{String}
use sparq_control.Common.{ℕ, Bool, List, Option, none, some, ℤ}
use sparq_control.Common.Floats.{Floats}
use sparq_control.Common.Result.{Result, ok, err, ◌>>=◌, config_error}
use sparq_control.Config.Yaml.{
  Yaml, null_value, Entries, Builtins, to_str, to_int, parse_int, to_float, find_key, as_mapping,
  as_list, as_bool,
}
use sparq_control.Config.Platform.{PlatformConfig}

pub record ProcessConfig : Type 0 where
  pub name : String
  pub command : List String
  pub start_order : ℤ
  pub stop_order : ℤ
  pub new_terminal : Bool
  pub terminal_command : List String
  pub working_dir : String
  pub env : List (String × String)

pub record MitCommandShmConfig : Type 0 where
  pub name : String
  pub target_count : ℕ

pub record RobotStateShmConfig (F : Type 0) : Type 0 where
  pub name : String
  pub size_bytes : ℤ
  pub publish_hz : F

pub record OperatorCommandShmConfig : Type 0 where
  pub name : String
  pub size_bytes : ℤ

pub record ShmConfig (F : Type 0) : Type 0 where
  pub cleanup_stale_on_start : Bool
  pub unlink_on_shutdown : Bool
  pub mit_command : MitCommandShmConfig
  pub aux_command : RobotStateShmConfig F
  pub operator_command : OperatorCommandShmConfig
  pub control_state : RobotStateShmConfig F
  pub dashboard_state : RobotStateShmConfig F

pub record MotorConfig : Type 0 where
  pub can_ids : List ℤ
  pub enter_on_start : Bool
  pub exit_on_shutdown : Bool
  pub set_zero_on_start : Bool

pub record ImuConfig (F : Type 0) : Type 0 where
  pub enabled : Bool
  pub request_all_on_start : Bool
  pub request_all_each_tick : Bool
  pub startup_request_count : ℤ
  pub startup_request_delay_s : F

pub record CanDaemonConfig (F : Type 0) : Type 0 where
  pub rx_timeout_s : F
  pub tx_timeout_s : F
  pub join_timeout_s : F
  pub max_tx_queue_size : ℤ
  pub send_block : Bool
  pub send_timeout_s : Option F
  pub ipc_socket_path : String
  pub connect_timeout_s : F

pub record MitProtocolRangeConfig (F : Type 0) : Type 0 where
  pub position_rad : F
  pub velocity_rad_s : F
  pub kp : F
  pub kd : F
  pub torque_ff_nm : F
  pub feedback_position_rad : F

pub record CanConfig (F : Type 0) : Type 0 where
  pub interface : String
  pub command_timeout_s : F
  pub bringup_delay_s : F
  pub daemon : CanDaemonConfig F
  pub motors : MotorConfig
  pub imu : ImuConfig F
  pub mit_protocol_range : MitProtocolRangeConfig F

pub record RobotControllerCoreConfig (F : Type 0) : Type 0 where
  pub name : String
  pub control_hz : F
  pub shutdown_timeout_s : F

pub record StateMachineConfig (F : Type 0) : Type 0 where
  pub enable_duration_s : F

pub record RuntimeModeConfig : Type 0 where
  pub mode : String

pub record HardwareSafetyConfig : Type 0 where
  pub allow_real_can : Bool
  pub require_manual_arm : Bool
  pub require_estop : Bool
  pub allow_enable_on_start : Bool
  pub allowed_can_interfaces : List String

pub record SafetyPolicyConfig (F : Type 0) : Type 0 where
  pub velocity_damping_kd : F
  pub damping_timeout_s : F
  pub command_loss_action : String
  pub feedback_stale_action : String

pub record RobotControllerConfig (P F : Type 0) : Type 0 where
  pub platform : PlatformConfig P F
  pub runtime : RuntimeModeConfig
  pub hardware : HardwareSafetyConfig
  pub safety : SafetyPolicyConfig F
  pub state_machine : StateMachineConfig F
  pub robot_controller : RobotControllerCoreConfig F
  pub shm : ShmConfig F
  pub can : CanConfig F
  pub processes : List ProcessConfig

module _ {F : Type 0} where
  unfoldable pub require_key : Entries F → String → Result (Yaml F)
  unfolding find_key
  require_key m key = find_key config_error m key

  unfoldable pub require_mapping : Entries F → String → Result (Entries F)
  unfolding require_key
  require_mapping m key = require_key m key >>= as_mapping config_error

  unfoldable pub require_list : Entries F → String → Result (List (Yaml F))
  unfolding require_key
  require_list m key = require_key m key >>= as_list config_error

  unfoldable pub require_bool : Entries F → String → Result Bool
  unfolding require_key
  require_bool m key = require_key m key >>= as_bool config_error

module _ (fl : Floats) (b : Builtins fl) where
  -- `str(_require_key(m, key, ...))`
  unfoldable pub require_str : Entries fl.F → String → Result String
  unfolding require_key to_str
  require_str m key = require_key m key >>= λ v. ok (to_str fl b v)

  unfoldable pub require_float : Entries fl.F → String → Result fl.F
  unfolding require_key to_float
  require_float m key = require_key m key >>= to_float fl b

  unfoldable pub require_int : Entries fl.F → String → Result ℤ
  unfolding require_key to_int
  require_int m key = require_key m key >>= to_int fl b

  abbrev pub float_or_none : Yaml fl.F → Result (Option fl.F)
  float_or_none null_value = ok none
  float_or_none v = to_float fl b v >>= λ x. ok (some x)

  unfoldable pub optional_float_or_none : Entries fl.F → String → Result (Option fl.F)
  unfolding require_key to_float
  optional_float_or_none m key = require_key m key >>= float_or_none
