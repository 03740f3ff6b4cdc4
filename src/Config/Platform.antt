-- ===== src/Config/Platform.antt =====
-- robot_controller/core/platform_config.py: the platform file. Opening files and parsing YAML text are
-- arguments.
pub mod Load
pub mod Distinct
use Prim.Native.String.{String}
use text.Mathlib.Text.{◌==◌ as str_eq}
use sparq_control.Common.{
  Bool, true, false, not, List, [], ◌∷◌, ℤ, if◌then◌else◌, any, eq_ℤ, filter,
}
use sparq_control.Common.Floats.{Floats}
use sparq_control.Common.Result.{Result, ok, err, ◌>>=◌, ◌>>◌, raise_if, platform_config_error}
use sparq_control.Config.Yaml.{
  Yaml, mapping_value, Entries, entries, Builtins, to_str, to_int, parse_int, to_float, to_bool,
  find_key, as_mapping, as_list, is_empty_text,
}

-- The file system, as the loaders use it.
pub record Files (F : Type 0) : Type 1 where
  pub FilePath : Type 0
  -- `Path(value)`
  pub of_text : String → FilePath
  pub is_absolute : FilePath → Bool
  -- `Path(base).parent / candidate`
  pub beside : FilePath → FilePath → FilePath
  -- `Path.resolve`
  pub resolve : FilePath → FilePath
  -- `open` and `yaml.safe_load`
  pub load : FilePath → Result (Yaml F)

pub record PlatformRobotConfig : Type 0 where
  pub name : String

pub record PlatformRobotAssetConfig : Type 0 where
  pub model_path : String
  pub policy_config_dir : String
  pub pd_config_path : String

pub record PlatformCanConfig : Type 0 where
  pub interface : String
  pub bitrate : ℤ
  pub daemon_socket : String

pub record PlatformShmConfig : Type 0 where
  pub mit_command : String
  pub aux_command : String
  pub operator_command : String
  pub control_state : String
  pub dashboard_state : String

-- `type` is the field `imu_type`.
pub record PlatformImuConfig (F : Type 0) : Type 0 where
  pub imu_type : String
  pub request_id : ℤ
  pub quat_id : ℤ
  pub gyro_id : ℤ
  pub cmd_get_quat : ℤ
  pub cmd_get_gyro : ℤ
  pub cmd_get_all : ℤ
  pub quat_scale : F
  pub gyro_scale : F
  pub normalize_quat : Bool

pub record PlatformSpgMitConfig (F : Type 0) : Type 0 where
  pub p_max_rad : F
  pub v_max_rad_s : F
  pub kp_max : F
  pub kd_max : F
  pub tau_max_nm : F
  pub feedback_position_max_rad : F
  pub iq_full_scale_count : F
  pub iq_full_scale_current_a : F

pub record PlatformActuatorConfig (F : Type 0) : Type 0 where
  pub name : String
  pub enabled : Bool
  pub can_id : ℤ
  pub mujoco_joint : String
  pub mujoco_actuator : String
  pub sign : F
  pub offset_rad : F

pub record PlatformConfig (P F : Type 0) : Type 0 where
  pub path : P
  pub robot : PlatformRobotConfig
  pub robots : List (String × PlatformRobotAssetConfig)
  pub can : PlatformCanConfig
  pub shm : PlatformShmConfig
  pub imu : PlatformImuConfig F
  pub spg_mit : PlatformSpgMitConfig F
  pub actuators : List (PlatformActuatorConfig F)

unfoldable pub enabled_actuators :
    {P F : Type 0} → PlatformConfig P F → List (PlatformActuatorConfig F)
unfolding filter
enabled_actuators config = filter (λ a. a.enabled) config.actuators

-- `robots[key] = value`: a key that is there keeps its place.
unfoldable pub assign {ℓ} : {A : Type ℓ} → String → A → List (String × A) → List (String × A)
assign key value [] = (key, value) ∷ []
assign key value ((k, v) ∷ d) = if str_eq k key then (k, value) ∷ d else (k, v) ∷ assign key value d

module _ {F : Type 0} where
  unfoldable pub require_key : Entries F → String → Result (Yaml F)
  unfolding find_key
  require_key m key = find_key platform_config_error m key

  unfoldable pub require_mapping : Entries F → String → Result (Entries F)
  unfolding require_key
  require_mapping m key = require_key m key >>= as_mapping platform_config_error

  unfoldable pub require_list : Entries F → String → Result (List (Yaml F))
  unfolding require_key
  require_list m key = require_key m key >>= as_list platform_config_error

module _ (fl : Floats) (files : Files fl.F) where
  unfoldable pub load_yaml_mapping : files.FilePath → Result (Entries fl.F)
  load_yaml_mapping path = files.load path >>= as_mapping platform_config_error

  unfoldable pub resolve_config_path : files.FilePath → String → Result files.FilePath
  resolve_config_path base_path value =
      if is_empty_text value
      then err platform_config_error
      else let candidate = files.of_text value in
        ok (
          files.resolve
            (if files.is_absolute candidate then candidate else files.beside base_path candidate))
