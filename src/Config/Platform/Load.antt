-- ===== src/Config/Platform/Load.antt =====
-- robot_controller/core/platform_config.py: reading the parts of the platform file.
use Prim.Native.String.{String}
use text.Mathlib.Text.{◌==◌ as str_eq}
use sparq_control.Common.{Bool, true, false, not, List, [], ◌∷◌, ℤ, any, eq_ℤ}
use sparq_control.Common.Floats.{Floats}
use sparq_control.Common.Result.{Result, ok, ◌>>=◌, ◌>>◌, raise_if, platform_config_error}
use sparq_control.Config.Yaml.{
  Yaml, Entries, entries, Builtins, to_str, to_int, parse_int, to_float, to_bool, as_mapping,
}
use sparq_control.Config.Platform.{
  Files, PlatformRobotAssetConfig, PlatformCanConfig, PlatformShmConfig, PlatformImuConfig,
  PlatformSpgMitConfig, PlatformActuatorConfig, PlatformConfig, assign, require_key,
  require_mapping, require_list, load_yaml_mapping,
}

-- `len(xs) == 0`
abbrev pub is_empty {ℓ} : {A : Type ℓ} → List A → Bool
is_empty [] = true
is_empty (x ∷ xs) = false

module _ (fl : Floats) (b : Builtins fl) where
  -- `str(require_key(m, key, ...))`, and so with the other conversions
  unfoldable pub require_str : Entries fl.F → String → Result String
  unfolding require_key to_str
  require_str m key = require_key m key >>= λ v. ok (to_str fl b v)

  unfoldable pub require_int : Entries fl.F → String → Result ℤ
  unfolding require_key to_int
  require_int m key = require_key m key >>= to_int fl b

  unfoldable pub require_parsed_int : Entries fl.F → String → Result ℤ
  unfolding require_key parse_int
  require_parsed_int m key = require_key m key >>= parse_int fl b

  unfoldable pub require_float : Entries fl.F → String → Result fl.F
  unfolding require_key to_float
  require_float m key = require_key m key >>= to_float fl b

  unfoldable pub require_bool : Entries fl.F → String → Result Bool
  unfolding require_key to_bool
  require_bool m key = require_key m key >>= λ v. ok (to_bool fl b v)

  unfoldable pub parse_robot_asset : Entries fl.F → Result PlatformRobotAssetConfig
  unfolding require_str
  parse_robot_asset item = do
    model_path ← require_str item "model_path"
    policy_config_dir ← require_str item "policy_config_dir"
    pd_config_path ← require_str item "pd_config_path"
    ok (record {
      model_path = model_path;
      policy_config_dir = policy_config_dir;
      pd_config_path = pd_config_path;
    })

  -- The loop of `parse_robot_assets`, with the dict so far.
  unfoldable pub parse_robot_entries :
      List (Yaml fl.F × Yaml fl.F)
      → List (String × PlatformRobotAssetConfig)
      → Result (List (String × PlatformRobotAssetConfig))
  unfolding parse_robot_asset assign to_str
  parse_robot_entries [] robots = ok robots
  parse_robot_entries ((name, item) ∷ rest) robots = do
    fields ← as_mapping platform_config_error item
    asset ← parse_robot_asset fields
    parse_robot_entries rest (assign (to_str fl b name) asset robots)

  unfoldable pub parse_robot_assets :
      Entries fl.F → Result (List (String × PlatformRobotAssetConfig))
  unfolding parse_robot_entries
  parse_robot_assets raw = do
    robots ← parse_robot_entries (entries raw) []
    raise_if (is_empty robots) platform_config_error
    ok robots

  -- The fields of an actuator after the checks on its name and id.
  unfoldable pub parse_actuator : String → ℤ → Entries fl.F → Result (PlatformActuatorConfig fl.F)
  unfolding require_bool require_str require_float
  parse_actuator name can_id item = do
    enabled ← require_bool item "enabled"
    mujoco_joint ← require_str item "mujoco_joint"
    mujoco_actuator ← require_str item "mujoco_actuator"
    sign ← require_float item "sign"
    offset_rad ← require_float item "offset_rad"
    ok (record {
      name = name;
      enabled = enabled;
      can_id = can_id;
      mujoco_joint = mujoco_joint;
      mujoco_actuator = mujoco_actuator;
      sign = sign;
      offset_rad = offset_rad;
    })

  -- The loop of `parse_actuators`, with `seen_names` and `seen_can_ids`.
  unfoldable pub parse_each :
      List (Yaml fl.F) → List String → List ℤ → Result (List (PlatformActuatorConfig fl.F))
  unfolding parse_actuator require_str require_parsed_int
  parse_each [] seen_names seen_can_ids = ok []
  parse_each (value ∷ rest) seen_names seen_can_ids = do
    item ← as_mapping platform_config_error value
    name ← require_str item "name"
    can_id ← require_parsed_int item "can_id"
    raise_if (any (str_eq name) seen_names) platform_config_error
    raise_if (any (eq_ℤ can_id) seen_can_ids) platform_config_error
    actuator ← parse_actuator name can_id item
    actuators ← parse_each rest (name ∷ seen_names) (can_id ∷ seen_can_ids)
    ok (actuator ∷ actuators)

  unfoldable pub parse_actuators : List (Yaml fl.F) → Result (List (PlatformActuatorConfig fl.F))
  unfolding parse_each
  parse_actuators raw = do
    actuators ← parse_each raw [] []
    raise_if (is_empty actuators) platform_config_error
    raise_if (not (any (λ a. a.enabled) actuators)) platform_config_error
    ok actuators

  unfoldable pub parse_can : Entries fl.F → Result PlatformCanConfig
  unfolding require_str require_int
  parse_can can_raw = do
    interface ← require_str can_raw "interface"
    bitrate ← require_int can_raw "bitrate"
    daemon_socket ← require_str can_raw "daemon_socket"
    ok (record { interface = interface; bitrate = bitrate; daemon_socket = daemon_socket })

  unfoldable pub parse_shm : Entries fl.F → Result PlatformShmConfig
  unfolding require_str
  parse_shm shm_raw = do
    mit_command ← require_str shm_raw "mit_command"
    aux_command ← require_str shm_raw "aux_command"
    operator_command ← require_str shm_raw "operator_command"
    control_state ← require_str shm_raw "control_state"
    dashboard_state ← require_str shm_raw "dashboard_state"
    ok (record {
      mit_command = mit_command;
      aux_command = aux_command;
      operator_command = operator_command;
      control_state = control_state;
      dashboard_state = dashboard_state;
    })

  unfoldable pub parse_imu : Entries fl.F → Result (PlatformImuConfig fl.F)
  unfolding require_str require_parsed_int require_float require_bool
  parse_imu imu_raw = do
    imu_type ← require_str imu_raw "type"
    request_id ← require_parsed_int imu_raw "request_id"
    quat_id ← require_parsed_int imu_raw "quat_id"
    gyro_id ← require_parsed_int imu_raw "gyro_id"
    cmd_get_quat ← require_parsed_int imu_raw "cmd_get_quat"
    cmd_get_gyro ← require_parsed_int imu_raw "cmd_get_gyro"
    cmd_get_all ← require_parsed_int imu_raw "cmd_get_all"
    quat_scale ← require_float imu_raw "quat_scale"
    gyro_scale ← require_float imu_raw "gyro_scale"
    normalize_quat ← require_bool imu_raw "normalize_quat"
    ok (record {
      imu_type = imu_type;
      request_id = request_id;
      quat_id = quat_id;
      gyro_id = gyro_id;
      cmd_get_quat = cmd_get_quat;
      cmd_get_gyro = cmd_get_gyro;
      cmd_get_all = cmd_get_all;
      quat_scale = quat_scale;
      gyro_scale = gyro_scale;
      normalize_quat = normalize_quat;
    })

  unfoldable pub parse_spg_mit : Entries fl.F → Result (PlatformSpgMitConfig fl.F)
  unfolding require_float
  parse_spg_mit spg_raw = do
    p_max_rad ← require_float spg_raw "p_max_rad"
    v_max_rad_s ← require_float spg_raw "v_max_rad_s"
    kp_max ← require_float spg_raw "kp_max"
    kd_max ← require_float spg_raw "kd_max"
    tau_max_nm ← require_float spg_raw "tau_max_nm"
    feedback_position_max_rad ← require_float spg_raw "feedback_position_max_rad"
    iq_full_scale_count ← require_float spg_raw "iq_full_scale_count"
    iq_full_scale_current_a ← require_float spg_raw "iq_full_scale_current_a"
    ok (record {
      p_max_rad = p_max_rad;
      v_max_rad_s = v_max_rad_s;
      kp_max = kp_max;
      kd_max = kd_max;
      tau_max_nm = tau_max_nm;
      feedback_position_max_rad = feedback_position_max_rad;
      iq_full_scale_count = iq_full_scale_count;
      iq_full_scale_current_a = iq_full_scale_current_a;
    })

module _ (fl : Floats) (b : Builtins fl) (files : Files fl.F) where
  unfoldable pub load_platform_config : files.FilePath → Result (PlatformConfig files.FilePath fl.F)
  unfolding load_yaml_mapping require_mapping require_list require_str parse_robot_assets parse_can
      parse_shm parse_imu parse_spg_mit parse_actuators
  load_platform_config path =
      let config_path = files.resolve path in
      do
        raw ← load_yaml_mapping fl files config_path
        robot_raw ← require_mapping raw "robot"
        can_raw ← require_mapping raw "can"
        shm_raw ← require_mapping raw "shm"
        imu_raw ← require_mapping raw "imu"
        spg_raw ← require_mapping raw "spg_mit"
        name ← require_str fl b robot_raw "name"
        robots_raw ← require_mapping raw "robots"
        robots ← parse_robot_assets fl b robots_raw
        can ← parse_can fl b can_raw
        shm ← parse_shm fl b shm_raw
        imu ← parse_imu fl b imu_raw
        spg_mit ← parse_spg_mit fl b spg_raw
        actuators_raw ← require_list raw "actuators"
        actuators ← parse_actuators fl b actuators_raw
        raise_if (not (any (λ e. str_eq e.0 name) robots)) platform_config_error
        ok (record {
          path = config_path;
          robot = record { name = name };
          robots = robots;
          can = can;
          shm = shm;
          imu = imu;
          spg_mit = spg_mit;
          actuators = actuators;
        })
