-- ===== src/Config/Controller/Load.antt =====
-- robot_controller/core/config.py: reading the file of the robot controller and the list of processes.
-- The validation at the end of `load_robot_controller_config` is commented out in the code.
use Prim.Native.String.{String}
use sparq_control.Common.{List, [], ◌∷◌, ℤ, map, length}
use sparq_control.Common.Floats.{Floats}
use sparq_control.Common.Result.{Result, ok, ◌>>=◌, ◌>>◌, raise_if, config_error}
use sparq_control.Config.Yaml.{Yaml, Entries, entries, Builtins, to_str, as_mapping}
use sparq_control.Config.Platform.{
  Files, PlatformConfig, PlatformActuatorConfig, enabled_actuators, assign, load_yaml_mapping,
  resolve_config_path,
}
use sparq_control.Config.Platform.Load.{is_empty, load_platform_config}
use sparq_control.Config.Controller.{
  ProcessConfig, RobotStateShmConfig, ShmConfig, MotorConfig, ImuConfig, CanDaemonConfig, CanConfig,
  RobotControllerCoreConfig, HardwareSafetyConfig, SafetyPolicyConfig, RobotControllerConfig,
  require_mapping, require_list, require_bool, require_str, require_float, require_int,
  optional_float_or_none,
}

module _ (fl : Floats) (b : Builtins fl) where
  -- `{str(key): str(value) for key, value in env_raw.items()}`
  unfoldable pub text_entries :
      List (Yaml fl.F × Yaml fl.F) → List (String × String) → List (String × String)
  unfolding assign to_str
  text_entries [] d = d
  text_entries ((k, v) ∷ rest) d = text_entries rest (assign (to_str fl b k) (to_str fl b v) d)

  unfoldable pub process_config : Yaml fl.F → Result ProcessConfig
  unfolding require_mapping require_list require_bool require_str require_int text_entries to_str
  process_config value = do
    item ← as_mapping config_error value
    command ← require_list item "command"
    raise_if (is_empty command) config_error
    env_raw ← require_mapping item "env"
    name ← require_str fl b item "name"
    start_order ← require_int fl b item "start_order"
    stop_order ← require_int fl b item "stop_order"
    new_terminal ← require_bool item "new_terminal"
    terminal_command ← require_list item "terminal_command"
    working_dir ← require_str fl b item "working_dir"
    ok (record {
      name = name;
      command = map (to_str fl b) command;
      start_order = start_order;
      stop_order = stop_order;
      new_terminal = new_terminal;
      terminal_command = map (to_str fl b) terminal_command;
      working_dir = working_dir;
      env = text_entries (entries env_raw) [];
    })

  -- The comprehension of `_load_processes`.
  unfoldable pub process_configs : List (Yaml fl.F) → Result (List ProcessConfig)
  unfolding process_config
  process_configs [] = ok []
  process_configs (value ∷ rest) = do
    process ← process_config value
    processes ← process_configs rest
    ok (process ∷ processes)

  unfoldable pub load_processes :
      (files : Files fl.F) → files.FilePath → Result (List ProcessConfig)
  unfolding load_yaml_mapping require_list process_configs
  load_processes files path = do
    raw ← load_yaml_mapping fl files path
    values ← require_list raw "processes"
    process_configs values

  unfoldable pub load_hardware : Entries fl.F → Result HardwareSafetyConfig
  unfolding require_bool require_str require_float require_int require_list optional_float_or_none
      to_str
  load_hardware hardware_raw = do
    allow_real_can ← require_bool hardware_raw "allow_real_can"
    require_manual_arm ← require_bool hardware_raw "require_manual_arm"
    require_estop ← require_bool hardware_raw "require_estop"
    allow_enable_on_start ← require_bool hardware_raw "allow_enable_on_start"
    allowed_can_interfaces ← require_list hardware_raw "allowed_can_interfaces"
    ok (record {
      allow_real_can = allow_real_can;
      require_manual_arm = require_manual_arm;
      require_estop = require_estop;
      allow_enable_on_start = allow_enable_on_start;
      allowed_can_interfaces = map (to_str fl b) allowed_can_interfaces;
    })

  unfoldable pub load_safety : Entries fl.F → Result (SafetyPolicyConfig fl.F)
  unfolding require_bool require_str require_float require_int require_list optional_float_or_none
      to_str
  load_safety safety_raw = do
    velocity_damping_kd ← require_float fl b safety_raw "velocity_damping_kd"
    damping_timeout_s ← require_float fl b safety_raw "damping_timeout_s"
    command_loss_action ← require_str fl b safety_raw "command_loss_action"
    feedback_stale_action ← require_str fl b safety_raw "feedback_stale_action"
    ok (record {
      velocity_damping_kd = velocity_damping_kd;
      damping_timeout_s = damping_timeout_s;
      command_loss_action = command_loss_action;
      feedback_stale_action = feedback_stale_action;
    })

  unfoldable pub load_core : Entries fl.F → Result (RobotControllerCoreConfig fl.F)
  unfolding require_bool require_str require_float require_int require_list optional_float_or_none
      to_str
  load_core core_raw = do
    name ← require_str fl b core_raw "name"
    control_hz ← require_float fl b core_raw "control_hz"
    shutdown_timeout_s ← require_float fl b core_raw "shutdown_timeout_s"
    ok (record { name = name; control_hz = control_hz; shutdown_timeout_s = shutdown_timeout_s })

  unfoldable pub load_segment : String → Entries fl.F → Result (RobotStateShmConfig fl.F)
  unfolding require_bool require_str require_float require_int require_list optional_float_or_none
      to_str
  load_segment name raw = do
    size_bytes ← require_int fl b raw "size_bytes"
    publish_hz ← require_float fl b raw "publish_hz"
    ok (record { name = name; size_bytes = size_bytes; publish_hz = publish_hz })

  -- The argument `shm` of the configuration.
  unfoldable pub load_shm :
      {P : Type 0}
      → PlatformConfig P fl.F
      → Entries fl.F
      → Entries fl.F
      → Entries fl.F
      → Entries fl.F
      → Entries fl.F
      → Result (ShmConfig fl.F)
  unfolding load_segment require_bool require_int enabled_actuators
  load_shm platform shm_raw aux_command_raw operator_command_raw control_state_raw
        dashboard_state_raw =
      do
        cleanup_stale_on_start ← require_bool shm_raw "cleanup_stale_on_start"
        unlink_on_shutdown ← require_bool shm_raw "unlink_on_shutdown"
        aux_command ← load_segment platform.shm.aux_command aux_command_raw
        size_bytes ← require_int fl b operator_command_raw "size_bytes"
        control_state ← load_segment platform.shm.control_state control_state_raw
        dashboard_state ← load_segment platform.shm.dashboard_state dashboard_state_raw
        ok (record {
          cleanup_stale_on_start = cleanup_stale_on_start;
          unlink_on_shutdown = unlink_on_shutdown;
          mit_command = record {
            name = platform.shm.mit_command;
            target_count = length (enabled_actuators platform);
          };
          aux_command = aux_command;
          operator_command = record {
            name = platform.shm.operator_command;
            size_bytes = size_bytes;
          };
          control_state = control_state;
          dashboard_state = dashboard_state;
        })

  unfoldable pub load_daemon : String → Entries fl.F → Result (CanDaemonConfig fl.F)
  unfolding require_bool require_str require_float require_int require_list optional_float_or_none
      to_str
  load_daemon daemon_socket daemon_raw = do
    rx_timeout_s ← require_float fl b daemon_raw "rx_timeout_s"
    tx_timeout_s ← require_float fl b daemon_raw "tx_timeout_s"
    join_timeout_s ← require_float fl b daemon_raw "join_timeout_s"
    max_tx_queue_size ← require_int fl b daemon_raw "max_tx_queue_size"
    send_block ← require_bool daemon_raw "send_block"
    send_timeout_s ← optional_float_or_none fl b daemon_raw "send_timeout_s"
    connect_timeout_s ← require_float fl b daemon_raw "connect_timeout_s"
    ok (record {
      rx_timeout_s = rx_timeout_s;
      tx_timeout_s = tx_timeout_s;
      join_timeout_s = join_timeout_s;
      max_tx_queue_size = max_tx_queue_size;
      send_block = send_block;
      send_timeout_s = send_timeout_s;
      ipc_socket_path = daemon_socket;
      connect_timeout_s = connect_timeout_s;
    })

  unfoldable pub load_motors : List ℤ → Entries fl.F → Result MotorConfig
  unfolding require_bool require_str require_float require_int require_list optional_float_or_none
      to_str
  load_motors can_ids motors_raw = do
    enter_on_start ← require_bool motors_raw "enter_on_start"
    exit_on_shutdown ← require_bool motors_raw "exit_on_shutdown"
    set_zero_on_start ← require_bool motors_raw "set_zero_on_start"
    ok (record {
      can_ids = can_ids;
      enter_on_start = enter_on_start;
      exit_on_shutdown = exit_on_shutdown;
      set_zero_on_start = set_zero_on_start;
    })

  unfoldable pub load_imu : Entries fl.F → Result (ImuConfig fl.F)
  unfolding require_bool require_str require_float require_int require_list optional_float_or_none
      to_str
  load_imu imu_raw = do
    enabled ← require_bool imu_raw "enabled"
    request_all_on_start ← require_bool imu_raw "request_all_on_start"
    request_all_each_tick ← require_bool imu_raw "request_all_each_tick"
    startup_request_count ← require_int fl b imu_raw "startup_request_count"
    startup_request_delay_s ← require_float fl b imu_raw "startup_request_delay_s"
    ok (record {
      enabled = enabled;
      request_all_on_start = request_all_on_start;
      request_all_each_tick = request_all_each_tick;
      startup_request_count = startup_request_count;
      startup_request_delay_s = startup_request_delay_s;
    })

  -- The argument `can` of the configuration.
  unfoldable pub load_can :
      {P : Type 0}
      → PlatformConfig P fl.F
      → Entries fl.F
      → Entries fl.F
      → Entries fl.F
      → Entries fl.F
      → Result (CanConfig fl.F)
  unfolding require_float load_daemon load_motors load_imu enabled_actuators
  load_can platform can_raw daemon_raw motors_raw imu_raw = do
    command_timeout_s ← require_float fl b can_raw "command_timeout_s"
    bringup_delay_s ← require_float fl b can_raw "bringup_delay_s"
    daemon ← load_daemon platform.can.daemon_socket daemon_raw
    motors ←
        load_motors
          (map (λ (a : PlatformActuatorConfig fl.F). a.can_id) (enabled_actuators platform))
          motors_raw
    imu ← load_imu imu_raw
    ok (record {
      interface = platform.can.interface;
      command_timeout_s = command_timeout_s;
      bringup_delay_s = bringup_delay_s;
      daemon = daemon;
      motors = motors;
      imu = imu;
      mit_protocol_range = record {
        position_rad = platform.spg_mit.p_max_rad;
        velocity_rad_s = platform.spg_mit.v_max_rad_s;
        kp = platform.spg_mit.kp_max;
        kd = platform.spg_mit.kd_max;
        torque_ff_nm = platform.spg_mit.tau_max_nm;
        feedback_position_rad = platform.spg_mit.feedback_position_max_rad;
      };
    })

module _ (fl : Floats) (b : Builtins fl) (files : Files fl.F) where
  -- `load_robot_controller_config` on the mapping of the file, after the platform is loaded.
  unfoldable pub load_with_platform :
      files.FilePath
      → Entries fl.F
      → PlatformConfig files.FilePath fl.F
      → Result (RobotControllerConfig files.FilePath fl.F)
  unfolding require_mapping require_str require_float resolve_config_path load_processes
      load_hardware load_safety load_core load_shm load_can
  load_with_platform config_path raw platform = do
    runtime_raw ← require_mapping raw "runtime"
    hardware_raw ← require_mapping raw "hardware"
    safety_raw ← require_mapping raw "safety"
    state_machine_raw ← require_mapping raw "state_machine"
    core_raw ← require_mapping raw "robot_controller"
    shm_raw ← require_mapping raw "shm"
    aux_command_raw ← require_mapping shm_raw "aux_command"
    operator_command_raw ← require_mapping shm_raw "operator_command"
    control_state_raw ← require_mapping shm_raw "control_state"
    dashboard_state_raw ← require_mapping shm_raw "dashboard_state"
    can_raw ← require_mapping raw "can"
    daemon_raw ← require_mapping can_raw "daemon"
    motors_raw ← require_mapping can_raw "motors"
    imu_raw ← require_mapping can_raw "imu"
    processes_name ← require_str fl b raw "processes_config"
    processes_config_path ← resolve_config_path fl files config_path processes_name
    processes ← load_processes fl b files processes_config_path
    mode ← require_str fl b runtime_raw "mode"
    hardware ← load_hardware fl b hardware_raw
    safety ← load_safety fl b safety_raw
    enable_duration_s ← require_float fl b state_machine_raw "enable_duration_s"
    core ← load_core fl b core_raw
    shm ←
        load_shm fl b platform shm_raw aux_command_raw operator_command_raw control_state_raw
          dashboard_state_raw
    can ← load_can fl b platform can_raw daemon_raw motors_raw imu_raw
    ok (record {
      platform = platform;
      runtime = record { mode = mode };
      hardware = hardware;
      safety = safety;
      state_machine = record { enable_duration_s = enable_duration_s };
      robot_controller = core;
      shm = shm;
      can = can;
      processes = processes;
    })

  unfoldable pub load_robot_controller_config :
      String → Result (RobotControllerConfig files.FilePath fl.F)
  unfolding load_yaml_mapping require_str resolve_config_path load_platform_config
      load_with_platform
  load_robot_controller_config path =
      let config_path = files.of_text path in
      do
        raw ← load_yaml_mapping fl files config_path
        platform_name ← require_str fl b raw "platform_config"
        platform_config_path ← resolve_config_path fl files config_path platform_name
        platform ← load_platform_config fl b files platform_config_path
        load_with_platform config_path raw platform
