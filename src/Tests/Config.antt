-- ===== src/Tests/Config.antt =====
-- Tests of the modules for the configuration: a small platform file, a file of the controller and a list
-- of processes, and what is read from them.
use Prim.Native.String.{String}
use text.Mathlib.Text.{◌==◌ as str_eq}
use sparq_control.Common.{
  ℤ, pos, true, false, [], ◌∷◌, ◌&&◌, map, any, eq_ℤ, is_distinct, none, if◌then◌else◌, ◌≡◌, refl,
}
use sparq_control.Common.Result.{
  Result, ok, err, value_error, os_error, platform_config_error, Ensures,
}
use sparq_control.Config.Yaml.{
  Yaml, null_value, bool_value, int_value, float_value, text_value, list_value, mapping_value,
  no_items, item, no_entries, entry, Builtins,
}
use sparq_control.Config.Platform.{Files, PlatformActuatorConfig}
use sparq_control.Config.Platform.Load.{parse_actuators}
use sparq_control.Config.Platform.Distinct.{
  actuator_value, names, can_ids, parse_actuators-documents,
}
use sparq_control.Config.Controller.{RobotControllerConfig}
use sparq_control.Config.Controller.Load.{load_robot_controller_config}
use sparq_control.Config.Controller.Loaded.{Loaded, load_robot_controller_config-Loaded}
use sparq_control.Config.Controller.Validate.{core_checks, range_checks, validate_config}
use sparq_control.Config.Controller.Valid.{verdict, is_sound, validate_config-Loaded}
use sparq_control.Tests.Numbers.{integers}

-- Conversions of a program that reads no number from a text.
abbrev builtins : Builtins integers
builtins = record {
  int_of_text = λ s. err value_error;
  int0_of_text = λ s. err value_error;
  float_of_text = λ s. err value_error;
  int_of_float = λ x. ok x;
  str_of = λ v. "";
}

abbrev hip : PlatformActuatorConfig ℤ
hip = record {
  name = "FL_HR";
  enabled = true;
  can_id = pos 1;
  mujoco_joint = "FL_HR";
  mujoco_actuator = "FL_HR_motor";
  sign = pos 1;
  offset_rad = pos 0;
}

abbrev knee : PlatformActuatorConfig ℤ
knee = record hip { name = "FL_KP"; can_id = pos 3; enabled = false }

abbrev platform_document : Yaml ℤ
platform_document = mapping_value (
    entry (text_value "robot")
      (mapping_value (entry (text_value "name") (text_value "SPARQ") no_entries))
      (entry (text_value "robots")
        (mapping_value (
          entry (text_value "SPARQ")
            (mapping_value (
              entry (text_value "model_path") (text_value "m") (
                entry (text_value "policy_config_dir") (text_value "d")
                  (entry (text_value "pd_config_path") (text_value "p") no_entries))))
            no_entries))
        (entry (text_value "can")
          (mapping_value (
            entry (text_value "interface") (text_value "vcan0") (
              entry (text_value "bitrate") (int_value (pos 1000000))
                (entry (text_value "daemon_socket") (text_value "/tmp/s") no_entries))))
          (entry (text_value "shm")
            (mapping_value (
              entry (text_value "mit_command") (text_value "mit_command") (
                entry (text_value "aux_command") (text_value "aux_command") (
                  entry (text_value "operator_command") (text_value "operator_command") (
                    entry (text_value "control_state") (text_value "control_state") (
                      entry (text_value "dashboard_state") (text_value "dashboard_state")
                        no_entries))))))
            (entry (text_value "imu")
              (mapping_value (
                entry (text_value "type") (text_value "e2box") (
                  entry (text_value "request_id") (int_value (pos 545)) (
                    entry (text_value "quat_id") (int_value (pos 673)) (
                      entry (text_value "gyro_id") (int_value (pos 801)) (
                        entry (text_value "cmd_get_quat") (int_value (pos 1)) (
                          entry (text_value "cmd_get_gyro") (int_value (pos 2)) (
                            entry (text_value "cmd_get_all") (int_value (pos 3)) (
                              entry (text_value "quat_scale") (float_value (pos 10000)) (
                                entry (text_value "gyro_scale") (float_value (pos 100)) (
                                  entry (text_value "normalize_quat") (bool_value true)
                                    no_entries)))))))))))
              (entry (text_value "spg_mit")
                (mapping_value (
                  entry (text_value "p_max_rad") (float_value (pos 12)) (
                    entry (text_value "v_max_rad_s") (float_value (pos 45)) (
                      entry (text_value "kp_max") (float_value (pos 500)) (
                        entry (text_value "kd_max") (float_value (pos 5)) (
                          entry (text_value "tau_max_nm") (float_value (pos 33)) (
                            entry (text_value "feedback_position_max_rad") (float_value (pos 12)) (
                              entry (text_value "iq_full_scale_count") (float_value (pos 2048)) (
                                entry (text_value "iq_full_scale_current_a") (float_value (pos 33))
                                  no_entries)))))))))
                (entry (text_value "actuators")
                  (list_value (
                    item (actuator_value integers builtins hip)
                      (item (actuator_value integers builtins knee) no_items)))
                  no_entries)))))))

abbrev controller_document : Yaml ℤ
controller_document = mapping_value (
    entry (text_value "platform_config") (text_value "platform.yaml") (
      entry (text_value "processes_config") (text_value "processes.yaml") (
        entry (text_value "runtime")
          (mapping_value (entry (text_value "mode") (text_value "simulation") no_entries))
          (entry (text_value "hardware")
            (mapping_value (
              entry (text_value "allow_real_can") (bool_value true) (
                entry (text_value "require_manual_arm") (bool_value true) (
                  entry (text_value "require_estop") (bool_value true) (
                    entry (text_value "allow_enable_on_start") (bool_value true) (
                      entry (text_value "allowed_can_interfaces")
                        (list_value (item (text_value "vcan0") no_items)) no_entries))))))
            (entry (text_value "safety")
              (mapping_value (
                entry (text_value "velocity_damping_kd") (float_value (pos 1)) (
                  entry (text_value "damping_timeout_s") (int_value (pos 1)) (
                    entry (text_value "command_loss_action") (text_value "damping") (
                      entry (text_value "feedback_stale_action") (text_value "fault")
                        no_entries)))))
              (entry (text_value "state_machine")
                (mapping_value
                  (entry (text_value "enable_duration_s") (float_value (pos 0)) no_entries))
                (entry (text_value "robot_controller")
                  (mapping_value (
                    entry (text_value "name") (text_value "c") (
                      entry (text_value "control_hz") (int_value (pos 500)) (
                        entry (text_value "shutdown_timeout_s") (float_value (pos 2)) no_entries))))
                  (entry (text_value "shm")
                    (mapping_value (
                      entry (text_value "cleanup_stale_on_start") (bool_value true) (
                        entry (text_value "unlink_on_shutdown") (bool_value true) (
                          entry (text_value "aux_command")
                            (mapping_value (
                              entry (text_value "size_bytes") (int_value (pos 4096))
                                (entry (text_value "publish_hz") (int_value (pos 100)) no_entries)))
                            (entry (text_value "operator_command")
                              (mapping_value
                                (entry (text_value "size_bytes") (int_value (pos 4096)) no_entries))
                              (entry (text_value "control_state")
                                (mapping_value (
                                  entry (text_value "size_bytes") (int_value (pos 16384)) (
                                    entry (text_value "publish_hz") (int_value (pos 500))
                                      no_entries)))
                                (entry (text_value "dashboard_state")
                                  (mapping_value (
                                    entry (text_value "size_bytes") (int_value (pos 65536)) (
                                      entry (text_value "publish_hz") (int_value (pos 10))
                                        no_entries)))
                                  no_entries)))))))
                    (entry (text_value "can")
                      (mapping_value (
                        entry (text_value "command_timeout_s") (float_value (pos 1)) (
                          entry (text_value "bringup_delay_s") (float_value (pos 0)) (
                            entry (text_value "daemon")
                              (mapping_value (
                                entry (text_value "rx_timeout_s") (float_value (pos 0)) (
                                  entry (text_value "tx_timeout_s") (float_value (pos 0)) (
                                    entry (text_value "join_timeout_s") (float_value (pos 1)) (
                                      entry (text_value "max_tx_queue_size") (int_value (pos 4096))
                                        (entry (text_value "send_block") (bool_value false) (
                                          entry (text_value "send_timeout_s") null_value (
                                            entry (text_value "connect_timeout_s")
                                              (float_value (pos 5)) no_entries))))))))
                              (entry (text_value "motors")
                                (mapping_value (
                                  entry (text_value "enter_on_start") (bool_value false) (
                                    entry (text_value "exit_on_shutdown") (bool_value true) (
                                      entry (text_value "set_zero_on_start") (bool_value false)
                                        no_entries))))
                                (entry (text_value "imu")
                                  (mapping_value (
                                    entry (text_value "enabled") (bool_value true) (
                                      entry (text_value "request_all_on_start") (bool_value true) (
                                        entry (text_value "request_all_each_tick") (bool_value true)
                                          (entry (text_value "startup_request_count")
                                            (int_value (pos 3))
                                            (entry (text_value "startup_request_delay_s")
                                              (float_value (pos 0)) no_entries))))))
                                  no_entries))))))
                      no_entries)))))))))

abbrev processes_document : Yaml ℤ
processes_document = mapping_value (
    entry (text_value "processes")
      (list_value (
        item
          (mapping_value (
            entry (text_value "name") (text_value "sparq_can") (
              entry (text_value "command") (list_value (item (text_value "python3") no_items)) (
                entry (text_value "start_order") (int_value (pos 10)) (
                  entry (text_value "stop_order") (int_value (pos 90)) (
                    entry (text_value "new_terminal") (bool_value true) (
                      entry (text_value "terminal_command")
                        (list_value (item (text_value "gnome-terminal") no_items))
                        (entry (text_value "working_dir") (text_value ".")
                          (entry (text_value "env") (mapping_value (no_entries)) no_entries)))))))))
          no_items))
      no_entries)

abbrev document : String → Result (Yaml ℤ)
document path =
    if str_eq path "platform.yaml"
    then ok platform_document
    else if str_eq path "processes.yaml"
    then ok processes_document
    else if str_eq path "controller.yaml"
    then ok controller_document
    else err os_error

abbrev files : Files ℤ
files = record {
  FilePath = String;
  of_text = λ s. s;
  is_absolute = λ p. false;
  beside = λ base p. p;
  resolve = λ p. p;
  load = document;
}

-- What is read from the three documents.
abbrev some_config : RobotControllerConfig String ℤ
some_config = record {
  platform = record {
    path = "platform.yaml";
    robot = record { name = "SPARQ" };
    robots =
        ("SPARQ", record { model_path = "m"; policy_config_dir = "d"; pd_config_path = "p" }) ∷ [];
    can = record { interface = "vcan0"; bitrate = pos 1000000; daemon_socket = "/tmp/s" };
    shm = record {
      mit_command = "mit_command";
      aux_command = "aux_command";
      operator_command = "operator_command";
      control_state = "control_state";
      dashboard_state = "dashboard_state";
    };
    imu = record {
      imu_type = "e2box";
      request_id = pos 0x221;
      quat_id = pos 0x2A1;
      gyro_id = pos 0x321;
      cmd_get_quat = pos 1;
      cmd_get_gyro = pos 2;
      cmd_get_all = pos 3;
      quat_scale = pos 10000;
      gyro_scale = pos 100;
      normalize_quat = true;
    };
    spg_mit = record {
      p_max_rad = pos 12;
      v_max_rad_s = pos 45;
      kp_max = pos 500;
      kd_max = pos 5;
      tau_max_nm = pos 33;
      feedback_position_max_rad = pos 12;
      iq_full_scale_count = pos 2048;
      iq_full_scale_current_a = pos 33;
    };
    actuators = hip ∷ knee ∷ [];
  };
  runtime = record { mode = "simulation" };
  hardware = record {
    allow_real_can = true;
    require_manual_arm = true;
    require_estop = true;
    allow_enable_on_start = true;
    allowed_can_interfaces = "vcan0" ∷ [];
  };
  safety = record {
    velocity_damping_kd = pos 1;
    damping_timeout_s = pos 1;
    command_loss_action = "damping";
    feedback_stale_action = "fault";
  };
  state_machine = record { enable_duration_s = pos 0 };
  robot_controller = record { name = "c"; control_hz = pos 500; shutdown_timeout_s = pos 2 };
  shm = record {
    cleanup_stale_on_start = true;
    unlink_on_shutdown = true;
    mit_command = record { name = "mit_command"; target_count = 1 };
    aux_command = record { name = "aux_command"; size_bytes = pos 4096; publish_hz = pos 100 };
    operator_command = record { name = "operator_command"; size_bytes = pos 4096 };
    control_state = record { name = "control_state"; size_bytes = pos 16384; publish_hz = pos 500 };
    dashboard_state = record {
      name = "dashboard_state";
      size_bytes = pos 65536;
      publish_hz = pos 10;
    };
  };
  can = record {
    interface = "vcan0";
    command_timeout_s = pos 1;
    bringup_delay_s = pos 0;
    daemon = record {
      rx_timeout_s = pos 0;
      tx_timeout_s = pos 0;
      join_timeout_s = pos 1;
      max_tx_queue_size = pos 4096;
      send_block = false;
      send_timeout_s = none;
      ipc_socket_path = "/tmp/s";
      connect_timeout_s = pos 5;
    };
    motors = record {
      can_ids = pos 1 ∷ [];
      enter_on_start = false;
      exit_on_shutdown = true;
      set_zero_on_start = false;
    };
    imu = record {
      enabled = true;
      request_all_on_start = true;
      request_all_each_tick = true;
      startup_request_count = pos 3;
      startup_request_delay_s = pos 0;
    };
    mit_protocol_range = record {
      position_rad = pos 12;
      velocity_rad_s = pos 45;
      kp = pos 500;
      kd = pos 5;
      torque_ff_nm = pos 33;
      feedback_position_rad = pos 12;
    };
  };
  processes =
      record {
        name = "sparq_can";
        command = "python3" ∷ [];
        start_order = pos 10;
        stop_order = pos 90;
        new_terminal = true;
        terminal_command = "gnome-terminal" ∷ [];
        working_dir = ".";
        env = [];
      }
      ∷ [];
}

loads : load_robot_controller_config integers builtins files "controller.yaml" ≡ ok some_config
unfolding load_robot_controller_config
loads = refl

load_robot_controller_config-Loaded_example :
    Ensures
      (Loaded integers builtins)
      (load_robot_controller_config integers builtins files "controller.yaml")
load_robot_controller_config-Loaded_example =
    load_robot_controller_config-Loaded integers builtins files "controller.yaml"

some_config-Loaded : Loaded integers builtins some_config
unfolding load_robot_controller_config
some_config-Loaded = load_robot_controller_config-Loaded integers builtins files "controller.yaml"

-- Without a process "can_daemon" the validation would refuse the configuration.
validate_config-Loaded_example :
    validate_config integers some_config ≡ verdict (is_sound integers some_config)
validate_config-Loaded_example =
    validate_config-Loaded integers builtins some_config some_config-Loaded

some_config_refused : is_sound integers some_config ≡ false
unfolding core_checks range_checks
some_config_refused = refl

parse_actuators-documents_example :
    parse_actuators integers builtins (map (actuator_value integers builtins) (hip ∷ knee ∷ [])) ≡ (
      if is_distinct str_eq (names integers builtins (hip ∷ knee ∷ []))
        && is_distinct eq_ℤ (can_ids integers builtins (hip ∷ knee ∷ []))
        && any (λ a. a.enabled) (hip ∷ knee ∷ [])
      then ok (hip ∷ knee ∷ [])
      else err platform_config_error)
parse_actuators-documents_example = parse_actuators-documents integers builtins (hip ∷ knee ∷ [])
