-- ===== src/Config/Controller/Loaded.antt =====
-- robot_controller/core/config.py: what every configuration satisfies that
-- `load_robot_controller_config` gives back.
use Prim.Native.String.{String}
use text.Mathlib.Text.{◌==◌ as str_eq}
use sparq_control.Common.{
  Bool, true, false, not, List, [], ◌∷◌, ℤ, map, length, any, all, eq_ℤ, is_distinct, filter, ◌≡◌,
  refl, arith, ◌∙◌, sym,
}
use sparq_control.Common.Floats.{Floats}
use sparq_control.Common.Result.{config_error, Ensures, Ensures-bind, Ensures-any, Ensures-raise_if}
use sparq_control.Config.Yaml.{Yaml, Entries, Builtins, to_str, as_mapping}
use sparq_control.Config.Platform.{
  Files, PlatformConfig, PlatformActuatorConfig, enabled_actuators, load_yaml_mapping,
  resolve_config_path, require_mapping as platform_mapping, require_list as platform_list,
}
use sparq_control.Config.Platform.Load.{
  is_empty, require_str as platform_str, parse_robot_assets, parse_can, parse_shm, parse_imu,
  parse_spg_mit, parse_actuators, load_platform_config,
}
use sparq_control.Config.Platform.Distinct.{can_ids, AreActuators, parse_actuators-AreActuators}
use sparq_control.Config.Controller.{
  ProcessConfig, ShmConfig, CanConfig, MotorConfig, RobotControllerConfig, require_mapping,
  require_list, require_bool, require_str, require_float, require_int,
}
use sparq_control.Config.Controller.Load.{
  process_config, process_configs, load_processes, load_hardware, load_safety, load_core,
  load_segment, load_shm, load_daemon, load_motors, load_imu, load_can, load_with_platform,
  load_robot_controller_config,
}

module _ {ℓ κ} {A : Type ℓ} {B : Type κ} (same : B → B → Bool) (f : A → B) (p : A → Bool) where
  any-filter :
      (y : B) (xs : List A)
      → any (same y) (map f xs) ≡ false
      → any (same y) (map f (filter p xs)) ≡ false
  unfolding filter
  any-filter y [] h = refl
  any-filter y (x ∷ xs) h = ground (arith, any-filter y xs, h)

  is_distinct-filter :
      (xs : List A)
      → is_distinct same (map f xs) ≡ true
      → is_distinct same (map f (filter p xs)) ≡ true
  unfolding filter
  is_distinct-filter [] h = refl
  is_distinct-filter (x ∷ xs) h = ground (arith, is_distinct-filter xs, any-filter (f x) xs, h)

module _ {ℓ κ} {A : Type ℓ} {B : Type κ} (f : A → B) (p : A → Bool) where
  filter-is_empty : (xs : List A) → any p xs ≡ true → is_empty (map f (filter p xs)) ≡ false
  unfolding filter
  filter-is_empty [] h = ground (arith, h)
  filter-is_empty (x ∷ xs) h = ground (arith, filter-is_empty xs, h)

  length-map : (xs : List A) → length (map f xs) ≡ length xs
  length-map [] = refl
  length-map (x ∷ xs) = ground (arith, length-map xs)

module _ (fl : Floats) (b : Builtins fl) where
  -- The configuration agrees with its platform, and has what the control loop relies on.
  pub record Loaded {P : Type 0} (c : RobotControllerConfig P fl.F) : Type 0 where
    pub enabled_ids : c.can.motors.can_ids ≡ can_ids fl b (enabled_actuators c.platform)
    pub one_target_each : c.shm.mit_command.target_count ≡ length c.can.motors.can_ids
    pub ids_differ : is_distinct eq_ℤ c.can.motors.can_ids ≡ true
    pub one_motor : is_empty c.can.motors.can_ids ≡ false
    pub one_robot : any (λ e. str_eq e.0 c.platform.robot.name) c.platform.robots ≡ true
    pub commands : all (λ (p : ProcessConfig). not (is_empty p.command)) c.processes ≡ true

  map-is_empty :
      (f : Yaml fl.F → String) (xs : List (Yaml fl.F)) → is_empty (map f xs) ≡ is_empty xs
  map-is_empty f [] = refl
  map-is_empty f (x ∷ xs) = refl

  process_config-command :
      (value : Yaml fl.F) → Ensures (λ p. is_empty p.command ≡ false) (process_config fl b value)
  unfolding process_config
  process_config-command value = Ensures-any _ (as_mapping config_error value) _ λ item.
      Ensures-any _ (require_list item "command") _ λ command.
        Ensures-raise_if _ (is_empty command) _ _ λ nonempty.
          Ensures-any _ (require_mapping item "env") _ λ env_raw.
            Ensures-any _ (require_str fl b item "name") _ λ name.
              Ensures-any _ (require_int fl b item "start_order") _ λ start_order.
                Ensures-any _ (require_int fl b item "stop_order") _ λ stop_order.
                  Ensures-any _ (require_bool item "new_terminal") _ λ new_terminal.
                    Ensures-any _ (require_list item "terminal_command") _ λ terminal_command.
                      Ensures-any _ (require_str fl b item "working_dir") _
                        λ working_dir. map-is_empty (to_str fl b) command ∙ nonempty

  process_configs-commands :
      (values : List (Yaml fl.F))
      → Ensures
          (λ ps. all (λ (p : ProcessConfig). not (is_empty p.command)) ps ≡ true)
          (process_configs fl b values)
  unfolding process_configs
  process_configs-commands [] = refl
  process_configs-commands (value ∷ rest) =
      Ensures-bind _ (λ p. is_empty p.command ≡ false) (process_config fl b value) _
        (process_config-command value)
        λ p first.
          Ensures-bind _ (λ ps. all (λ (p : ProcessConfig). not (is_empty p.command)) ps ≡ true)
            (process_configs fl b rest) _ (process_configs-commands rest)
            λ ps others. ground (arith, first, others)

  load_shm-count :
      {P : Type 0} (platform : PlatformConfig P fl.F)
      (raw aux operator control dashboard : Entries fl.F)
      → Ensures
          (λ (s : ShmConfig fl.F). s.mit_command.target_count ≡ length (enabled_actuators platform))
          (load_shm fl b platform raw aux operator control dashboard)
  unfolding load_shm
  load_shm-count platform raw aux operator control dashboard =
      Ensures-any _ (require_bool raw "cleanup_stale_on_start") _ λ cleanup.
        Ensures-any _ (require_bool raw "unlink_on_shutdown") _ λ unlink.
          Ensures-any _ (load_segment fl b platform.shm.aux_command aux) _ λ aux_command.
            Ensures-any _ (require_int fl b operator "size_bytes") _ λ size_bytes.
              Ensures-any _ (load_segment fl b platform.shm.control_state control) _
                λ control_state.
                  Ensures-any _ (load_segment fl b platform.shm.dashboard_state dashboard) _
                    λ dashboard_state. refl

  load_motors-ids :
      (ids : List ℤ) (raw : Entries fl.F)
      → Ensures (λ (m : MotorConfig). m.can_ids ≡ ids) (load_motors fl b ids raw)
  unfolding load_motors
  load_motors-ids ids raw = Ensures-any _ (require_bool raw "enter_on_start") _ λ enter.
      Ensures-any _ (require_bool raw "exit_on_shutdown") _
        λ exit. Ensures-any _ (require_bool raw "set_zero_on_start") _ λ set_zero. refl

  load_can-ids :
      {P : Type 0} (platform : PlatformConfig P fl.F) (raw daemon motors imu : Entries fl.F)
      → Ensures
          (λ (c : CanConfig fl.F). c.motors.can_ids ≡ can_ids fl b (enabled_actuators platform))
          (load_can fl b platform raw daemon motors imu)
  unfolding load_can
  load_can-ids platform raw daemon motors imu =
      Ensures-any _ (require_float fl b raw "command_timeout_s") _ λ timeout.
        Ensures-any _ (require_float fl b raw "bringup_delay_s") _ λ delay.
          Ensures-any _ (load_daemon fl b platform.can.daemon_socket daemon) _ λ daemon_config.
            Ensures-bind _
              (λ (m : MotorConfig). m.can_ids ≡ can_ids fl b (enabled_actuators platform))
              (load_motors fl b (can_ids fl b (enabled_actuators platform)) motors) _
              (load_motors-ids (can_ids fl b (enabled_actuators platform)) motors)
              λ m same. Ensures-any _ (load_imu fl b imu) _ λ imu_config. same

module _ (fl : Floats) (b : Builtins fl) (files : Files fl.F) where
  -- What the platform file ensures.
  abbrev OfPlatform : PlatformConfig files.FilePath fl.F → Type 0
  OfPlatform c =
      AreActuators fl b c.actuators × (any (λ e. str_eq e.0 c.robot.name) c.robots ≡ true)

  load_processes-commands :
      (path : files.FilePath)
      → Ensures
          (λ ps. all (λ (p : ProcessConfig). not (is_empty p.command)) ps ≡ true)
          (load_processes fl b files path)
  unfolding load_processes
  load_processes-commands path = Ensures-any _ (load_yaml_mapping fl files path) _ λ raw.
      Ensures-any _ (require_list raw "processes") _ λ values. process_configs-commands fl b values

  load_platform_config-lem :
      (path : files.FilePath) → Ensures OfPlatform (load_platform_config fl b files path)
  unfolding load_platform_config
  load_platform_config-lem path =
      Ensures-any _ (load_yaml_mapping fl files (files.resolve path)) _ λ raw.
        Ensures-any _ (platform_mapping raw "robot") _ λ robot_raw.
          Ensures-any _ (platform_mapping raw "can") _ λ can_raw.
            Ensures-any _ (platform_mapping raw "shm") _ λ shm_raw.
              Ensures-any _ (platform_mapping raw "imu") _ λ imu_raw.
                Ensures-any _ (platform_mapping raw "spg_mit") _ λ spg_raw.
                  Ensures-any _ (platform_str fl b robot_raw "name") _ λ name.
                    Ensures-any _ (platform_mapping raw "robots") _ λ robots_raw.
                      Ensures-any _ (parse_robot_assets fl b robots_raw) _ λ robots.
                        Ensures-any _ (parse_can fl b can_raw) _ λ can.
                          Ensures-any _ (parse_shm fl b shm_raw) _ λ shm.
                            Ensures-any _ (parse_imu fl b imu_raw) _ λ imu.
                              Ensures-any _ (parse_spg_mit fl b spg_raw) _ λ spg_mit.
                                Ensures-any _ (platform_list raw "actuators") _ λ actuators_raw.
                                  Ensures-bind _ (AreActuators fl b)
                                    (parse_actuators fl b actuators_raw) _
                                    (parse_actuators-AreActuators fl b actuators_raw)
                                    λ actuators are.
                                      Ensures-raise_if _ (not (any (λ e. str_eq e.0 name) robots)) _
                                        _ λ found. (are, ground (arith, found))

  load_with_platform-Loaded :
      (path : files.FilePath) (raw : Entries fl.F) (platform : PlatformConfig files.FilePath fl.F)
      → OfPlatform platform
      → Ensures (Loaded fl b) (load_with_platform fl b files path raw platform)
  unfolding load_with_platform enabled_actuators
  load_with_platform-Loaded path raw platform (are, found) =
      Ensures-any _ (require_mapping raw "runtime") _ λ runtime_raw.
        Ensures-any _ (require_mapping raw "hardware") _ λ hardware_raw.
          Ensures-any _ (require_mapping raw "safety") _ λ safety_raw.
            Ensures-any _ (require_mapping raw "state_machine") _ λ machine_raw.
              Ensures-any _ (require_mapping raw "robot_controller") _ λ core_raw.
                Ensures-any _ (require_mapping raw "shm") _ λ shm_raw.
                  Ensures-any _ (require_mapping shm_raw "aux_command") _ λ aux_raw.
                    Ensures-any _ (require_mapping shm_raw "operator_command") _ λ operator_raw.
                      Ensures-any _ (require_mapping shm_raw "control_state") _ λ control_raw.
                        Ensures-any _ (require_mapping shm_raw "dashboard_state") _ λ dashboard_raw.
                          Ensures-any _ (require_mapping raw "can") _ λ can_raw.
                            Ensures-any _ (require_mapping can_raw "daemon") _ λ daemon_raw.
                              Ensures-any _ (require_mapping can_raw "motors") _ λ motors_raw.
                                Ensures-any _ (require_mapping can_raw "imu") _ λ imu_raw.
                                  Ensures-any _ (require_str fl b raw "processes_config") _
                                    λ processes_name.
                                      Ensures-any _
                                        (resolve_config_path fl files path processes_name) _
                                        λ processes_path.
                                          Ensures-bind _
                                            (λ ps.
                                              all (λ (p : ProcessConfig). not (is_empty p.command))
                                                ps
                                              ≡ true)
                                            (load_processes fl b files processes_path) _
                                            (load_processes-commands processes_path)
                                            λ processes commands.
                                              Ensures-any _ (require_str fl b runtime_raw "mode") _
                                                λ mode.
                                                  Ensures-any _ (load_hardware fl b hardware_raw) _
                                                    λ hardware.
                                                      Ensures-any _ (load_safety fl b safety_raw) _
                                                        λ safety.
                                                          Ensures-any _
                                                            (require_float fl b machine_raw
                                                            "enable_duration_s")
                                                            _
                                                            λ enable_duration_s.
                                                            Ensures-any _ (load_core fl b core_raw)
                                                            _
                                                            λ core.
                                                            Ensures-bind _
                                                            (λ (s : ShmConfig fl.F).
                                                            s.mit_command.target_count
                                                            ≡ length (enabled_actuators platform))
                                                            (load_shm fl b platform shm_raw aux_raw
                                                            operator_raw control_raw dashboard_raw)
                                                            _
                                                            (load_shm-count fl b platform shm_raw
                                                            aux_raw operator_raw control_raw
                                                            dashboard_raw)
                                                            λ shm count.
                                                            Ensures-bind _
                                                            (λ (c : CanConfig fl.F).
                                                            c.motors.can_ids
                                                            ≡ can_ids fl b
                                                            (enabled_actuators platform))
                                                            (load_can fl b platform can_raw
                                                            daemon_raw motors_raw imu_raw)
                                                            _
                                                            (load_can-ids fl b platform can_raw
                                                            daemon_raw motors_raw imu_raw)
                                                            λ can ids. record {
                                                            enabled_ids = ids;
                                                            one_target_each = rw ids (
                                                            count
                                                            ∙ sym (
                                                            length-map
                                                            (λ (a : PlatformActuatorConfig fl.F).
                                                            a.can_id)
                                                            (λ _. true)
                                                            (enabled_actuators platform)));
                                                            ids_differ = rw ids (
                                                            is_distinct-filter eq_ℤ _ _
                                                            platform.actuators are.ids_differ);
                                                            one_motor = rw ids (
                                                            filter-is_empty _ _ platform.actuators
                                                            are.one_enabled);
                                                            one_robot = found;
                                                            commands = commands;
                                                            }

  -- A configuration that is loaded has the ids of the enabled actuators of its platform as motors,
  -- at least one and all different, a target for each, an entry for its robot, and no process
  -- without a command.
  pub load_robot_controller_config-Loaded :
      (path : String) → Ensures (Loaded fl b) (load_robot_controller_config fl b files path)
  unfolding load_robot_controller_config
  load_robot_controller_config-Loaded path =
      Ensures-any _ (load_yaml_mapping fl files (files.of_text path)) _ λ raw.
        Ensures-any _ (require_str fl b raw "platform_config") _ λ name.
          Ensures-any _ (resolve_config_path fl files (files.of_text path) name) _ λ platform_path.
            Ensures-bind _ OfPlatform (load_platform_config fl b files platform_path) _
              (load_platform_config-lem platform_path)
              λ platform of_platform.
                load_with_platform-Loaded (files.of_text path) raw platform of_platform
