-- ===== src/Config/Controller/Validate.antt =====
-- robot_controller/core/config.py: `_validate_config`, which the loader does not call.
use Prim.Native.String.{String}
use text.Mathlib.Text.{◌==◌ as str_eq}
use sparq_control.Common.{
  ℕ, Bool, false, not, ◌&&◌, List, [], ◌∷◌, Option, none, some, pos, map, length, any, eq_ℤ, ltb_ℤ,
  leb_ℤ, set_of, ◌==◌,
}
use sparq_control.Common.Floats.{Floats}
use sparq_control.Common.Result.{Result, ok, ◌>>◌, raise_if, config_error}
use sparq_control.Config.Yaml.{is_empty_text}
use sparq_control.Config.Platform.Load.{is_empty}
use sparq_control.Config.Controller.{ProcessConfig, ShmConfig, CanConfig, RobotControllerConfig}

-- `raise ConfigError(...)` under each of these conditions, in order.
unfoldable pub raise_each : List Bool → Result (Unit {0})
raise_each [] = ok tt
raise_each (c ∷ cs) = raise_if c config_error >> raise_each cs

-- `value not in (...)`
abbrev pub not_in : String → List String → Bool
not_in value names = not (any (str_eq value) names)

abbrev pub actions : List String
actions = "damping" ∷ "disable" ∷ "fault" ∷ []

-- The names of the five segments.
abbrev pub segment_names : {F : Type 0} → ShmConfig F → List String
segment_names shm =
    shm.mit_command.name ∷ shm.aux_command.name ∷ shm.operator_command.name ∷ shm.control_state.name
    ∷ shm.dashboard_state.name ∷ []

-- The last loop, over the processes.
unfoldable pub process_checks : List ProcessConfig → List Bool
process_checks [] = []
process_checks (process ∷ rest) =
    is_empty_text process.working_dir
    ∷ (process.new_terminal && is_empty process.terminal_command)
    ∷ process_checks rest

module _ (fl : Floats) where
  abbrev pub zero_float : fl.F
  zero_float = fl.of_int (pos 0)

  -- `x < 0.0` and `x <= 0.0`
  abbrev pub negative : fl.F → Bool
  negative x = fl.lt x zero_float

  abbrev pub not_positive : fl.F → Bool
  not_positive x = fl.le x zero_float

  -- `x is not None and x < 0.0`
  abbrev pub some_negative : Option fl.F → Bool
  some_negative none = false
  some_negative (some x) = negative x

  unfoldable pub core_checks : {P : Type 0} → RobotControllerConfig P fl.F → List Bool
  core_checks config =
      not_in config.runtime.mode ("simulation" ∷ "hardware" ∷ [])
      ∷ is_empty config.hardware.allowed_can_interfaces
      ∷ negative config.safety.velocity_damping_kd
      ∷ not_positive config.safety.damping_timeout_s
      ∷ not_in config.safety.command_loss_action actions
      ∷ not_in config.safety.feedback_stale_action actions
      ∷ not_positive config.robot_controller.control_hz
      ∷ negative config.robot_controller.shutdown_timeout_s
      ∷ negative config.state_machine.enable_duration_s
      ∷ []

  unfoldable pub shm_checks : ShmConfig fl.F → List Bool
  unfolding set_of
  shm_checks shm =
      (shm.mit_command.target_count == 0)
      ∷ ltb_ℤ shm.control_state.size_bytes (pos 4096)
      ∷ not_positive shm.control_state.publish_hz
      ∷ ltb_ℤ shm.aux_command.size_bytes (pos 4096)
      ∷ not_positive shm.aux_command.publish_hz
      ∷ ltb_ℤ shm.operator_command.size_bytes (pos 4096)
      ∷ ltb_ℤ shm.dashboard_state.size_bytes (pos 4096)
      ∷ not_positive shm.dashboard_state.publish_hz
      ∷ not (length (set_of str_eq (segment_names shm)) == 5)
      ∷ []

  unfoldable pub can_checks : ℕ → CanConfig fl.F → List Bool
  unfolding set_of
  can_checks target_count can =
      not_positive can.command_timeout_s
      ∷ negative can.bringup_delay_s
      ∷ negative can.daemon.rx_timeout_s
      ∷ negative can.daemon.tx_timeout_s
      ∷ negative can.daemon.join_timeout_s
      ∷ leb_ℤ can.daemon.max_tx_queue_size (pos 0)
      ∷ some_negative can.daemon.send_timeout_s
      ∷ is_empty_text can.daemon.ipc_socket_path
      ∷ not_positive can.daemon.connect_timeout_s
      ∷ is_empty can.motors.can_ids
      ∷ not (length (set_of eq_ℤ can.motors.can_ids) == length can.motors.can_ids)
      ∷ not (target_count == length can.motors.can_ids)
      ∷ ltb_ℤ can.imu.startup_request_count (pos 0)
      ∷ negative can.imu.startup_request_delay_s
      ∷ []

  unfoldable pub range_checks : {P : Type 0} → RobotControllerConfig P fl.F → List Bool
  range_checks config =
      not_positive config.can.mit_protocol_range.position_rad
      ∷ not_positive config.can.mit_protocol_range.velocity_rad_s
      ∷ negative config.can.mit_protocol_range.kp
      ∷ fl.lt config.can.mit_protocol_range.kd (fl.lit 5 1)
      ∷ not_positive config.can.mit_protocol_range.torque_ff_nm
      ∷ not_positive config.can.mit_protocol_range.feedback_position_rad
      ∷ fl.lt config.can.mit_protocol_range.kd config.safety.velocity_damping_kd
      ∷ []

  abbrev pub process_names : List ProcessConfig → List String
  process_names = map (λ (p : ProcessConfig). p.name)

  unfoldable pub name_checks : List ProcessConfig → List Bool
  unfolding set_of
  name_checks processes =
      not (length (set_of str_eq (process_names processes)) == length (process_names processes))
      ∷ not (any (str_eq "can_daemon") (process_names processes))
      ∷ []

  unfoldable pub validate_config : {P : Type 0} → RobotControllerConfig P fl.F → Result (Unit {0})
  unfolding raise_each core_checks shm_checks can_checks range_checks name_checks process_checks
  validate_config config =
      raise_each (core_checks config)
      >> (raise_each (shm_checks config.shm)
          >> (raise_each (can_checks config.shm.mit_command.target_count config.can)
              >> (raise_each (range_checks config)
                  >> (raise_each (name_checks config.processes)
                      >> raise_each (process_checks config.processes)))))
