-- ===== src/Config/Controller/Valid.antt =====
-- robot_controller/core/config.py: what `_validate_config` would decide about a configuration that
-- `load_robot_controller_config` gives back.
use text.Mathlib.Text.{◌==◌ as str_eq}
use sparq_control.Common.{
  ℕ, Bool, true, false, not, ◌&&◌, ◌||◌, List, [], ◌∷◌, pos, length, if◌then◌else◌, any, all, eq_ℤ,
  ltb_ℤ, leb_ℤ, length-set_of, is_distinct, ◌==◌, ==_iff, ◌≡◌, refl, arith, ap, ◌∙◌,
}
use sparq_control.Common.Floats.{Floats}
use sparq_control.Common.Result.{Result, ok, err, ◌>>◌, config_error}
use sparq_control.Config.Yaml.{Builtins, is_empty_text}
use sparq_control.Config.Platform.Load.{is_empty}
use sparq_control.Config.Controller.{ProcessConfig, ShmConfig, CanConfig, RobotControllerConfig}
use sparq_control.Config.Controller.Loaded.{Loaded}
use sparq_control.Config.Controller.Validate.{
  raise_each, segment_names, process_checks, not_positive, negative, some_negative, core_checks,
  shm_checks, can_checks, range_checks, process_names, name_checks, validate_config,
}

-- The outcome of a validation.
abbrev pub verdict : Bool → Result (Unit {0})
verdict holds = if holds then ok tt else err config_error

raise_each-verdict : (cs : List Bool) → raise_each cs ≡ verdict (all not cs)
unfolding raise_each
raise_each-verdict [] = refl
raise_each-verdict (true ∷ cs) = refl
raise_each-verdict (false ∷ cs) = raise_each-verdict cs

verdict-then :
    (p q : Bool) {r s : Result (Unit {0})}
    → r ≡ verdict p
    → s ≡ verdict q
    → (r >> s) ≡ verdict (p && q)
verdict-then true q h k = rw h k
verdict-then false q h k = rw h refl

-- A process can be started in a terminal of its own, if it wants one.
abbrev pub is_startable : ProcessConfig → Bool
is_startable p =
    not (is_empty_text p.working_dir) && (not p.new_terminal || not (is_empty p.terminal_command))

process_checks-lem : (ps : List ProcessConfig) → all not (process_checks ps) ≡ all is_startable ps
unfolding process_checks
process_checks-lem [] = refl
process_checks-lem (p ∷ ps) = ground (arith, process_checks-lem ps)

module _ (fl : Floats) where
  name_checks-lem :
      (ps : List ProcessConfig)
      → all not (name_checks fl ps) ≡ (
          is_distinct str_eq (process_names fl ps)
          && any (str_eq "can_daemon") (process_names fl ps))
  unfolding name_checks
  name_checks-lem ps = ground (arith, length-set_of str_eq (process_names fl ps))

  -- The bounds on numbers in the segment `shm`.
  abbrev pub shm_bounds : ShmConfig fl.F → Bool
  shm_bounds shm =
      not (shm.mit_command.target_count == 0)
      && (not (ltb_ℤ shm.control_state.size_bytes (pos 4096))
          && (not (not_positive fl shm.control_state.publish_hz)
              && (not (ltb_ℤ shm.aux_command.size_bytes (pos 4096))
                  && (not (not_positive fl shm.aux_command.publish_hz)
                      && (not (ltb_ℤ shm.operator_command.size_bytes (pos 4096))
                          && (not (ltb_ℤ shm.dashboard_state.size_bytes (pos 4096))
                              && not (not_positive fl shm.dashboard_state.publish_hz)))))))

  shm_checks-lem :
      (shm : ShmConfig fl.F)
      → all not (shm_checks fl shm) ≡ (shm_bounds shm && is_distinct str_eq (segment_names shm))
  unfolding shm_checks
  shm_checks-lem shm =
      regroup (shm.mit_command.target_count == 0) (ltb_ℤ shm.control_state.size_bytes (pos 4096))
        (not_positive fl shm.control_state.publish_hz) (ltb_ℤ shm.aux_command.size_bytes (pos 4096))
        (not_positive fl shm.aux_command.publish_hz)
        (ltb_ℤ shm.operator_command.size_bytes (pos 4096))
        (ltb_ℤ shm.dashboard_state.size_bytes (pos 4096))
        (not_positive fl shm.dashboard_state.publish_hz) _ _
        (length-set_of str_eq (segment_names shm))
    where
      regroup :
          (a b c d e f g h s t : Bool)
          → s ≡ t
          → all not (a ∷ b ∷ c ∷ d ∷ e ∷ f ∷ g ∷ h ∷ not s ∷ []) ≡ (
              (not a && (not b && (not c && (not d && (not e && (not f && (not g && not h)))))))
              && t)
      regroup a b c d e f g h s t same = ground (arith, same)

  -- The bounds on numbers in the section `can`.
  abbrev pub can_bounds : CanConfig fl.F → Bool
  can_bounds can =
      not (not_positive fl can.command_timeout_s)
      && (not (negative fl can.bringup_delay_s)
          && (not (negative fl can.daemon.rx_timeout_s)
              && (not (negative fl can.daemon.tx_timeout_s)
                  && (not (negative fl can.daemon.join_timeout_s)
                      && (not (leb_ℤ can.daemon.max_tx_queue_size (pos 0))
                          && (not (some_negative fl can.daemon.send_timeout_s)
                              && (not (is_empty_text can.daemon.ipc_socket_path)
                                  && (not (not_positive fl can.daemon.connect_timeout_s)
                                      && (not (ltb_ℤ can.imu.startup_request_count (pos 0))
                                          && not
                                              (negative fl can.imu.startup_request_delay_s))))))))))

  can_checks-lem :
      (count : ℕ) (can : CanConfig fl.F)
      → is_empty can.motors.can_ids ≡ false
      → is_distinct eq_ℤ can.motors.can_ids ≡ true
      → count ≡ length can.motors.can_ids
      → all not (can_checks fl count can) ≡ can_bounds can
  unfolding can_checks
  can_checks-lem count can p q r =
      regroup (not_positive fl can.command_timeout_s) (negative fl can.bringup_delay_s)
        (negative fl can.daemon.rx_timeout_s) (negative fl can.daemon.tx_timeout_s)
        (negative fl can.daemon.join_timeout_s) (leb_ℤ can.daemon.max_tx_queue_size (pos 0))
        (some_negative fl can.daemon.send_timeout_s) (is_empty_text can.daemon.ipc_socket_path)
        (not_positive fl can.daemon.connect_timeout_s) _ _ _
        (ltb_ℤ can.imu.startup_request_count (pos 0)) (negative fl can.imu.startup_request_delay_s)
        p (length-set_of eq_ℤ can.motors.can_ids ∙ q)
        ((==_iff count (length can.motors.can_ids)).1 r)
    where
      regroup :
          (a b c d e f g h i s t u j k : Bool)
          → s ≡ false
          → t ≡ true
          → u ≡ true
          → all not (a ∷ b ∷ c ∷ d ∷ e ∷ f ∷ g ∷ h ∷ i ∷ s ∷ not t ∷ not u ∷ j ∷ k ∷ []) ≡ (
              not a
              && (not b
                  && (not c
                      && (not d
                          && (not e
                              && (not f && (not g && (not h && (not i && (not j && not k))))))))))
      regroup a b c d e f g h i s t u j k p q r = rw (p, q, r) (ground arith)

  -- The bounds on the settings of the robot's runtime.
  abbrev pub core_bounds : {P : Type 0} → RobotControllerConfig P fl.F → Bool
  core_bounds c =
      any (str_eq c.runtime.mode) ("simulation" ∷ "hardware" ∷ [])
      && (not (is_empty c.hardware.allowed_can_interfaces)
          && (not (fl.lt c.safety.velocity_damping_kd (fl.of_int (pos 0)))
              && (not (fl.le c.safety.damping_timeout_s (fl.of_int (pos 0)))
                  && (any (str_eq c.safety.command_loss_action)
                        ("damping" ∷ "disable" ∷ "fault" ∷ [])
                      && (any (str_eq c.safety.feedback_stale_action)
                            ("damping" ∷ "disable" ∷ "fault" ∷ [])
                          && (not (fl.le c.robot_controller.control_hz (fl.of_int (pos 0)))
                              && (not (
                                    fl.lt c.robot_controller.shutdown_timeout_s (fl.of_int (pos 0)))
                                  && not (
                                      fl.lt c.state_machine.enable_duration_s
                                        (fl.of_int (pos 0))))))))))

  core_checks-lem :
      {P : Type 0} (c : RobotControllerConfig P fl.F) → all not (core_checks fl c) ≡ core_bounds c
  unfolding core_checks
  core_checks-lem c =
      regroup (any (str_eq c.runtime.mode) ("simulation" ∷ "hardware" ∷ []))
        (is_empty c.hardware.allowed_can_interfaces)
        (fl.lt c.safety.velocity_damping_kd (fl.of_int (pos 0)))
        (fl.le c.safety.damping_timeout_s (fl.of_int (pos 0)))
        (any (str_eq c.safety.command_loss_action) ("damping" ∷ "disable" ∷ "fault" ∷ []))
        (any (str_eq c.safety.feedback_stale_action) ("damping" ∷ "disable" ∷ "fault" ∷ []))
        (fl.le c.robot_controller.control_hz (fl.of_int (pos 0)))
        (fl.lt c.robot_controller.shutdown_timeout_s (fl.of_int (pos 0)))
        (fl.lt c.state_machine.enable_duration_s (fl.of_int (pos 0)))
    where
      regroup :
          (a b c d e f g h i : Bool)
          → all not (not a ∷ b ∷ c ∷ d ∷ not e ∷ not f ∷ g ∷ h ∷ i ∷ [])
            ≡ (a && (not b && (not c && (not d && (e && (f && (not g && (not h && not i))))))))
      regroup a b c d e f g h i = ground arith

  -- The bounds on the ranges of the drives' MIT commands; the damping fits the range of kd.
  abbrev pub range_bounds : {P : Type 0} → RobotControllerConfig P fl.F → Bool
  range_bounds c =
      not (fl.le c.can.mit_protocol_range.position_rad (fl.of_int (pos 0)))
      && (not (fl.le c.can.mit_protocol_range.velocity_rad_s (fl.of_int (pos 0)))
          && (not (fl.lt c.can.mit_protocol_range.kp (fl.of_int (pos 0)))
              && (not (fl.lt c.can.mit_protocol_range.kd (fl.lit 5 1))
                  && (not (fl.le c.can.mit_protocol_range.torque_ff_nm (fl.of_int (pos 0)))
                      && (not (
                            fl.le c.can.mit_protocol_range.feedback_position_rad
                              (fl.of_int (pos 0)))
                          && not
                              (fl.lt c.can.mit_protocol_range.kd c.safety.velocity_damping_kd))))))

  range_checks-lem :
      {P : Type 0} (c : RobotControllerConfig P fl.F) → all not (range_checks fl c) ≡ range_bounds c
  unfolding range_checks
  range_checks-lem c =
      regroup (fl.le c.can.mit_protocol_range.position_rad (fl.of_int (pos 0)))
        (fl.le c.can.mit_protocol_range.velocity_rad_s (fl.of_int (pos 0)))
        (fl.lt c.can.mit_protocol_range.kp (fl.of_int (pos 0)))
        (fl.lt c.can.mit_protocol_range.kd (fl.lit 5 1))
        (fl.le c.can.mit_protocol_range.torque_ff_nm (fl.of_int (pos 0)))
        (fl.le c.can.mit_protocol_range.feedback_position_rad (fl.of_int (pos 0)))
        (fl.lt c.can.mit_protocol_range.kd c.safety.velocity_damping_kd)
    where
      regroup :
          (a b c d e f g : Bool)
          → all not (a ∷ b ∷ c ∷ d ∷ e ∷ f ∷ g ∷ [])
            ≡ (not a && (not b && (not c && (not d && (not e && (not f && not g))))))
      regroup a b c d e f g = ground arith

  -- The conditions of `_validate_config` beyond what the loader ensures.
  abbrev pub is_sound : {P : Type 0} → RobotControllerConfig P fl.F → Bool
  is_sound c =
      core_bounds c
      && ((shm_bounds c.shm && is_distinct str_eq (segment_names c.shm))
          && (can_bounds c.can
              && (range_bounds c
                  && ((is_distinct str_eq (process_names fl c.processes)
                        && any (str_eq "can_daemon") (process_names fl c.processes))
                      && all is_startable c.processes))))

  -- On a loaded configuration `_validate_config` never objects to the motors' ids or to the number of
  -- targets. It returns exactly if the other conditions hold: the settings are in their ranges, the
  -- five segments have different names, the processes have different names with "can_daemon" among
  -- them, and each can be started. Otherwise it raises `ConfigError`.
  pub validate_config-Loaded :
      {P : Type 0} (b : Builtins fl) (c : RobotControllerConfig P fl.F)
      → Loaded fl b c
      → validate_config fl c ≡ verdict (is_sound c)
  unfolding validate_config
  validate_config-Loaded b c loaded =
      verdict-then _ _ (raise_each-verdict (core_checks fl c) ∙ ap verdict (core_checks-lem c)) (
        verdict-then _ _
          (raise_each-verdict (shm_checks fl c.shm) ∙ ap verdict (shm_checks-lem c.shm))
          (verdict-then _ _
            (raise_each-verdict (can_checks fl c.shm.mit_command.target_count c.can)
              ∙ ap verdict (
                  can_checks-lem c.shm.mit_command.target_count c.can loaded.one_motor
                    loaded.ids_differ loaded.one_target_each))
            (verdict-then _ _
              (raise_each-verdict (range_checks fl c) ∙ ap verdict (range_checks-lem c))
              (verdict-then _ _
                (raise_each-verdict (name_checks fl c.processes)
                  ∙ ap verdict (name_checks-lem c.processes))
                (raise_each-verdict (process_checks c.processes)
                  ∙ ap verdict (process_checks-lem c.processes))))))
