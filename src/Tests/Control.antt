-- ===== src/Tests/Control.antt =====
-- Tests of the modules for the controller.
use sparq_control.Common.{
  ℕ, ◌+◌, ◌<◌, ◌≡◌, ◌≢◌, true, none, some, List, [], ◌∷◌, ◌++◌, refl, arith, ℤ, pos, negsuc,
  if◌then◌else◌, leb, replicate, All, inl, inr,
}
use sparq_control.Common.Result.{Result, ok, err}
use sparq_control.Hal.Transport.{opened}
use sparq_control.Hal.Freshness.{new_manager}
use sparq_control.Hal.Actuator.{blank_state}
use sparq_control.Hardware.Spg.Encode.{encode_disable_frame}
use sparq_control.Shm.OperatorCommand.{
  OperatorCommand, blank_command, publish, build_command, store_targets, publish_zero_set, code_of,
  code_value, Code, run,
}
use sparq_control.Control.StateMachine.{
  Mode, enabling, normal, damping, zero_setting, estop, Machine, mode_is, read_code, update,
  run_updates,
}
use sparq_control.Control.StateMachine.Spec.{next_mode, update-next_mode}
use sparq_control.Control.StateMachine.Traces.{
  Event, code_at, Waits, run_updates-estop, normal_needs_run, enabling_timed,
}
use sparq_control.Control.Consume.{Latch, released, consume_all}
use sparq_control.Control.Consume.Once.{is_action, consume_all_once}
use sparq_control.Control.ZeroTargets.{zero_set_offsets_by_can_id}
use sparq_control.Control.ZeroTargets.RoundTrip.{
  Offset, zero_set_offsets_by_can_id-publish_zero_set,
}
use sparq_control.Control.ZeroTargets.Untargeted.{run_rezeroes}
use sparq_control.Control.Sends.{sorted, keys, zero_set_ids, send_disable_all}
use sparq_control.Control.World.{Actuator, Robot, Env}
use sparq_control.Control.Tick.{act}
use sparq_control.Control.Tick.Safety.{Ticked, act-Ticked}
use sparq_control.Control.Tick.Reach.{frames, Standard, Sent, send_disable_all-Sent}
use sparq_control.Telemetry.Snapshot.{Source}
use sparq_control.Tests.Hardware.{some_config, imu_driver}

abbrev in_mode : Mode → Machine
in_mode m = record { enable_duration = 10; mode = m; mode_enter_time = 5 }

abbrev pub command_of : ℕ → OperatorCommand
command_of code = record blank_command { timestamp_ns = 77; command = code }

update-next_mode_example :
    let m' = update (in_mode damping) (some (command_of 7)) 20 in
    (m'.mode ≡ next_mode (leb (5 + 10) 20) damping (read_code (some (command_of 7))))
    × (m'.mode_enter_time ≡ (if mode_is m'.mode damping then 5 else 20))
    × (m'.enable_duration ≡ 10)
update-next_mode_example = update-next_mode (in_mode damping) (some (command_of 7)) 20

abbrev run_events : List Event
run_events = (some (command_of 7), 20) ∷ (none, 21) ∷ []

run_events-keep : All (λ e. code_at e ≢ Code.reset_fault) run_events
unfolding read_code
run_events-keep = ground arith

run_updates-estop_example : run_updates (in_mode estop) run_events ≡ in_mode estop
run_updates-estop_example = run_updates-estop (in_mode estop) run_events refl run_events-keep

ends_normal : (run_updates (in_mode damping) run_events).mode ≡ normal
unfolding run_updates update
ends_normal = refl

not_normal : (in_mode damping).mode ≢ normal
not_normal = λ e. cc

normal_needs_run_example :
    (before : List Event) × (e : Event) × (after : List Event) × (run_events ≡ before ++ e ∷ after)
    × (code_at e ≡ run)
    × ((run_updates (in_mode damping) before).mode ≡ damping)
normal_needs_run_example = normal_needs_run (in_mode damping) run_events not_normal ends_normal

abbrev wait_events : List Event
wait_events = (none, 6) ∷ (some (command_of 1), 14) ∷ []

wait_events-Waits : All Waits wait_events
unfolding read_code
wait_events-Waits = (inl refl, (inr refl, tt))

none-Waits : Waits (none, 15)
unfolding read_code
none-Waits = inl refl

wait_events-early : All (λ (e : Event). e.1 < 5 + 10) wait_events
wait_events-early = ground arith

enabling_timed_example :
    (run_updates (in_mode enabling) wait_events ≡ in_mode enabling)
    × (run_updates (in_mode enabling) (wait_events ++ (none, 15) ∷ [])
        ≡ record { enable_duration = 10; mode = damping; mode_enter_time = 15 })
enabling_timed_example =
    enabling_timed (in_mode enabling) wait_events (none, 15) refl wait_events-Waits
      wait_events-early none-Waits (omega arith)

abbrev some_latch : Latch
some_latch = record {
  last_consumed_operator_timestamp_ns = some 70;
  last_ignored_operator_timestamp_ns = none;
}

zero_set_acts : is_action (command_of 4) ≡ true
unfolding code_of
zero_set_acts = refl

consume_all_once_example :
    consume_all some_latch (replicate 3 (command_of 4))
    ≡ command_of 4 ∷ replicate 2 (released (command_of 4))
consume_all_once_example = consume_all_once some_latch (command_of 4) 2 zero_set_acts refl

abbrev some_targets : List (ℤ × ℤ)
some_targets = (pos 0x102, negsuc 99) ∷ (pos 0x101, pos 50) ∷ (pos 0x102, pos 7) ∷ []

abbrev built : Result OperatorCommand → OperatorCommand
built (ok c) = c
built (err e) = blank_command

targets_built : publish_zero_set 9 some_targets ≡ ok (built (publish_zero_set 9 some_targets))
unfolding publish_zero_set build_command store_targets
targets_built = refl

zero_set_offsets_by_can_id-publish_zero_set_example :
    Offset 0x102 some_targets
      (zero_set_offsets_by_can_id (some (built (publish_zero_set 9 some_targets))))
zero_set_offsets_by_can_id-publish_zero_set_example =
    zero_set_offsets_by_can_id-publish_zero_set 9 some_targets
      (built (publish_zero_set 9 some_targets)) 0x102 targets_built (λ e. cc)

run_built : publish 9 (code_value run) 0 ≡ ok (built (publish 9 (code_value run) 0))
unfolding publish build_command store_targets
run_built = refl

abbrev some_actuator : ℕ → Actuator ℤ
some_actuator id = record {
  command_id = id;
  mit_config = some_config;
  driver = record {
    state = blank_state;
    comm_manager = new_manager 10;
    transaction_manager = none;
  };
}

abbrev pub some_actuators : List (ℕ × Actuator ℤ)
some_actuators = (0x102, some_actuator 0x102) ∷ (0x101, some_actuator 0x101) ∷ []

run_rezeroes_run :
    (update (in_mode zero_setting) (some (built (publish 9 (code_value run) 0))) 20
      ≡ in_mode zero_setting)
    × (zero_set_offsets_by_can_id (some (built (publish 9 (code_value run) 0))) ≡ ok [])
    × (zero_set_ids [] some_actuators ≡ sorted (keys some_actuators))
run_rezeroes_run =
    run_rezeroes (in_mode zero_setting) 9 0 20 (built (publish 9 (code_value run) 0)) some_actuators
      refl run_built

abbrev pub some_robot : Robot ℤ
some_robot = record {
  machine = in_mode normal;
  latch = some_latch;
  can = record { client = opened; recent_tx_frames = [] };
  actuators = some_actuators;
  imu = imu_driver;
  last_output = record { source = Source.none_source; timestamp_monotonic = 0; targets = [] };
  shm_state_publisher = none;
  dashboard_publisher = none;
  readings = 0;
  sent = [];
}

abbrev pub some_env : Env
some_env = record {
  link = record { connects = ok tt; accepts = λ f. ok tt };
  clock = λ i. 100 + i;
  unix_ns = λ i. 1000 + i;
  imu_enabled = true;
  request_all_each_tick = true;
  imu_request = record { can_id = 0x200; payload = 3 ∷ [] };
  velocity_damping_kd = pos 10;
}

act-Ticked_example : Ticked some_env (command_of 5) some_robot (
    act some_env
      (command_of 5)
      (record { timestamp_ns = 0; num_targets = 0; targets = [] })
      some_robot)
act-Ticked_example =
    act-Ticked some_env (command_of 5) (record { timestamp_ns = 0; num_targets = 0; targets = [] })
      some_robot

standard : Standard encode_disable_frame some_actuators
unfolding encode_disable_frame
standard = ground arith

send_disable_all-Sent_run :
    Sent
      (frames encode_disable_frame some_actuators)
      some_robot
      (send_disable_all some_env some_robot)
send_disable_all-Sent_run = send_disable_all-Sent some_env (λ f. refl) some_robot standard refl
