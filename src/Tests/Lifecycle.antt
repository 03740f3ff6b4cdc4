-- ===== src/Tests/Lifecycle.antt =====
-- Tests of the modules for reception, stopping, and the life of the controller.
use sparq_control.Common.{
  List, ℕ, ◌≡◌, ◌&&◌, true, false, Option, none, some, [], ◌∷◌, ◌++◌, refl, arith, ℤ, pos, any,
  if◌then◌else◌, ◌==◌,
}
use sparq_control.Common.Result.{Result, ok, err, os_error, value_error}
use sparq_control.Hal.Frame.{CanFrame}
use sparq_control.Hal.Bus.{sent_bytes}
use sparq_control.Hal.Bus.Wire.{OnWire, sent_bytes-OnWire}
use sparq_control.Hal.Actuator.{ActuatorState, blank_state, Driver, on_frame}
use sparq_control.Hal.Freshness.{new_manager}
use sparq_control.Hal.Transport.{Transport, opened, is_copy, send_frame}
use sparq_control.Hal.Transport.Echo.{IsMemory, is_recent}
use sparq_control.Hardware.Spg.Encode.{encode_disable_frame}
use sparq_control.Shm.AuxCommand.{buttons_to_mask, mask_to_buttons}
use sparq_control.Shm.AuxCommand.Buttons.{buttons_to_mask-mask_to_buttons}
use sparq_control.Shm.OperatorCommand.{code_of}
use sparq_control.Shm.ControlCommand.{ControlCommand}
use sparq_control.Control.StateMachine.{update}
use sparq_control.Control.Consume.{consume_operator_command}
use sparq_control.Control.Receive.{on_actuator_frame, on_actuator_frame-any, Own, send_frame-Own}
use sparq_control.Control.Lifecycle.{Controller, Outside, running, start, shutdown}
use sparq_control.Control.Lifecycle.Shutdown.{ShutDown, shutdown-ShutDown}
use sparq_control.Control.Lifecycle.Started.{Started, start-Started}
use sparq_control.Control.Tick.{act}
use sparq_control.Control.Tick.Safety.{next_machine}
use sparq_control.Control.Tick.Reach.{Sent, Standard, frames}
use sparq_control.Control.Tick.Stop.{Stops, requests, act_stops-Sent}
use sparq_control.Dashboard.BusLoad.{rx, tx, add, snapshot, count_all}
use sparq_control.Dashboard.BusLoad.Snapshots.{
  Call, add_all, events_of, recent, no_counts, snapshot-recent,
}
use sparq_control.Tests.Numbers.{integers}
use sparq_control.Tests.Control.{some_env, some_robot, some_actuators, command_of}

buttons_to_mask-mask_to_buttons_example : buttons_to_mask (mask_to_buttons 1029) ≡ 1029
buttons_to_mask-mask_to_buttons_example = buttons_to_mask-mask_to_buttons 1029 (omega arith)

abbrev own_frame : CanFrame
own_frame = record { can_id = 0x101; payload = 0xC1 ∷ 0 ∷ [] }

abbrev idle_transport : Transport
idle_transport = record {
  client = opened;
  recent_tx_frames = record { time = 7; can_id = 0x101; payload = 0xC1 ∷ 0 ∷ [] } ∷ [];
}

idle_transport-IsMemory : IsMemory 9 idle_transport.recent_tx_frames
idle_transport-IsMemory = ground arith

abbrev idle_driver : Driver ℤ
idle_driver = record {
  state = blank_state;
  comm_manager = new_manager 10;
  transaction_manager = none;
}

abbrev decode_any : CanFrame → ℕ → Result (Option (ActuatorState ℤ))
decode_any f now =
    if f.can_id == 0x101
    then ok (some (record blank_state { position_rad = some (pos 4) }))
    else err value_error

on_actuator_frame_run :
    (on_actuator_frame decode_any idle_transport idle_driver own_frame 9 10).1 ≡ (
      if any (λ x. is_recent 9 x && is_copy own_frame x) idle_transport.recent_tx_frames
      then idle_driver
      else on_frame decode_any idle_driver own_frame 10)
on_actuator_frame_run =
    on_actuator_frame-any decode_any idle_transport idle_driver own_frame 9 10
      idle_transport-IsMemory

send_frame-Own_example :
    Own decode_any idle_driver own_frame 11 12 (send_frame some_env.link own_frame 9 idle_transport)
send_frame-Own_example =
    send_frame-Own decode_any some_env.link idle_transport idle_driver own_frame 9 11 12
      idle_transport-IsMemory (omega arith) (omega arith)

abbrev no_targets : ControlCommand
no_targets = record { timestamp_ns = 0; num_targets = 0; targets = [] }

estop-Stops : Stops (next_machine some_env (command_of 5) some_robot).mode
unfolding update consume_operator_command code_of
estop-Stops = tt

some_actuators-Standard : Standard encode_disable_frame some_actuators
unfolding encode_disable_frame
some_actuators-Standard = ground arith

act_stops-Sent_example :
    Sent
      (requests some_env ++ frames encode_disable_frame some_actuators)
      some_robot
      (act some_env (command_of 5) no_targets some_robot)
act_stops-Sent_example =
    act_stops-Sent some_env (λ f. refl) (command_of 5) no_targets some_robot some_actuators-Standard
      (omega arith) refl estop-Stops

-- Starting the child processes raises.
abbrev some_outside : Outside
some_outside = record {
  segments = ok tt;
  start_daemon = ok tt;
  register_callbacks = ok tt;
  start_all = err os_error;
  stop_all = ok tt;
  unlink_all = ok tt;
  request_all_on_start = true;
  startup_request_count = 2;
  control_state_period = 10;
  dashboard_period = 50;
}

abbrev some_controller : Controller ℤ
some_controller = record {
  controller_state = running;
  is_running = true;
  is_closed = false;
  robot = some_robot;
}

start-Started_example :
    Started integers some_env some_outside some_controller
      (start integers some_env some_outside some_controller)
start-Started_example = start-Started integers some_env some_outside some_controller

shutdown-ShutDown_example :
    ShutDown integers some_env some_outside some_controller
      (some_robot.sent ++ frames encode_disable_frame some_actuators)
      (shutdown integers some_env some_outside some_controller)
shutdown-ShutDown_example =
    shutdown-ShutDown integers some_env some_outside some_controller (ground arith) (λ f. refl)
      some_actuators-Standard refl

-- The id has 29 bits, of which the receiver keeps 11.
abbrev long_id_frame : CanFrame
long_id_frame = record { can_id = 0x10000801; payload = 1 ∷ 2 ∷ 3 ∷ [] }

sent_bytes-OnWire_example : OnWire long_id_frame (sent_bytes long_id_frame)
sent_bytes-OnWire_example = sent_bytes-OnWire long_id_frame

abbrev bus_calls : List Call
bus_calls =
    record { timestamp = 5; bits = pos 128; direction = rx }
    ∷ record { timestamp = 12; bits = pos 64; direction = tx }
    ∷ record { timestamp = 20; bits = pos 100; direction = rx }
    ∷ []

snapshot-recent_example :
    (snapshot (add_all (record { window = 10; events = [] }) bus_calls) 21).1
    ≡ count_all no_counts (recent 10 21 (events_of bus_calls))
snapshot-recent_example = snapshot-recent 10 bus_calls 21 (ground arith) (ground arith)

snapshot_run :
    (snapshot (add_all (record { window = 10; events = [] }) bus_calls) 21).1
    ≡ record { rx_frames = 1; rx_bits = 100; tx_frames = 1; tx_bits = 64 }
unfolding snapshot add
snapshot_run = refl
