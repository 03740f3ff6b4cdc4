-- ===== src/Tests/Hal.antt =====
-- Tests of the modules for hal/can_bus and hal/hardware/can.
use sparq_control.Common.{
  ℕ, ◌+◌, ◌≡◌, Bool, true, false, not, Option, none, some, List, [], ◌∷◌, ◌++◌, refl, arith, ℤ, pos,
  if◌then◌else◌, ◌==◌, any, ◌&&◌, map, length,
}
use sparq_control.Common.Result.{Result, ok, err, value_error}
use sparq_control.Hal.Frame.{CanFrame}
use sparq_control.Hal.Dispatcher.{
  Dispatcher, CallbackId, empty_dispatcher, find, callbacks_for, register, unregister, dispatch,
}
use sparq_control.Hal.Dispatcher.Registered.{
  register_each, register_wildcards, registered, dispatch-registered,
}
use sparq_control.Hal.Dispatcher.Dispatch.{after_all, returned_count, dispatch-after_all}
use sparq_control.Hal.Dispatcher.Registry.{
  IsTable, removed, register-callbacks_for, unregister-callbacks_for,
}
use sparq_control.Hal.Freshness.{CommManager, new_manager, update_fault_flags, is_fresh}
use sparq_control.Hal.Freshness.Laws.{is_late, update_fault_flags-is_late}
use sparq_control.Hal.Freshness.Traces.{
  Call, rx, decode_error, poll, Counts, run_calls, run_calls-Counts,
}
use sparq_control.Hal.Transaction.{start_transaction, is_done, mark_all}
use sparq_control.Hal.Transaction.Laws.{has_all, is_empty, event_set, start_transaction-is_done}
use sparq_control.Hal.Transport.{Transport, Link, absent, send_frame, is_recent_tx_echo, is_copy}
use sparq_control.Hal.Transport.Echo.{IsMemory, is_recent, is_recent_tx_echo-any}
use sparq_control.Hal.Transport.Memory.{send_frame-IsMemory}
use sparq_control.Hal.Actuator.{ActuatorState, blank_state, Driver, on_frame}
use sparq_control.Hal.Actuator.Received.{receive_all, decoded, failed, receive_all-last_some}
use sparq_control.Hal.Actuator.Latest.{last_some, merge_all, merge_all-last_some}
use sparq_control.Hal.Actuator.OnFrame.{Handles, on_frame-Handles}

abbrev frame_one : CanFrame
frame_one = record { can_id = 0x101; payload = 0xC1 ∷ 0 ∷ [] }

-- Two callbacks of the frame's id and a wildcard; the second raises.
abbrev some_dispatcher : Dispatcher
some_dispatcher = record { callbacks_by_id = (0x101, 1 ∷ 2 ∷ []) ∷ []; wildcard_callbacks = 3 ∷ [] }

abbrev log_call : CallbackId → CanFrame → List ℕ → List ℕ × Bool
log_call c frame log = (log ++ c ∷ [], not (c == 2))

dispatch-after_all_run : dispatch log_call some_dispatcher frame_one [] ≡ (
  after_all log_call (callbacks_for some_dispatcher 0x101 ++ 3 ∷ []) frame_one [],
  returned_count log_call (callbacks_for some_dispatcher 0x101 ++ 3 ∷ []) frame_one [],
)
dispatch-after_all_run = dispatch-after_all log_call some_dispatcher frame_one []

abbrev some_registrations : List (ℕ × CallbackId)
some_registrations = (0x101, 1) ∷ (0x102, 5) ∷ (0x101, 2) ∷ []

dispatch-registered_example :
    dispatch log_call
      (register_wildcards (register_each empty_dispatcher some_registrations) (3 ∷ []))
      frame_one
      []
    ≡ (
      after_all log_call (registered 0x101 some_registrations ++ 3 ∷ []) frame_one [],
      returned_count log_call (registered 0x101 some_registrations ++ 3 ∷ []) frame_one [],
    )
dispatch-registered_example = dispatch-registered log_call some_registrations (3 ∷ []) frame_one []

dispatch_run : dispatch log_call some_dispatcher frame_one [] ≡ (1 ∷ 2 ∷ 3 ∷ [], 2)
unfolding dispatch
dispatch_run = refl

some_dispatcher-IsTable : IsTable some_dispatcher.callbacks_by_id
unfolding find
some_dispatcher-IsTable = ground arith

register-callbacks_for_run :
    IsTable (register some_dispatcher 0x101 9).callbacks_by_id
    × (callbacks_for (register some_dispatcher 0x101 9) 0x101
        ≡ callbacks_for some_dispatcher 0x101 ++ 9 ∷ [])
register-callbacks_for_run =
    register-callbacks_for some_dispatcher 0x101 0x101 9 some_dispatcher-IsTable

unregister-callbacks_for_run :
    IsTable (unregister some_dispatcher 0x101 1).callbacks_by_id
    × (callbacks_for (unregister some_dispatcher 0x101 1) 0x101
        ≡ removed 1 (callbacks_for some_dispatcher 0x101))
unregister-callbacks_for_run =
    unregister-callbacks_for some_dispatcher 0x101 0x101 1 some_dispatcher-IsTable

-- Received at 5 with a timeout of 10, and fresh.
abbrev seen_manager : CommManager
seen_manager = record {
  timeout = 10;
  status = record {
    is_online = true;
    is_stale = false;
    rx_count = 1;
    timeout_count = 0;
    decode_error_count = 0;
    last_rx_t = 5;
    last_fault_t = 0;
  };
}

update_fault_flags-is_late_example :
    let m' = update_fault_flags seen_manager 20 in
    let falls = is_late seen_manager 20 && not seen_manager.status.is_stale in
    (m'.status.is_stale ≡ is_late seen_manager 20)
    × (m'.status.is_online ≡ not (is_late seen_manager 20))
    × (m'.status.timeout_count ≡ 0 + (if falls then 1 else 0))
    × (m'.status.last_fault_t ≡ (if falls then 20 else 0))
    × (m'.status.rx_count ≡ 1)
    × (m'.status.decode_error_count ≡ 0)
    × (m'.status.last_rx_t ≡ 5)
    × (m'.timeout ≡ 10)
    × (is_fresh seen_manager 20 ≡ (m', not (is_late seen_manager 20)))
update_fault_flags-is_late_example = update_fault_flags-is_late seen_manager 20

abbrev some_calls : List Call
some_calls = rx none 3 ∷ poll 20 ∷ decode_error 21 ∷ poll 25 ∷ rx (some 26) 26 ∷ []

run_calls-Counts_example : Counts 2 1 (run_calls (new_manager 10) some_calls)
run_calls-Counts_example = run_calls-Counts 10 some_calls (ground arith)

start_transaction-is_done_example :
    let m = mark_all (start_transaction (1 ∷ 2 ∷ []) 10 0) (2 ∷ 5 ∷ 1 ∷ []) in
    (is_done m ≡ has_all (1 ∷ 2 ∷ []) (2 ∷ 5 ∷ 1 ∷ []))
    × (event_set m ≡ not (is_empty (2 ∷ 5 ∷ 1 ∷ [])) && has_all (1 ∷ 2 ∷ []) (2 ∷ 5 ∷ 1 ∷ []))
start_transaction-is_done_example = start_transaction-is_done (1 ∷ 2 ∷ []) 10 0 (2 ∷ 5 ∷ 1 ∷ [])

abbrev some_transport : Transport
some_transport = record {
  client = absent;
  recent_tx_frames = record { time = 7; can_id = 0x101; payload = 0xC1 ∷ 0 ∷ [] } ∷ [];
}

some_transport-IsMemory : IsMemory 9 some_transport.recent_tx_frames
some_transport-IsMemory = ground arith

is_recent_tx_echo-any_example :
    (is_recent_tx_echo some_transport frame_one 9).1
    ≡ any (λ x. is_recent 9 x && is_copy frame_one x) some_transport.recent_tx_frames
is_recent_tx_echo-any_example =
    is_recent_tx_echo-any some_transport frame_one 9 some_transport-IsMemory

abbrev good_link : Link
good_link = record { connects = ok tt; accepts = λ f. ok tt }

send_frame-IsMemory_run :
    IsMemory 12 (send_frame good_link frame_one 12 some_transport).1.recent_tx_frames
send_frame-IsMemory_run =
    send_frame-IsMemory good_link frame_one some_transport 9 12 some_transport-IsMemory
      (omega arith)

abbrev state_at : Option ℤ → Option ℕ → ActuatorState ℤ
state_at p f = record blank_state { position_rad = p; fault_code = f }

abbrev some_driver : Driver ℤ
some_driver = record {
  state = state_at (some (pos 1)) none;
  comm_manager = new_manager 10;
  transaction_manager = none;
}

abbrev decode_some : CanFrame → ℕ → Result (Option (ActuatorState ℤ))
decode_some f now =
    if f.can_id == 0x101 then ok (some (state_at none (some 4))) else err value_error

on_frame-Handles_run :
    Handles
      (decode_some frame_one 30)
      frame_one
      30
      some_driver
      (on_frame decode_some some_driver frame_one 30)
on_frame-Handles_run = on_frame-Handles decode_some some_driver frame_one 30

abbrev first_state : ActuatorState ℤ
first_state = state_at (some (pos 1)) none

abbrev later_states : List (ActuatorState ℤ)
later_states = state_at (some (pos 2)) none ∷ state_at none (some 7) ∷ []

merge_all-last_some_run :
    let t = merge_all first_state later_states in
    (t.position_rad ≡ some (pos 2))
    × (t.velocity_rad_s ≡ none)
    × (t.torque_nm ≡ none)
    × (t.current_a ≡ none)
    × (t.temperature_c ≡ none)
    × (t.voltage_v ≡ none)
    × (t.fault_code ≡ some 7)
    × (t.is_enabled ≡ none)
    × (t.mode ≡ none)
merge_all-last_some_run = merge_all-last_some first_state later_states

abbrev some_frames : List (CanFrame × ℕ)
some_frames = (frame_one, 30) ∷ (frame_one, 31) ∷ []

receive_all-last_some_example :
    let d = receive_all decode_some some_driver some_frames in
    let ps = decoded decode_some some_frames in
    (d.state.position_rad
      ≡ last_some (some_driver.state.position_rad ∷ map (λ p. p.position_rad) ps))
    × (d.state.velocity_rad_s
        ≡ last_some (some_driver.state.velocity_rad_s ∷ map (λ p. p.velocity_rad_s) ps))
    × (d.state.torque_nm ≡ last_some (some_driver.state.torque_nm ∷ map (λ p. p.torque_nm) ps))
    × (d.state.current_a ≡ last_some (some_driver.state.current_a ∷ map (λ p. p.current_a) ps))
    × (d.state.temperature_c
        ≡ last_some (some_driver.state.temperature_c ∷ map (λ p. p.temperature_c) ps))
    × (d.state.voltage_v ≡ last_some (some_driver.state.voltage_v ∷ map (λ p. p.voltage_v) ps))
    × (d.state.fault_code ≡ last_some (some_driver.state.fault_code ∷ map (λ p. p.fault_code) ps))
    × (d.state.is_enabled ≡ last_some (some_driver.state.is_enabled ∷ map (λ p. p.is_enabled) ps))
    × (d.state.mode ≡ last_some (some_driver.state.mode ∷ map (λ p. p.mode) ps))
    × (d.comm_manager.status.rx_count ≡ some_driver.comm_manager.status.rx_count + length ps)
    × (d.comm_manager.status.decode_error_count
        ≡ some_driver.comm_manager.status.decode_error_count + failed decode_some some_frames)
receive_all-last_some_example = receive_all-last_some decode_some some_driver some_frames
