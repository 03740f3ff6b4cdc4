-- ===== src/Tests/Can.antt =====
-- Tests of the modules for the CAN daemon and its client.
use sparq_control.Common.{
  ℕ, ◌*◌, ◌==◌, true, false, List, [], ◌∷◌, none, some, elem, filter, ◌≡◌, refl, arith,
  if◌then◌else◌,
}
use sparq_control.Common.Result.{ok, err, os_error, runtime_error}
use sparq_control.Hal.Frame.{CanFrame}
use sparq_control.Hal.Dispatcher.{empty_dispatcher}
use sparq_control.Can.Hex.{hex, fromhex}
use sparq_control.Can.Message.{hello}
use sparq_control.Can.Daemon.{Daemon, new_daemon}
use sparq_control.Can.Daemon.Fifo.{Log, drop}
use sparq_control.Can.Server.{Server, publish, handle_client}
use sparq_control.Can.Server.Subscribers.{Spares, publish-filter, handle_client-elem}
use sparq_control.Can.Client.{Client, Attempt, connect}
use sparq_control.Can.Client.Wire.{
  Op, request, turn, sent, handed, run, run_log, Serves, run_refines,
}
use sparq_control.Can.Client.Connect.{closed_client, retry_sleep, Ends, connect-Ends}

abbrev digits : List ℕ
digits = 99 ∷ 48 ∷ 48 ∷ 102 ∷ []

hex_run : hex (0xC0 ∷ 0x0F ∷ []) ≡ digits
unfolding hex
hex_run = refl

fromhex_run : fromhex (32 ∷ 67 ∷ 48 ∷ []) ≡ ok (0xC0 ∷ [])
unfolding fromhex
fromhex_run = refl

abbrev frame_one : CanFrame
frame_one = record { can_id = 1; payload = 0xC1 ∷ [] }

abbrev frame_two : CanFrame
frame_two = record { can_id = 2; payload = [] }

-- A daemon with room for one frame.
abbrev small_daemon : Daemon
small_daemon = new_daemon empty_dispatcher 1

abbrev some_server : Server
some_server = record {
  subscribers = 4 ∷ 7 ∷ [];
  stop_event = false;
  has_server_sock = true;
  has_can_bus = true;
  can_daemon = some small_daemon;
  socket_exists = true;
}

abbrev some_client : Client
some_client = record (closed_client false empty_dispatcher) { tx_open = true }

abbrev nothing_yet : Log
nothing_yet = record { accepted = []; handed = 0 }

some_server-Serves : Serves 1 some_server nothing_yet
unfolding drop
some_server-Serves = record {
  daemon = small_daemon;
  serving = refl;
  running = refl;
  same_bound = refl;
  holds = record { rest = refl; within = omega arith };
}

abbrev some_ops : List Op
some_ops = request frame_one ∷ request frame_two ∷ turn ∷ request frame_two ∷ turn ∷ turn ∷ []

run_refines_example : run some_client some_ops some_server ≡ run_log 1 some_ops nothing_yet
run_refines_example =
    run_refines some_client some_ops refl ((omega arith, tt), (tt, (tt, tt))) some_server-Serves

run_log_run :
    run_log 1 some_ops nothing_yet
    ≡ sent (ok true)
      ∷ sent (err runtime_error)
      ∷ handed (some frame_one)
      ∷ sent (ok true)
      ∷ handed (some frame_two)
      ∷ handed none
      ∷ []
unfolding run_log
run_log_run = refl

-- The daemon opens its socket only for the third attempt.
abbrev some_attempts : ℕ → Attempt
some_attempts n =
    if n == 2 then record { tx = ok tt; rx = ok tt } else record { tx = err os_error; rx = ok tt }

connect-Ends_example :
    Ends some_attempts
      (λ n. n * retry_sleep)
      100_000_000
      true
      0
      (connect some_attempts
        (λ n. n * retry_sleep)
        3
        0
        100_000_000
        (closed_client true empty_dispatcher))
connect-Ends_example =
    connect-Ends some_attempts (λ n. n * retry_sleep) 2 0 100_000_000 true empty_dispatcher
      (omega arith) (λ m. omega arith) (omega arith)

publish-filter_example :
    publish (λ sock. sock == 7) (4 ∷ 7 ∷ [])
    ≡ (filter (λ sock. sock == 7) (4 ∷ 7 ∷ []), filter (λ sock. sock == 7) (4 ∷ 7 ∷ []))
publish-filter_example = publish-filter (λ sock. sock == 7) (4 ∷ 7 ∷ [])

handle_client-elem_example :
    let t = (handle_client 9 (λ s. s) (ok (hello "rx")) [] some_server).1 in
    (elem 9 t.subscribers ≡ false)
    × ((x : ℕ)
        → (9 == x) ≡ false
        → Spares x (λ s. s)
        → elem x t.subscribers ≡ elem x some_server.subscribers)
handle_client-elem_example = handle_client-elem 9 (λ s. s) (ok (hello "rx")) [] some_server
