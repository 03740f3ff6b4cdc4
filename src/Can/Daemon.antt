-- ===== src/Can/Daemon.antt =====
-- hal/can_bus/daemon.py: the queue of frames to send and the two loops. A thread is said to run or not,
-- and a round of a loop is one step. `send` is modelled as the program calls it by default, without
-- blocking.
pub mod Fifo
use sparq_control.Common.{
  ℕ, Bool, true, false, not, ◌&&◌, List, [], ◌∷◌, ◌++◌, Option, none, some, ltb, leb, length,
  if◌then◌else◌, ◌==◌,
}
use sparq_control.Common.Result.{Result, ok, err}
use sparq_control.Hal.Frame.{CanFrame}
use sparq_control.Hal.Dispatcher.{
  CallbackId, Dispatcher, empty_dispatcher, register, unregister, register_wildcard, dispatch,
}

-- `CANDaemon`. A queue with the bound 0 has no bound.
pub record Daemon : Type 0 where
  pub dispatcher : Dispatcher
  pub max_tx_queue_size : ℕ
  pub stop_event : Bool
  pub started : Bool
  pub has_rx_thread : Bool
  pub has_tx_thread : Bool
  pub tx_queue : List CanFrame

abbrev pub new_daemon : Dispatcher → ℕ → Daemon
new_daemon dispatcher size = record {
  dispatcher = dispatcher;
  max_tx_queue_size = size;
  stop_event = false;
  started = false;
  has_rx_thread = false;
  has_tx_thread = false;
  tx_queue = [];
}

unfoldable pub register_callback : ℕ → CallbackId → Daemon → Daemon
unfolding register
register_callback can_id c d = record d { dispatcher = register d.dispatcher can_id c }

unfoldable pub unregister_callback : ℕ → CallbackId → Daemon → Daemon
unfolding unregister
unregister_callback can_id c d = record d { dispatcher = unregister d.dispatcher can_id c }

unfoldable pub register_wildcard_callback : CallbackId → Daemon → Daemon
unfolding register_wildcard
register_wildcard_callback c d = record d { dispatcher = register_wildcard d.dispatcher c }

unfoldable pub start : Daemon → Daemon
start d =
    if d.started
    then d
    else record d { stop_event = false; has_rx_thread = true; has_tx_thread = true; started = true }

-- The joins wait for the threads, each for at most the timeout.
unfoldable pub stop : Daemon → Daemon
stop d = if not d.started then d else record d {
  stop_event = true;
  started = false;
  has_rx_thread = false;
  has_tx_thread = false;
}

-- `queue.full()`
abbrev pub is_full : Daemon → Bool
is_full d = not (d.max_tx_queue_size == 0) && leb d.max_tx_queue_size (length d.tx_queue)

-- `send(frame, block=False)`
unfoldable pub send : CanFrame → Daemon → Bool × Daemon
send frame d =
    if is_full d then (false, d) else (true, record d { tx_queue = d.tx_queue ++ frame ∷ [] })

-- A round of `_tx_loop`: the frame that is handed to the bus, which may raise.
unfoldable pub tx_round : Daemon → Option CanFrame × Daemon
tx_round d = if d.stop_event then (none, d) else elim d.tx_queue [
  | [] ↦ (none, d)
  | frame ∷ rest ↦ (some frame, record d { tx_queue = rest })
]

module _ {ℓ} {S : Type ℓ} (call : CallbackId → CanFrame → S → S × Bool) where
  -- A round of `_rx_loop` on what `recv_frame` gave.
  unfoldable pub rx_round : Daemon → Result (Option CanFrame) → S → S
  unfolding dispatch
  rx_round d received s = if d.stop_event then s else elim received [
    | err e ↦ s
    | ok none ↦ s
    | ok (some frame) ↦ (dispatch call d.dispatcher frame s).0
  ]

  -- `_rx_loop`, for as many rounds as frames are given.
  unfoldable pub rx_loop : Daemon → List (Result (Option CanFrame)) → S → S
  unfolding rx_round
  rx_loop d [] s = s
  rx_loop d (received ∷ rest) s = rx_loop d rest (rx_round d received s)
