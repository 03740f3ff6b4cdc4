-- ===== src/Can/Server.antt =====
-- robot_controller/subprocesses/can_daemon/main.py: the process around the daemon. A socket of a client
-- is a number. Opening sockets, signals and the accepting of clients are outside of the model.
pub mod Subscribers
use Prim.Native.String.{String}
use text.Mathlib.Text.{◌==◌ as str_eq}
use sparq_control.Common.{
  ℕ, Bool, true, false, not, List, [], ◌∷◌, ◌++◌, Option, none, some, elem, ◌==◌, if◌then◌else◌,
}
use sparq_control.Common.Result.{Result, ok, err, assertion_error, runtime_error}
use sparq_control.Hal.Frame.{CanFrame}
use sparq_control.Can.Message.{Message, hello_ack, tx_result, is_kind, frame_of}
use sparq_control.Can.Daemon.{Daemon, send}

-- The set of `RxSubscribers`, as a list without repetition.
abbrev pub Subscribers : Type 0
Subscribers = List ℕ

-- `add`
unfoldable pub add : ℕ → Subscribers → Subscribers
add sock subs = if elem sock subs then subs else subs ++ sock ∷ []

-- `remove`
unfoldable pub remove : ℕ → Subscribers → Subscribers
remove sock [] = []
remove sock (x ∷ subs) = if sock == x then remove sock subs else x ∷ remove sock subs

module _ (accepts : ℕ → Bool) where
  -- The loop of `publish` over a copy of the set, where `accepts` says if `sendall` returns. The
  -- sockets that took the line, and the set.
  unfoldable pub publish_to : List ℕ → Subscribers → List ℕ × Subscribers
  unfolding remove
  publish_to [] subs = ([], subs)
  publish_to (sock ∷ rest) subs =
      let (taken, left) = publish_to rest (if accepts sock then subs else remove sock subs) in
      (if accepts sock then sock ∷ taken else taken, left)

  -- `publish`
  unfoldable pub publish : Subscribers → List ℕ × Subscribers
  unfolding publish_to
  publish subs = publish_to subs subs

-- `CANSubprocessDaemon`
pub record Server : Type 0 where
  pub subscribers : Subscribers
  pub stop_event : Bool
  pub has_server_sock : Bool
  pub has_can_bus : Bool
  pub can_daemon : Option Daemon
  pub socket_exists : Bool

-- The frame goes into the daemon's queue; `assert self._can_daemon is not None`.
abbrev pub enqueue : Result CanFrame → Server → Message × Server
enqueue (err e) s = (tx_result false, s)
enqueue (ok frame) s = elim s.can_daemon [
  | none ↦ (tx_result false, s)
  | some d ↦ let (sent, d') = send frame d in (tx_result sent, record s { can_daemon = some d' })
]

-- A round of `_handle_tx_client`: the answer to a message. Every exception becomes an answer.
unfoldable pub answer_tx : Message → Server → Message × Server
unfolding frame_of send
answer_tx message s =
    if not (is_kind "tx" message) then (tx_result false, s) else enqueue (frame_of message) s

-- `_handle_tx_client`, on what the reads give. It ends when a read raises.
unfoldable pub handle_tx_client : List (Result Message) → Server → List Message × Server
unfolding answer_tx
handle_tx_client [] s = ([], s)
handle_tx_client (err e ∷ rest) s = ([], s)
handle_tx_client (ok message ∷ rest) s =
    if s.stop_event
    then ([], s)
    else let (answer, s') = answer_tx message s in
      let (answers, s'') = handle_tx_client rest s' in (answer ∷ answers, s'')

-- The role that a client asks for.
abbrev pub has_role : String → Message → Bool
has_role name m = elim m.role [ none ↦ false | some r ↦ str_eq r name ]

-- The subscription while a client with the role "rx" is connected.
unfoldable pub subscribe : ℕ → Server → Server
unfolding add
subscribe sock s = record s { subscribers = add sock s.subscribers }

-- The `finally` of `_handle_client`.
unfoldable pub leave : ℕ → Server → Server
unfolding remove
leave sock s = record s { subscribers = remove sock s.subscribers }

-- `_handle_client` from the first line that the client sends to the end of the connection: the
-- answers, and the process after it. What others do to the process in the meantime is `meanwhile`.
unfoldable pub handle_client :
    ℕ → (Server → Server) → Result Message → List (Result Message) → Server → List Message × Server
unfolding handle_tx_client subscribe leave
handle_client sock meanwhile (err e) lines s = ([], leave sock s)
handle_client sock meanwhile (ok first) lines s =
    if not (is_kind "hello" first)
    then ([], leave sock s)
    else if has_role "tx" first
    then (let (answers, s') = handle_tx_client lines s in (hello_ack ∷ answers, leave sock s'))
    else if has_role "rx" first
    then (hello_ack ∷ [], leave sock (meanwhile (subscribe sock s)))
    else (hello_ack ∷ [], leave sock s)

-- `shutdown`, after which the daemon and the bus are gone.
unfoldable pub shutdown : Server → Server
shutdown s = record s {
  stop_event = true;
  has_server_sock = false;
  can_daemon = none;
  has_can_bus = false;
  socket_exists = false;
}

-- `_start_server`, up to opening the socket.
unfoldable pub start_server : Bool → Server → Result Server
start_server replace_existing_socket s =
    if s.socket_exists
    then if not replace_existing_socket
      then err runtime_error
      else ok (record s { has_server_sock = true })
    else ok (record s { has_server_sock = true; socket_exists = true })
