-- ===== src/Can/Client.antt =====
-- hal/can_bus/process_client.py: the client of the CAN daemon's socket. What the sockets do is an
-- argument: how each attempt at a role ends, what an exchange of a line gives, and the clock.
pub mod Wire
pub mod Connect
use Prim.Native.String.{String}
use sparq_control.Common.{
  ℕ, zero, suc, ◌+◌, Bool, true, false, not, List, [], ◌∷◌, Option, none, some, leb, if◌then◌else◌,
}
use sparq_control.Common.Result.{Result, ok, err, Exn, runtime_error, os_error}
use sparq_control.Hal.Frame.{CanFrame}
use sparq_control.Hal.Dispatcher.{CallbackId, Dispatcher, register, register_wildcard, dispatch}
use sparq_control.Can.Message.{Message, tx_request, is_kind, says_ok, frame_of}

-- `CANProcessClient`. A socket and its file are open or not together.
pub record Client : Type 0 where
  pub rx_enabled : Bool
  pub dispatcher : Dispatcher
  pub tx_open : Bool
  pub rx_open : Bool
  pub has_rx_thread : Bool

unfoldable pub register_callback : ℕ → CallbackId → Client → Client
unfolding register
register_callback can_id c k = record k { dispatcher = register k.dispatcher can_id c }

unfoldable pub register_wildcard_callback : CallbackId → Client → Client
unfolding register_wildcard
register_wildcard_callback c k = record k { dispatcher = register_wildcard k.dispatcher c }

-- `close`
unfoldable pub close : Client → Client
close k = record k { tx_open = false; rx_open = false; has_rx_thread = false }

-- The checks of `_connect_role` on the answer of the daemon.
unfoldable pub check_hello_ack : Message → Result (Unit {0})
check_hello_ack response =
    if not (is_kind "hello_ack" response)
    then err runtime_error
    else if not (says_ok response)
    then err runtime_error
    else ok tt

-- How the two calls of `_connect_role` in an attempt end.
pub record Attempt : Type 0 where
  pub tx : Result (Unit {0})
  pub rx : Result (Unit {0})

-- The body of the `try` of `connect`; the client comes back after a raise too.
unfoldable pub attempt_roles : Attempt → Client → Result (Unit {0}) × Client
attempt_roles a k = elim a.tx [
  | err e ↦ (err e, k)
  | ok _ ↦
      if k.rx_enabled
      then elim a.rx [
        | err e ↦ (err e, record k { tx_open = true })
        | ok _ ↦ (ok tt, record k { tx_open = true; rx_open = true; has_rx_thread = true })
      ]
      else (ok tt, record k { tx_open = true })
]

-- `except OSError`
abbrev pub is_os_error : Exn → Bool
is_os_error os_error = true
is_os_error _ = false

module _ (attempts : ℕ → Attempt) (clock : ℕ → ℕ) where
  -- The loop of `connect`: attempt `n` and the reading of the clock after it. `none` says that the
  -- fuel ran out.
  unfoldable pub connect_from : ℕ → ℕ → ℕ → Client → Option (Result (Unit {0}) × Client)
  unfolding attempt_roles close
  connect_from zero deadline n k = none
  connect_from (suc fuel) deadline n k =
      let (r, k') = attempt_roles (attempts n) k in
      let again = connect_from fuel deadline (n + 1) (close k') in
      elim r [
        | ok _ ↦ some (ok tt, k')
        | err e ↦
            if not (is_os_error e)
            then some (err e, k')
            else if leb deadline (clock n)
            then some (err e, close k')
            else again
      ]

  -- `connect`, which starts at this reading of the clock.
  unfoldable pub connect : ℕ → ℕ → ℕ → Client → Option (Result (Unit {0}) × Client)
  unfolding connect_from
  connect fuel now connect_timeout k = connect_from fuel (now + connect_timeout) 0 k

module _ {ℓ} {S : Type ℓ} (exchange : Message → S → Result Message × S) where
  -- The checks of `send` on the answer.
  abbrev pub check_result : Result Message → Result Bool
  check_result (err e) = err e
  check_result (ok response) =
      if not (is_kind "tx_result" response)
      then err runtime_error
      else if not (says_ok response)
      then err runtime_error
      else ok true

  -- `send`, where `exchange` writes a line and reads the next one.
  unfoldable pub send : CanFrame → Client → S → Result Bool × S
  unfolding tx_request
  send frame k s =
      if not k.tx_open
      then (err runtime_error, s)
      else let (response, s') = exchange (tx_request frame) s in (check_result response, s')

module _ {ℓ} {S : Type ℓ} (call : CallbackId → CanFrame → S → S × Bool) where
  -- A message of `_rx_loop`: a frame is dispatched and other messages are passed over. An exception
  -- ends the thread.
  unfoldable pub rx_message : Client → Message → S → Result S
  unfolding frame_of dispatch
  rx_message k message s = if not (is_kind "rx" message) then ok s else elim (frame_of message) [
    | err e ↦ err e
    | ok frame ↦ ok (dispatch call k.dispatcher frame s).0
  ]

  -- `_rx_loop` on what the reads give: an `OSError` ends it.
  unfoldable pub rx_loop : Client → List (Result Message) → S → S
  unfolding rx_message
  rx_loop k [] s = s
  rx_loop k (err e ∷ rest) s = s
  rx_loop k (ok message ∷ rest) s = elim (rx_message k message s) [
    | err e ↦ s
    | ok s' ↦ rx_loop k rest s'
  ]
