-- ===== src/Hal/Transport.antt =====
-- hal/can_bus/process_transport.py: sending through the CAN daemon's client, and the memory of
-- sent frames by which echoes are told from feedback. Times are in nanoseconds. What the client's
-- socket does is an argument.
pub mod Echo
pub mod Memory
use sparq_control.Common.{
  ℕ, suc, ◌+◌, Bool, true, false, ◌&&◌, List, [], ◌∷◌, ◌++◌, ltb, ◌==◌, if◌then◌else◌, any,
  bytes_eq, length,
}
use sparq_control.Common.Result.{Result, ok, err, value_error, runtime_error}
use sparq_control.Hal.Frame.{CanFrame, can_sff_mask}

-- `TX_ECHO_REJECT_WINDOW_S`, 0.25 s.
abbrev pub tx_echo_reject_window : ℕ
tx_echo_reject_window = 250_000_000

-- `deque(maxlen=512)`
abbrev pub max_recent : ℕ
max_recent = 512

-- An entry of `recent_tx_frames`, oldest first.
pub record Sent : Type 0 where
  pub time : ℕ
  pub can_id : ℕ
  pub payload : List ℕ

-- `self.client`: None, or a client whose connection is closed or open.
pub data Client : Type 0 where
  absent closed opened : Client

pub record Transport : Type 0 where
  pub client : Client
  pub recent_tx_frames : List Sent

-- `is_connected`
abbrev pub is_connected : Transport → Bool
is_connected t = elim t.client [ absent ↦ false | closed ↦ true | opened ↦ true ]

-- How the client's socket answers: to a connection, and to each frame over an open one.
pub record Link : Type 0 where
  pub connects : Result (Unit {0})
  pub accepts : CanFrame → Result (Unit {0})

-- `deque.append` with a bound: the oldest entry is dropped from a full deque.
unfoldable pub push_bounded : List Sent → Sent → List Sent
push_bounded [] x = x ∷ []
push_bounded (y ∷ ys) x =
    if ltb (length (y ∷ ys)) max_recent then (y ∷ ys) ++ x ∷ [] else ys ++ x ∷ []

unfoldable pub remember_tx_frame : Transport → CanFrame → ℕ → Transport
unfolding push_bounded
remember_tx_frame t frame now = record t {
  recent_tx_frames =
      push_bounded t.recent_tx_frames
        (record { time = now; can_id = frame.can_id; payload = frame.payload });
}

-- `connect`, which keeps a client that could not connect.
unfoldable pub connect : Link → Transport → Result (Unit {0}) × Transport
connect link t = elim t.client [
  | closed ↦ (ok tt, t)
  | opened ↦ (ok tt, t)
  | absent ↦ elim link.connects [
    | ok _ ↦ (ok tt, record t { client = opened })
    | err e ↦ (err e, record t { client = closed })
  ]
]

-- `self.client.send`, which raises without a connection.
unfoldable pub client_send : Link → CanFrame → Client → Result (Unit {0})
client_send link frame absent = err runtime_error
client_send link frame closed = err runtime_error
client_send link frame opened = link.accepts frame

-- `send_frame`; the state comes back after a raise too.
unfoldable pub send_frame : Link → CanFrame → ℕ → Transport → Result (Unit {0}) × Transport
unfolding connect client_send remember_tx_frame
send_frame link frame now t =
    if ltb can_sff_mask frame.can_id
    then (err value_error, t)
    else let (r, t') = connect link t in
      elim r [
        | err e ↦ (err e, t')
        | ok _ ↦ elim (client_send link frame t'.client) [
          | err e ↦ (err e, t')
          | ok _ ↦ (ok tt, remember_tx_frame t' frame now)
        ]
      ]

-- The entries from the first that is not older than the window.
unfoldable pub drop_old : ℕ → List Sent → List Sent
drop_old now [] = []
drop_old now (x ∷ xs) =
    let rest = drop_old now xs in if ltb (x.time + tx_echo_reject_window) now then rest else x ∷ xs

abbrev pub is_copy : CanFrame → Sent → Bool
is_copy frame x = x.can_id == frame.can_id && bytes_eq x.payload frame.payload

unfoldable pub is_recent_tx_echo : Transport → CanFrame → ℕ → Transport × Bool
unfolding drop_old
is_recent_tx_echo t frame now =
    let recent = drop_old now t.recent_tx_frames in
    (record t { recent_tx_frames = recent }, any (is_copy frame) recent)
