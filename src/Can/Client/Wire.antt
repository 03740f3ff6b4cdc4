-- ===== src/Can/Client/Wire.antt =====
-- hal/can_bus/process_client.py against robot_controller/subprocesses/can_daemon/main.py: the client, the
-- socket's lines, the handler and the daemon's queue together.
use sparq_control.Common.{
  ℕ, Bool, true, false, List, [], ◌∷◌, Option, none, some, if◌then◌else◌, ◌≡◌, refl, arith, ap, ◌∙◌,
  All, IsByte,
}
use sparq_control.Common.Result.{Result, ok, err, runtime_error}
use sparq_control.Hal.Frame.{CanFrame}
use sparq_control.Can.Hex.{fromhex-hex}
use sparq_control.Can.Message.{Message, tx_request, tx_result, rx_notice, frame_of}
use sparq_control.Can.Daemon.{Daemon, send as enqueue_frame, tx_round}
use sparq_control.Can.Daemon.Fifo.{Log, Holds, offer, take_next, send_refines, tx_round_refines}
use sparq_control.Can.Server.{Server, answer_tx}
use sparq_control.Can.Client.{Client, check_result, send}

-- A line of the client is answered by the handler's round.
abbrev pub exchange : Message → Server → Result Message × Server
exchange m s = let (answer, s') = answer_tx m s in (ok answer, s')

abbrev pub IsFrame : CanFrame → Type 0
IsFrame frame = All IsByte frame.payload

-- A frame in a line is read back, by the handler and by the client.
pub frame_of-tx_request : (f : CanFrame) → IsFrame f → frame_of (tx_request f) ≡ ok f
unfolding frame_of tx_request
frame_of-tx_request f h = rw (fromhex-hex f.payload h) refl

pub frame_of-rx_notice : (f : CanFrame) → IsFrame f → frame_of (rx_notice f) ≡ ok f
unfolding frame_of rx_notice
frame_of-rx_notice f h = rw (fromhex-hex f.payload h) refl

-- What happens to the process: a client sends a frame, or the loop of the daemon makes a round.
pub data Op : Type 0 where
  request : CanFrame → Op
  turn : Op

-- What is seen of it.
pub data Reply : Type 0 where
  sent : Result Bool → Reply
  handed : Option CanFrame → Reply

-- A round of the daemon's loop in its process.
abbrev pub turn_daemon : Server → Option CanFrame × Server
turn_daemon s = elim s.can_daemon [
  | none ↦ (none, s)
  | some d ↦ let (frame, d') = tx_round d in (frame, record s { can_daemon = some d' })
]

unfoldable pub run : Client → List Op → Server → List Reply
unfolding send
run k [] s = []
run k (request frame ∷ ops) s = let (r, s') = send exchange frame k s in sent r ∷ run k ops s'
run k (turn ∷ ops) s = let (frame, s') = turn_daemon s in handed frame ∷ run k ops s'

-- `send` returns `True` or raises `RuntimeError`.
abbrev pub outcome : Bool → Result Bool
outcome b = if b then ok true else err runtime_error

-- The same, on the record of accepted frames.
unfoldable pub run_log : ℕ → List Op → Log → List Reply
unfolding offer take_next
run_log bound [] g = []
run_log bound (request frame ∷ ops) g =
    let (accepted, g') = offer bound frame g in sent (outcome accepted) ∷ run_log bound ops g'
run_log bound (turn ∷ ops) g = let (frame, g') = take_next g in handed frame ∷ run_log bound ops g'

-- Every frame that is sent has bytes as its data.
abbrev pub AreFrames : List Op → Type 0
AreFrames [] = Unit
AreFrames (request frame ∷ ops) = IsFrame frame × AreFrames ops
AreFrames (turn ∷ ops) = AreFrames ops

-- The process serves, its daemon runs with this bound, and its queue holds what the log says.
pub record Serves (bound : ℕ) (s : Server) (g : Log) : Type 0 where
  pub daemon : Daemon
  pub serving : s.can_daemon ≡ some daemon
  pub running : daemon.stop_event ≡ false
  pub same_bound : daemon.max_tx_queue_size ≡ bound
  pub holds : Holds daemon g

check_result-tx_result : (b : Bool) → check_result exchange (ok (tx_result b)) ≡ outcome b
check_result-tx_result true = refl
check_result-tx_result false = refl

-- A request reaches the queue, and the client learns if it was accepted.
send-exchange :
    (frame : CanFrame) (k : Client) (s : Server) (d : Daemon)
    → IsFrame frame
    → k.tx_open ≡ true
    → s.can_daemon ≡ some d
    → send exchange frame k s ≡ (
      outcome (enqueue_frame frame d).0,
      record s { can_daemon = some (enqueue_frame frame d).1 },
    )
unfolding send answer_tx
send-exchange frame k s d h connected serving =
    rw (connected, frame_of-tx_request frame h, serving)
      (ap (λ r. (r, record s { can_daemon = some (enqueue_frame frame d).1 }))
        (check_result-tx_result (enqueue_frame frame d).0))

max-send :
    (frame : CanFrame) (d : Daemon)
    → (enqueue_frame frame d).1.max_tx_queue_size ≡ d.max_tx_queue_size
unfolding enqueue_frame
max-send frame d = ground arith

stop-send : (frame : CanFrame) (d : Daemon) → (enqueue_frame frame d).1.stop_event ≡ d.stop_event
unfolding enqueue_frame
stop-send frame d = ground arith

max-tx_round : (d : Daemon) → (tx_round d).1.max_tx_queue_size ≡ d.max_tx_queue_size
unfolding tx_round
max-tx_round d = ground arith

stop-tx_round : (d : Daemon) → (tx_round d).1.stop_event ≡ d.stop_event
unfolding tx_round
stop-tx_round d = ground arith

-- After a request.
served :
    {bound : ℕ} {s : Server} {g : Log} (frame : CanFrame) (v : Serves bound s g)
    → ((enqueue_frame frame v.daemon).0 ≡ (offer bound frame g).0)
      × Serves bound
          (record s { can_daemon = some (enqueue_frame frame v.daemon).1 })
          (offer bound frame g).1
served {bound} {s} {g} frame v =
    let both = send_refines frame v.daemon g bound v.same_bound v.holds in
    (
      both.0,
      record {
        daemon = (enqueue_frame frame v.daemon).1;
        serving = refl;
        running = stop-send frame v.daemon ∙ v.running;
        same_bound = max-send frame v.daemon ∙ v.same_bound;
        holds = both.1;
      },
    )

-- After a round.
turned :
    {bound : ℕ} {s : Server} {g : Log} (v : Serves bound s g)
    → ((tx_round v.daemon).0 ≡ (take_next g).0)
      × Serves bound (record s { can_daemon = some (tx_round v.daemon).1 }) (take_next g).1
turned {bound} {s} {g} v =
    let both = tx_round_refines v.daemon g v.running v.holds in
    (
      both.0,
      record {
        daemon = (tx_round v.daemon).1;
        serving = refl;
        running = stop-tx_round v.daemon ∙ v.running;
        same_bound = max-tx_round v.daemon ∙ v.same_bound;
        holds = both.1;
      },
    )

-- No sequence of requests and rounds tells the client, the socket and the daemon's queue from the
-- record of accepted frames: a connected client's call returns exactly if fewer than the bound are
-- waiting, and raises otherwise, and the bus gets every accepted frame once, in the order of
-- acceptance. The data of each frame are bytes, and the daemon runs.
pub run_refines :
    (k : Client) (ops : List Op) {bound : ℕ} {s : Server} {g : Log}
    → k.tx_open ≡ true
    → AreFrames ops
    → Serves bound s g
    → run k ops s ≡ run_log bound ops g
unfolding run run_log
run_refines k [] connected frames v = refl
run_refines k (request frame ∷ ops) {bound} {s} {g} connected frames v =
    rw (send-exchange frame k s v.daemon frames.0 connected v.serving, (served frame v).0)
      (ap (λ rs. sent (outcome (offer bound frame g).0) ∷ rs)
        (run_refines k ops connected frames.1 (served frame v).1))
run_refines k (turn ∷ ops) {bound} {s} {g} connected frames v =
    rw (v.serving, (turned v).0)
      (ap (λ rs. handed (take_next g).0 ∷ rs) (run_refines k ops connected frames (turned v).1))
