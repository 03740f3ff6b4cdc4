-- ===== src/Can/Daemon/Fifo.antt =====
-- hal/can_bus/daemon.py: the queue against an abstract one, the record of all accepted frames with a
-- cursor.
use sparq_control.Common.{
  ℕ, zero, suc, ◌-◌, ◌≤◌, ◌<◌, Bool, true, false, not, ◌&&◌, List, [], ◌∷◌, ◌++◌, Option, none,
  some, leb, length, if◌then◌else◌, ◌==◌, ◌≡◌, refl, arith, ap, length-append, Option-cases, inl,
  inr,
}
use sparq_control.Hal.Frame.{CanFrame}
use sparq_control.Can.Daemon.{Daemon, send, tx_round}

-- The frames that were ever accepted, and how many of them were handed to the bus.
pub record Log : Type 0 where
  pub accepted : List CanFrame
  pub handed : ℕ

unfoldable pub drop : ℕ → List CanFrame → List CanFrame
drop zero xs = xs
drop (suc n) [] = []
drop (suc n) (x ∷ xs) = drop n xs

-- `xs[n]`
abbrev pub frame_at : ℕ → List CanFrame → Option CanFrame
frame_at n [] = none
frame_at zero (x ∷ xs) = some x
frame_at (suc n) (x ∷ xs) = frame_at n xs

module _ (bound : ℕ) where
  -- A frame is accepted if fewer than the bound are waiting.
  unfoldable pub offer : CanFrame → Log → Bool × Log
  offer frame g =
      if not (bound == 0) && leb bound (length g.accepted - g.handed)
      then (false, g)
      else (true, record g { accepted = g.accepted ++ frame ∷ [] })

-- The next frame in the order of acceptance.
unfoldable pub take_next : Log → Option CanFrame × Log
take_next g = elim (frame_at g.handed g.accepted) [
  | none ↦ (none, g)
  | some frame ↦ (some frame, record g { handed = suc g.handed })
]

-- The queue holds the accepted frames from the cursor on.
pub record Holds (d : Daemon) (g : Log) : Type 0 where
  pub rest : d.tx_queue ≡ drop g.handed g.accepted
  pub within : g.handed ≤ length g.accepted

pub length-drop : (n : ℕ) (xs : List CanFrame) → length (drop n xs) ≡ length xs - n
unfolding drop
length-drop zero xs = omega arith
length-drop (suc n) [] = omega arith
length-drop (suc n) (x ∷ xs) = omega (arith, length-drop n xs)

drop-append : (n : ℕ) (xs ys : List CanFrame) → n ≤ length xs → drop n (xs ++ ys) ≡ drop n xs ++ ys
unfolding drop
drop-append zero xs ys h = refl
drop-append (suc n) [] ys h = absurd (omega arith)
drop-append (suc n) (x ∷ xs) ys h = drop-append n xs ys (omega arith)

-- The list from a cursor on is empty or begins with the frame there.
drop-frame_at :
    (n : ℕ) (xs : List CanFrame)
    → drop n xs ≡ elim (frame_at n xs) [ none ↦ [] | some x ↦ x ∷ drop (suc n) xs ]
unfolding drop
drop-frame_at zero [] = refl
drop-frame_at zero (x ∷ xs) = ap (λ ys. x ∷ ys) refl
drop-frame_at (suc n) [] = refl
drop-frame_at (suc n) (x ∷ xs) = drop-frame_at n xs

-- `send` answers as the log does, and the queue goes on holding what the log says.
pub send_refines :
    (frame : CanFrame) (d : Daemon) (g : Log) (bound : ℕ)
    → d.max_tx_queue_size ≡ bound
    → Holds d g
    → ((send frame d).0 ≡ (offer bound frame g).0) × Holds (send frame d).1 (offer bound frame g).1
unfolding send offer
send_refines frame d g bound same h = ground (
  arith,
  same,
  h.rest,
  h.within,
  length-drop g.handed g.accepted,
  drop-append g.handed g.accepted (frame ∷ []),
  length-append g.accepted (frame ∷ []),
)

frame_at-lt : (n : ℕ) (xs : List CanFrame) (x : CanFrame) → frame_at n xs ≡ some x → n < length xs
frame_at-lt n [] x h = absurd (ground (arith, h))
frame_at-lt zero (y ∷ xs) x h = omega arith
frame_at-lt (suc n) (y ∷ xs) x h = omega (arith, frame_at-lt n xs x h)

-- A round of the loop that sends takes the next frame of the log.
pub tx_round_refines :
    (d : Daemon) (g : Log)
    → d.stop_event ≡ false
    → Holds d g
    → ((tx_round d).0 ≡ (take_next g).0) × Holds (tx_round d).1 (take_next g).1
unfolding tx_round take_next
tx_round_refines d g running h = elim (Option-cases (frame_at g.handed g.accepted)) [
  | inl none_left ↦
      ground (arith, running, h.rest, h.within, drop-frame_at g.handed g.accepted, none_left)
  | inr (frame, next) ↦ ground (
    arith,
    running,
    h.rest,
    drop-frame_at g.handed g.accepted,
    next,
    frame_at-lt g.handed g.accepted frame next,
  )
]
