-- ===== src/Hal/Transport/Memory.antt =====
-- What sending does to the echo memory of hal/can_bus/process_transport.py.
use sparq_control.Common.{
  ℕ, ◌+◌, ◌≤◌, ◌<◌, Bool, true, ◌&&◌, ◌≡◌, ◌⊎◌, ◌∙◌, refl, arith, List, [], ◌∷◌, ◌++◌, any,
  bytes_eq, length-append,
}
use sparq_control.Common.Result.{Result, ok, err}
use sparq_control.Hal.Frame.{CanFrame, can_sff_mask}
use sparq_control.Hal.Transport.{
  tx_echo_reject_window, Sent, closed, opened, absent, connect, client_send, Transport, Link,
  push_bounded, remember_tx_frame, send_frame, is_copy, is_recent_tx_echo,
}
use sparq_control.Hal.Transport.Echo.{
  Ordered, newest, IsMemory, is_recent, Ordered-weaken, is_recent_tx_echo-any,
}

Ordered-append :
    (t : ℕ) (xs : List Sent) (x : Sent)
    → Ordered t xs
    → newest t xs ≤ x.time
    → Ordered t (xs ++ x ∷ [])
Ordered-append t [] x h le = (le, tt)
Ordered-append t (y ∷ ys) x h le = (h.0, Ordered-append y.time ys x h.1 le)

newest-append : (t : ℕ) (xs : List Sent) (x : Sent) → newest t (xs ++ x ∷ []) ≡ x.time
newest-append t [] x = refl
newest-append t (y ∷ ys) x = newest-append y.time ys x

Ordered-newest : (t : ℕ) (xs : List Sent) → Ordered t xs → t ≤ newest t xs
Ordered-newest t [] h = omega arith
Ordered-newest t (y ∷ ys) h = omega (arith, h.0, Ordered-newest y.time ys h.1)

newest-weaken : (s t : ℕ) (xs : List Sent) → s ≤ t → newest s xs ≤ newest t xs
newest-weaken s t [] le = le
newest-weaken s t (x ∷ xs) le = omega arith

push_bounded-IsMemory :
    (xs : List Sent) (x : Sent) (now : ℕ)
    → IsMemory now xs
    → now ≤ x.time
    → IsMemory x.time (push_bounded xs x)
unfolding push_bounded
push_bounded-IsMemory [] x now h le = omega arith
push_bounded-IsMemory (y ∷ ys) x now (o, n, l) le = ground (
  arith,
  o.1,
  Ordered-append 0 (y ∷ ys) x o,
  newest-append 0 (y ∷ ys) x,
  length-append (y ∷ ys) (x ∷ []),
  Ordered-append 0 ys x (Ordered-weaken 0 y.time ys (omega arith) o.1),
  newest-append 0 ys x,
  newest-weaken 0 y.time ys,
  length-append ys (x ∷ []),
)

any-append_last :
    (p : Sent → Bool) (xs : List Sent) (x : Sent) → p x ≡ true → any p (xs ++ x ∷ []) ≡ true
any-append_last p [] x h = ground arith
any-append_last p (y ∷ ys) x h = ground (arith, any-append_last p ys x h)

any-push_bounded :
    (p : Sent → Bool) (xs : List Sent) (x : Sent) → p x ≡ true → any p (push_bounded xs x) ≡ true
unfolding push_bounded
any-push_bounded p [] x h = ground arith
any-push_bounded p (y ∷ ys) x h =
    ground (arith, any-append_last p (y ∷ ys) x h, any-append_last p ys x h)

bytes_eq_self : (xs : List ℕ) → bytes_eq xs xs ≡ true
bytes_eq_self [] = refl
bytes_eq_self (x ∷ xs) = ground (arith, bytes_eq_self xs)

-- The memory's invariant is kept by sending, whatever the result, and by the echo test, as long as
-- the clock does not go back. The memory never holds more than 512 frames.
pub send_frame-IsMemory :
    (link : Link) (frame : CanFrame) (t : Transport) (now later : ℕ)
    → IsMemory now t.recent_tx_frames
    → now ≤ later
    → IsMemory later (send_frame link frame later t).1.recent_tx_frames
unfolding send_frame
send_frame-IsMemory link frame t now later h le = ground (
  arith,
  push_bounded-IsMemory t.recent_tx_frames
      (record { time = later; can_id = frame.can_id; payload = frame.payload }) now h le,
)

copy_echo :
    (frame : CanFrame) (t : Transport) (now later : ℕ)
    → IsMemory now t.recent_tx_frames
    → now ≤ later
    → later ≤ now + tx_echo_reject_window
    → (is_recent_tx_echo (remember_tx_frame t frame now) frame later).1 ≡ true
unfolding remember_tx_frame
copy_echo frame t now later h le win =
    let x : Sent = record { time = now; can_id = frame.can_id; payload = frame.payload } in
    let t' = remember_tx_frame t frame now in
    let (o, n, l) = push_bounded-IsMemory t.recent_tx_frames x now h (omega arith) in
    is_recent_tx_echo-any t' frame later (o, omega arith, l)
    ∙ any-push_bounded (λ y. is_recent later y && is_copy frame y) t.recent_tx_frames x
        (ground (arith, bytes_eq_self frame.payload))

-- What a send has done, by its result, as seen by an echo test at `later`.
abbrev pub Sends : Link → CanFrame → ℕ → Transport → Result (Unit {0}) × Transport → Type 0
Sends link frame later t (ok _, t') =
    (frame.can_id ≤ can_sff_mask)
    × (link.accepts frame ≡ ok tt)
    × (t'.client ≡ opened)
    × ((t.client ≡ opened) ⊎ ((t.client ≡ absent) × (link.connects ≡ ok tt)))
    × ((is_recent_tx_echo t' frame later).1 ≡ true)
Sends link frame later t (err e, t') =
    (t'.recent_tx_frames ≡ t.recent_tx_frames)
    × (((can_sff_mask < frame.can_id) × (t' ≡ t))
        ⊎ (((t.client ≡ closed) × (t' ≡ t))
            ⊎ (((t.client ≡ absent) × (link.connects ≡ err e) × (t'.client ≡ closed))
                ⊎ ((link.accepts frame ≡ err e) × (t'.client ≡ opened)))))

pub send_frame-Sends :
    (link : Link) (frame : CanFrame) (t : Transport) (now later : ℕ)
    → IsMemory now t.recent_tx_frames
    → now ≤ later
    → later ≤ now + tx_echo_reject_window
    → Sends link frame later t (send_frame link frame now t)
unfolding send_frame connect client_send
send_frame-Sends link frame t now later h le win =
    ground (arith, copy_echo frame (record t { client = opened }) now later h le win)
