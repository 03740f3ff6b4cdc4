-- ===== src/Hal/Transport/Echo.antt =====
-- The echo memory of hal/can_bus/process_transport.py.
use sparq_control.Common.{
  ℕ, ◌+◌, ◌≤◌, Bool, ◌&&◌, not, ◌≡◌, refl, arith, List, [], ◌∷◌, ltb, any, length,
}
use sparq_control.Hal.Frame.{CanFrame}
use sparq_control.Hal.Transport.{
  tx_echo_reject_window, max_recent, Sent, Transport, drop_old, is_copy, is_recent_tx_echo,
}

-- The entries are in the order of their times, all from `t` on.
abbrev pub Ordered : ℕ → List Sent → Type 0
Ordered t [] = Unit
Ordered t (x ∷ xs) = (t ≤ x.time) × Ordered x.time xs

-- The time of the newest entry, or `t`.
abbrev pub newest : ℕ → List Sent → ℕ
newest t [] = t
newest t (x ∷ xs) = newest x.time xs

-- The invariant of the memory: ordered in time, none later than `now`, at most 512 entries.
abbrev pub IsMemory : ℕ → List Sent → Type 0
IsMemory now xs = Ordered 0 xs × (newest 0 xs ≤ now) × (length xs ≤ max_recent)

-- Sent within the window before `now`.
abbrev pub is_recent : ℕ → Sent → Bool
is_recent now x = not (ltb (x.time + tx_echo_reject_window) now)

pub Ordered-weaken : (s t : ℕ) (xs : List Sent) → s ≤ t → Ordered t xs → Ordered s xs
Ordered-weaken s t [] le h = tt
Ordered-weaken s t (x ∷ xs) le h = (omega arith, h.1)

all_recent :
    (now : ℕ) (frame : CanFrame) (t : ℕ) (xs : List Sent)
    → Ordered t xs
    → now ≤ t + tx_echo_reject_window
    → any (is_copy frame) xs ≡ any (λ x. is_recent now x && is_copy frame x) xs
all_recent now frame t [] h le = refl
all_recent now frame t (x ∷ xs) h le = ground (arith, all_recent now frame x.time xs h.1)

-- Since the memory is in the order of time, dropping its old front leaves no old entry.
any-drop_old :
    (now : ℕ) (frame : CanFrame) (t : ℕ) (xs : List Sent)
    → Ordered t xs
    → any (is_copy frame) (drop_old now xs) ≡ any (λ x. is_recent now x && is_copy frame x) xs
unfolding drop_old
any-drop_old now frame t [] h = refl
any-drop_old now frame t (x ∷ xs) h =
    ground (arith, any-drop_old now frame x.time xs h.1, all_recent now frame x.time xs h.1)

-- A received frame counts as an echo exactly when some remembered frame has the same id and data
-- and was sent at most 0.25 s ago, for a memory that is in the order of time.
pub is_recent_tx_echo-any :
    (t : Transport) (frame : CanFrame) (now : ℕ)
    → IsMemory now t.recent_tx_frames
    → (is_recent_tx_echo t frame now).1
      ≡ any (λ x. is_recent now x && is_copy frame x) t.recent_tx_frames
unfolding is_recent_tx_echo
is_recent_tx_echo-any t frame now h = any-drop_old now frame 0 t.recent_tx_frames h.0
