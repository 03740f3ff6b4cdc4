-- ===== src/Dashboard/BusLoad/Snapshots.antt =====
-- What a snapshot of the bus load counts, after any events.
use mathlib.Core.Path.{refl, sym, ap, ◌∙◌}
use sparq_control.Common.{
  ℕ, ◌+◌, ◌≤◌, ◌≡◌, List, [], ◌∷◌, ◌++◌, arith, ltb, if◌then◌else◌, ℤ, pos_part,
}
use sparq_control.Dashboard.BusLoad.{
  Direction, Event, Window, drop_before, prune, add, Counts, count_all, snapshot,
}

-- A call of `add`.
pub record Call : Type 0 where
  pub timestamp : ℕ
  pub bits : ℤ
  pub direction : Direction

abbrev pub event_of : Call → Event
event_of c = record { time = c.timestamp; bits = pos_part c.bits; direction = c.direction }

abbrev pub events_of : List Call → List Event
events_of [] = []
events_of (c ∷ cs) = event_of c ∷ events_of cs

abbrev pub add_all : Window → List Call → Window
add_all w [] = w
add_all w (c ∷ cs) = add_all (add w c.timestamp c.bits c.direction) cs

-- The events that are not before the window that ends at this time.
abbrev pub recent : ℕ → ℕ → List Event → List Event
recent window now [] = []
recent window now (e ∷ es) =
    let rest = recent window now es in if ltb (e.time + window) now then rest else e ∷ rest

-- The times do not fall, from this one on.
abbrev pub Ascending : ℕ → List Event → Type 0
Ascending t [] = Unit
Ascending t (e ∷ es) = (t ≤ e.time) × Ascending e.time es

recent-append :
    (w now : ℕ) (xs ys : List Event) → recent w now (xs ++ ys) ≡ recent w now xs ++ recent w now ys
recent-append w now [] ys = refl
recent-append w now (x ∷ xs) ys = ground (arith, recent-append w now xs ys)

-- An event that is pruned early would be pruned later too.
recent-drop_before :
    (w t now : ℕ) (xs : List Event) → t ≤ now → recent w now (drop_before w t xs) ≡ recent w now xs
unfolding drop_before
recent-drop_before w t now [] le = refl
recent-drop_before w t now (x ∷ xs) le = ground (arith, recent-drop_before w t now xs le)

recent_all : (w now t : ℕ) (xs : List Event) → Ascending t xs → now ≤ t + w → recent w now xs ≡ xs
recent_all w now t [] h le = refl
recent_all w now t (x ∷ xs) h le = ground (arith, recent_all w now x.time xs h.1)

drop_before-recent :
    (w now t : ℕ) (xs : List Event) → Ascending t xs → drop_before w now xs ≡ recent w now xs
unfolding drop_before
drop_before-recent w now t [] h = refl
drop_before-recent w now t (x ∷ xs) h =
    ground (arith, drop_before-recent w now x.time xs h.1, recent_all w now x.time xs h.1)

Ascending-weaken : (s t : ℕ) (xs : List Event) → s ≤ t → Ascending t xs → Ascending s xs
Ascending-weaken s t [] le h = tt
Ascending-weaken s t (x ∷ xs) le h = ground (arith, h.0, h.1)

Ascending-drop_before :
    (w now t : ℕ) (xs ys : List Event)
    → Ascending t (xs ++ ys)
    → Ascending t (drop_before w now xs ++ ys)
unfolding drop_before
Ascending-drop_before w now t [] ys h = h
Ascending-drop_before w now t (x ∷ xs) ys h = ground (
  arith,
  h.0,
  h.1,
  Ascending-weaken t x.time (drop_before w now xs ++ ys) h.0
      (Ascending-drop_before w now x.time xs ys h.1),
)

append_one : (xs : List Event) (x : Event) (ys : List Event) → (xs ++ x ∷ []) ++ ys ≡ xs ++ (x ∷ ys)
append_one [] x ys = refl
append_one (y ∷ xs) x ys = ap (λ zs. y ∷ zs) (append_one xs x ys)

append_nil : (xs : List Event) → xs ++ [] ≡ xs
append_nil [] = refl
append_nil (x ∷ xs) = ap (λ zs. x ∷ zs) (append_nil xs)

-- All calls are made by this time.
abbrev pub By : ℕ → List Call → Type 0
By now [] = Unit
By now (c ∷ cs) = (c.timestamp ≤ now) × By now cs

Kept : Window → List Event → ℕ → Window → Type 0
Kept w es now v =
    (v.window ≡ w.window)
    × (recent w.window now v.events ≡ recent w.window now (w.events ++ es))
    × Ascending 0 v.events

add_all-Kept :
    (w : Window) (cs : List Call) (now : ℕ)
    → Ascending 0 (w.events ++ events_of cs)
    → By now cs
    → Kept w (events_of cs) now (add_all w cs)
unfolding Kept add prune
add_all-Kept w [] now up by = ground (arith, append_nil w.events)
add_all-Kept w (c ∷ cs) now up by =
    let e = event_of c in
    let xs = w.events ++ e ∷ [] in
    let v = add w c.timestamp c.bits c.direction in
    let same = append_one w.events e (events_of cs) in
    let up' = Ascending-drop_before w.window c.timestamp 0 xs (events_of cs) (rw same up) in
    let (size, counted, sorted) = add_all-Kept v cs now up' by.1 in
    (
      size,
      counted
          ∙ recent-append w.window now v.events (events_of cs)
          ∙ ap (λ zs. zs ++ recent w.window now (events_of cs))
              (recent-drop_before w.window c.timestamp now xs by.0)
          ∙ sym (recent-append w.window now xs (events_of cs))
          ∙ ap (λ zs. recent w.window now zs) same,
      sorted,
    )

abbrev pub no_counts : Counts
no_counts = record { rx_frames = 0; rx_bits = 0; tx_frames = 0; tx_bits = 0 }

-- After any `add` calls on an empty window, at times that do not fall, a snapshot at or after the last
-- of them counts exactly the events that are not before the window that ends at its time.
pub snapshot-recent :
    (window : ℕ) (cs : List Call) (now : ℕ)
    → Ascending 0 (events_of cs)
    → By now cs
    → (snapshot (add_all (record { window = window; events = [] }) cs) now).1
      ≡ count_all no_counts (recent window now (events_of cs))
unfolding snapshot prune Kept
snapshot-recent window cs now up by =
    let v = add_all (record { window = window; events = [] }) cs in
    let (size, counted, sorted) =
      add_all-Kept (record { window = window; events = [] }) cs now up by in
    ap (λ zs. count_all no_counts zs)
      (ap (λ n. drop_before n now v.events) size
        ∙ drop_before-recent window now 0 v.events sorted
        ∙ counted)
