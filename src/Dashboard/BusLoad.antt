-- ===== src/Dashboard/BusLoad.antt =====
-- bus_load.py of robot_controller/subprocesses/dashboard/backend: the window of CAN events. Times are
-- in nanoseconds. The rates of a snapshot are quotients of its counts by floats and not modelled.
pub mod Snapshots
use sparq_control.Common.{
  ℕ, ◌+◌, ◌-◌, ◌*◌, ◌/◌, Bool, true, false, List, [], ◌∷◌, ◌++◌, ltb, min, ℤ, pos_part,
  if◌then◌else◌,
}

-- `estimate_classical_can_bits`, with the stuff factor as a number of hundredths.
unfoldable pub estimate_classical_can_bits : ℤ → Bool → Bool → ℕ → Bool → ℕ
estimate_classical_can_bits dlc is_eff is_rtr stuff_hundredths include_intermission =
    let data_bits = if is_rtr then 0 else 8 * min (pos_part dlc) 8 in
    let base_bits = (if is_eff then 67 else 47) + data_bits in
    let bits = if include_intermission then base_bits else base_bits - 3 in
    (bits * stuff_hundredths + 99) / 100

pub data Direction : Type 0 where
  rx tx other : Direction

-- An entry of `events`.
pub record Event : Type 0 where
  pub time : ℕ
  pub bits : ℕ
  pub direction : Direction

-- `BusLoadWindow`, oldest event first.
pub record Window : Type 0 where
  pub window : ℕ
  pub events : List Event

-- The loop of `prune`: the front goes as long as it is before the window.
unfoldable pub drop_before : ℕ → ℕ → List Event → List Event
drop_before window now [] = []
drop_before window now (e ∷ es) =
    let rest = drop_before window now es in if ltb (e.time + window) now then rest else e ∷ es

-- `prune`
unfoldable pub prune : Window → ℕ → Window
unfolding drop_before
prune w now = record w { events = drop_before w.window now w.events }

-- `add`
unfoldable pub add : Window → ℕ → ℤ → Direction → Window
unfolding prune
add w timestamp bits direction =
    prune
      (record w {
        events =
            w.events
            ++ record { time = timestamp; bits = pos_part bits; direction = direction } ∷ [];
      })
      timestamp

-- The counts of a snapshot.
pub record Counts : Type 0 where
  pub rx_frames : ℕ
  pub rx_bits : ℕ
  pub tx_frames : ℕ
  pub tx_bits : ℕ

-- One turn of the loop of `snapshot`, for an event of this direction and size.
abbrev pub count : Counts → Direction → ℕ → Counts
count c rx bits = record c { rx_frames = c.rx_frames + 1; rx_bits = c.rx_bits + bits }
count c tx bits = record c { tx_frames = c.tx_frames + 1; tx_bits = c.tx_bits + bits }
count c other bits = c

unfoldable pub count_all : Counts → List Event → Counts
count_all c [] = c
count_all c (e ∷ es) = count_all (count c e.direction e.bits) es

-- `snapshot`: the pruned window and the counts.
unfoldable pub snapshot : Window → ℕ → Window × Counts
unfolding prune count_all
snapshot w now =
    let w' = prune w now in
    (w', count_all (record { rx_frames = 0; rx_bits = 0; tx_frames = 0; tx_bits = 0 }) w'.events)
