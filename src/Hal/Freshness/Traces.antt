-- ===== src/Hal/Freshness/Traces.antt =====
-- The counters of hal/hardware/can/device_comm_manager.py over any sequence of receptions, decode
-- errors and polls.
use sparq_control.Common.{
  ℕ, ◌+◌, ◌≤◌, true, not, ◌≡◌, ◌⊎◌, ◌<◌, arith, Option, List, [], ◌∷◌, if◌then◌else◌,
}
use sparq_control.Hal.Freshness.{
  CommManager, new_manager, mark_rx, mark_decode_error, update_fault_flags,
}

-- A call of the manager, with the clock's reading.
pub data Call : Type 0 where
  rx : Option ℕ → ℕ → Call
  decode_error : ℕ → Call
  poll : ℕ → Call

abbrev pub apply : CommManager → Call → CommManager
apply m (rx t now) = mark_rx m t now
apply m (decode_error now) = mark_decode_error m now
apply m (poll now) = update_fault_flags m now

abbrev pub run_calls : CommManager → List Call → CommManager
run_calls m [] = m
run_calls m (c ∷ cs) = run_calls (apply m c) cs

abbrev pub rx_calls : List Call → ℕ
rx_calls [] = 0
rx_calls (rx _ _ ∷ cs) = 1 + rx_calls cs
rx_calls (decode_error _ ∷ cs) = rx_calls cs
rx_calls (poll _ ∷ cs) = rx_calls cs

abbrev pub error_calls : List Call → ℕ
error_calls [] = 0
error_calls (rx _ _ ∷ cs) = error_calls cs
error_calls (decode_error _ ∷ cs) = 1 + error_calls cs
error_calls (poll _ ∷ cs) = error_calls cs

abbrev pub time_of : Call → ℕ
time_of (rx _ now) = now
time_of (decode_error now) = now
time_of (poll now) = now

-- The clock's readings do not fall, from `t` on.
abbrev pub Ascending : ℕ → List Call → Type 0
Ascending t [] = Unit
Ascending t (c ∷ cs) = (t ≤ time_of c) × Ascending (time_of c) cs

-- The counters after `received` receptions and `failed` decode errors. A timeout is counted at most
-- once for each reception, and never while the value is fresh.
abbrev pub Counts : ℕ → ℕ → CommManager → Type 0
Counts received failed m =
    (m.status.rx_count ≡ received)
    × (m.status.decode_error_count ≡ failed)
    × (m.status.is_online ≡ not m.status.is_stale)
    × (m.status.timeout_count + (if m.status.is_stale then 0 else 1) ≤ received)

-- A value that is stale at time `t` was never received, or is older than the timeout.
abbrev IsOld : ℕ → CommManager → Type 0
IsOld t m =
    m.status.is_stale ≡ true → (m.status.last_rx_t ≡ 0) ⊎ (m.status.last_rx_t + m.timeout < t)

apply-Counts :
    (t a b : ℕ) (m : CommManager) (c : Call)
    → t ≤ time_of c
    → Counts a b m
    → IsOld t m
    → Counts (a + rx_calls (c ∷ [])) (b + error_calls (c ∷ [])) (apply m c)
      × IsOld (time_of c) (apply m c)
unfolding mark_rx mark_decode_error update_fault_flags
apply-Counts t a b m (rx s now) le h o = ground arith
apply-Counts t a b m (decode_error now) le h o = ground arith
apply-Counts t a b m (poll now) le h o = ground arith

calls_split :
    (c : Call) (cs : List Call)
    → (rx_calls (c ∷ cs) ≡ rx_calls (c ∷ []) + rx_calls cs)
      × (error_calls (c ∷ cs) ≡ error_calls (c ∷ []) + error_calls cs)
calls_split (rx s now) cs = omega arith
calls_split (decode_error now) cs = omega arith
calls_split (poll now) cs = omega arith

run_calls-Counts_from :
    (t a b : ℕ) (m : CommManager) (cs : List Call)
    → Ascending t cs
    → Counts a b m
    → IsOld t m
    → Counts (a + rx_calls cs) (b + error_calls cs) (run_calls m cs)
run_calls-Counts_from t a b m [] up h o = ground arith
run_calls-Counts_from t a b m (c ∷ cs) (le, up) h o =
    let (h', o') = apply-Counts t a b m c le h o in
    let (x, y) = calls_split c cs in
    ground (
      arith,
      run_calls-Counts_from (time_of c) (a + rx_calls (c ∷ [])) (b + error_calls (c ∷ []))
          (apply m c) cs up h' o',
      x,
      y,
    )

-- After any calls on a new manager, with clock readings that do not fall, the counters are the
-- numbers of receptions and of decode errors, the online flag is the negation of the stale flag,
-- and there were at most as many timeouts as receptions, one less while the value is fresh.
pub run_calls-Counts :
    (timeout : ℕ) (cs : List Call)
    → Ascending 0 cs
    → Counts (rx_calls cs) (error_calls cs) (run_calls (new_manager timeout) cs)
run_calls-Counts timeout cs up =
    ground (arith, run_calls-Counts_from 0 0 0 (new_manager timeout) cs up)
