-- ===== src/Hal/Freshness/Laws.antt =====
-- `update_fault_flags` of hal/hardware/can/device_comm_manager.py against the age of the last
-- reception.
use sparq_control.Common.{ℕ, ◌+◌, Bool, not, ◌&&◌, ◌||◌, ◌≡◌, arith, ltb, ◌==◌, if◌then◌else◌}
use sparq_control.Hal.Freshness.{CommManager, update_fault_flags, is_fresh}

-- Nothing was received yet, or the last reception is older than the timeout.
abbrev pub is_late : CommManager → ℕ → Bool
is_late m now = m.status.last_rx_t == 0 || ltb (m.status.last_rx_t + m.timeout) now

-- After an update the stale flag says whether the last reception is missing or older than the
-- timeout, the online flag is its negation, and `is_fresh` returns that negation. The timeout count
-- and the fault time change exactly on a transition from fresh to stale, and all else stays.
pub update_fault_flags-is_late :
    (m : CommManager) (now : ℕ)
    → let m' = update_fault_flags m now in
      let falls = is_late m now && not m.status.is_stale in
      (m'.status.is_stale ≡ is_late m now)
      × (m'.status.is_online ≡ not (is_late m now))
      × (m'.status.timeout_count ≡ m.status.timeout_count + (if falls then 1 else 0))
      × (m'.status.last_fault_t ≡ (if falls then now else m.status.last_fault_t))
      × (m'.status.rx_count ≡ m.status.rx_count)
      × (m'.status.decode_error_count ≡ m.status.decode_error_count)
      × (m'.status.last_rx_t ≡ m.status.last_rx_t)
      × (m'.timeout ≡ m.timeout)
      × (is_fresh m now ≡ (m', not (is_late m now)))
unfolding update_fault_flags is_fresh
update_fault_flags-is_late m now = ground arith
