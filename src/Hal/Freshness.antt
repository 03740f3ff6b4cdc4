-- ===== src/Hal/Freshness.antt =====
-- `FreshnessStatus` and `BestEffortCommManager` of hal/hardware/can/device_comm_manager.py. A time
-- is a reading of the monotonic clock in nanoseconds, and an argument wherever the code reads it.
pub mod Laws
pub mod Traces
use sparq_control.Common.{
  ℕ, ◌+◌, Bool, true, false, not, Option, none, some, ltb, ◌==◌, if◌then◌else◌,
}

pub record Status : Type 0 where
  pub is_online : Bool
  pub is_stale : Bool
  pub rx_count : ℕ
  pub timeout_count : ℕ
  pub decode_error_count : ℕ
  pub last_rx_t : ℕ
  pub last_fault_t : ℕ

pub record CommManager : Type 0 where
  pub timeout : ℕ
  pub status : Status

-- `BestEffortCommManager(timeout)`
abbrev pub new_manager : ℕ → CommManager
new_manager timeout = record {
  timeout = timeout;
  status = record {
    is_online = false;
    is_stale = true;
    rx_count = 0;
    timeout_count = 0;
    decode_error_count = 0;
    last_rx_t = 0;
    last_fault_t = 0;
  };
}

-- `rx_time if rx_time is not None else time.monotonic()`
abbrev pub rx_time_or_now : Option ℕ → ℕ → ℕ
rx_time_or_now none now = now
rx_time_or_now (some t) now = t

unfoldable pub mark_rx : CommManager → Option ℕ → ℕ → CommManager
mark_rx m rx_time now =
    let s = m.status in
    record m {
      status = record s {
        rx_count = s.rx_count + 1;
        last_rx_t = rx_time_or_now rx_time now;
        is_stale = false;
        is_online = true;
      };
    }

unfoldable pub mark_decode_error : CommManager → ℕ → CommManager
mark_decode_error m now =
    let s = m.status in
    record m {
      status = record s { decode_error_count = s.decode_error_count + 1; last_fault_t = now };
    }

-- The count of a transition from fresh to stale.
unfoldable pub count_timeout : Bool → Status → ℕ → Status
count_timeout was_stale s now =
    if not was_stale
    then record s { timeout_count = s.timeout_count + 1; last_fault_t = now }
    else s

-- `update_fault_flags`; the status that it returns is the new manager's.
unfoldable pub update_fault_flags : CommManager → ℕ → CommManager
unfolding count_timeout
update_fault_flags m now =
    let s = m.status in
    if s.last_rx_t == 0
    then record m {
      status = count_timeout s.is_stale (record s { is_stale = true; is_online = false }) now;
    }
    else let stale = ltb (s.last_rx_t + m.timeout) now in
      let s' = record s { is_stale = stale; is_online = not stale } in
      record m { status = if stale then count_timeout s.is_stale s' now else s' }

unfoldable pub is_fresh : CommManager → ℕ → CommManager × Bool
unfolding update_fault_flags
is_fresh m now = let m' = update_fault_flags m now in (m', not m'.status.is_stale)
