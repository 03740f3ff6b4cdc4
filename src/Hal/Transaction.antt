-- ===== src/Hal/Transaction.antt =====
-- `PendingTransaction` and `TransactionManager` of hal/hardware/can/device_comm_manager.py. A set
-- of CAN ids is a list; `event` is the state of the threading event. Blocking in `wait` is not
-- modelled.
pub mod Laws
use sparq_control.Common.{
  ℕ, ◌+◌, Bool, true, false, Option, none, some, List, [], ◌∷◌, ltb, if◌then◌else◌, elem, all,
}

pub record Pending : Type 0 where
  pub expected_ids : List ℕ
  pub received_ids : List ℕ
  pub created_t : ℕ
  pub timeout : ℕ
  pub event : Bool

-- `TransactionManager`, by its field `_pending`.
abbrev pub Manager : Type 0
Manager = Option Pending

-- `set.add`
unfoldable pub add_id : ℕ → List ℕ → List ℕ
add_id x s = if elem x s then s else x ∷ s

-- `expected_ids <= received_ids`
abbrev pub is_subset : List ℕ → List ℕ → Bool
is_subset expected received = all (λ x. elem x received) expected

unfoldable pub start_transaction : List ℕ → ℕ → ℕ → Manager
start_transaction expected_ids timeout now = some (record {
  expected_ids = expected_ids;
  received_ids = [];
  created_t = now;
  timeout = timeout;
  event = false;
})

unfoldable pub mark_rx : Manager → ℕ → Manager
unfolding add_id
mark_rx none can_id = none
mark_rx (some p) can_id =
    let received = add_id can_id p.received_ids in
    some (record p {
      received_ids = received;
      event = if is_subset p.expected_ids received then true else p.event;
    })

unfoldable pub is_done : Manager → Bool
is_done none = false
is_done (some p) = is_subset p.expected_ids p.received_ids

unfoldable pub is_expired : Manager → ℕ → Bool
is_expired none now = false
is_expired (some p) now = ltb (p.created_t + p.timeout) now

unfoldable pub clear : Manager → Manager
clear m = none

-- Receptions one after another.
unfoldable pub mark_all : Manager → List ℕ → Manager
mark_all m [] = m
mark_all m (i ∷ is) = mark_all (mark_rx m i) is
