-- ===== src/Hal/Transaction/Laws.antt =====
-- A transaction of hal/hardware/can/device_comm_manager.py against the ids received since its start.
use sparq_control.Common.{
  ℕ, Bool, true, false, ◌||◌, ◌&&◌, not, ◌≡◌, refl, sym, ◌∙◌, arith, none, some, List, [], ◌∷◌,
  ◌==◌, if◌then◌else◌, elem, all,
}
use sparq_control.Hal.Transaction.{
  Pending, Manager, add_id, is_subset, start_transaction, mark_rx, is_done, mark_all,
}

elem_of_same : (x y : ℕ) (s : List ℕ) → x ≡ y → elem y s ≡ true → elem x s ≡ true
elem_of_same x y s e h = rw e h

elem-add_id : (x y : ℕ) (s : List ℕ) → elem x (add_id y s) ≡ (x == y || elem x s)
unfolding add_id
elem-add_id x y s = ground (arith, elem_of_same x y s)

-- Everything received so far, the latest first.
abbrev covered_by : List ℕ → List ℕ → List ℕ → Bool
covered_by expected old is = all (λ x. elem x old || elem x is) expected

covered_by-nil : (expected old : List ℕ) → covered_by expected old [] ≡ is_subset expected old
covered_by-nil [] old = refl
covered_by-nil (x ∷ xs) old = ground (arith, covered_by-nil xs old)

covered_by-cons :
    (expected old : List ℕ) (i : ℕ) (is : List ℕ)
    → covered_by expected (add_id i old) is ≡ covered_by expected old (i ∷ is)
covered_by-cons [] old i is = refl
covered_by-cons (x ∷ xs) old i is = ground (arith, covered_by-cons xs old i is, elem-add_id x i old)

mark_all-is_done :
    (p : Pending) (is : List ℕ)
    → is_done (mark_all (some p) is) ≡ covered_by p.expected_ids p.received_ids is
unfolding mark_all mark_rx is_done
mark_all-is_done p [] = sym (covered_by-nil p.expected_ids p.received_ids)
mark_all-is_done p (i ∷ is) =
    let received = add_id i p.received_ids in
    let p' = record p {
      received_ids = received;
      event = if is_subset p.expected_ids received then true else p.event;
    } in
    mark_all-is_done p' is ∙ covered_by-cons p.expected_ids p.received_ids i is

-- The flag of the pending transaction's event.
abbrev pub event_set : Manager → Bool
event_set none = false
event_set (some p) = p.event

is_subset-add_id :
    (expected old : List ℕ) (i : ℕ)
    → is_subset expected old ≡ true
    → is_subset expected (add_id i old) ≡ true
is_subset-add_id [] old i h = refl
is_subset-add_id (x ∷ xs) old i h = ground (arith, is_subset-add_id xs old i, elem-add_id x i old)

abbrev IsJust : Pending → Type 0
IsJust p = p.event ≡ true → is_subset p.expected_ids p.received_ids ≡ true

mark_all-event_set :
    (p : Pending) (i : ℕ) (is : List ℕ)
    → IsJust p
    → event_set (mark_all (some p) (i ∷ is)) ≡ is_done (mark_all (some p) (i ∷ is))
unfolding mark_all mark_rx is_done
mark_all-event_set p i [] j = ground (arith, is_subset-add_id p.expected_ids p.received_ids i)
mark_all-event_set p i (k ∷ is) j =
    let received = add_id i p.received_ids in
    let p' = record p {
      received_ids = received;
      event = if is_subset p.expected_ids received then true else p.event;
    } in
    mark_all-event_set p' k is (ground (arith, is_subset-add_id p.expected_ids p.received_ids i))

abbrev fresh : List ℕ → ℕ → ℕ → Pending
fresh expected timeout now = record {
  expected_ids = expected;
  received_ids = [];
  created_t = now;
  timeout = timeout;
  event = false;
}

-- Each expected id was received.
abbrev pub has_all : List ℕ → List ℕ → Bool
has_all expected is = all (λ x. elem x is) expected

abbrev pub is_empty : List ℕ → Bool
is_empty [] = true
is_empty (i ∷ is) = false

fresh-event_set :
    (expected : List ℕ) (timeout now : ℕ) (is : List ℕ)
    → event_set (mark_all (some (fresh expected timeout now)) is)
      ≡ not (is_empty is) && has_all expected is
unfolding mark_all
fresh-event_set expected timeout now [] = refl
fresh-event_set expected timeout now (i ∷ is) =
    mark_all-event_set (fresh expected timeout now) i is (λ e. cc)
    ∙ mark_all-is_done (fresh expected timeout now) (i ∷ is)

-- A started transaction is done exactly when each expected id was received since the start, in any
-- order and among any other ids. Its event is set exactly when it is done and something was
-- received.
pub start_transaction-is_done :
    (expected : List ℕ) (timeout now : ℕ) (is : List ℕ)
    → let m = mark_all (start_transaction expected timeout now) is in
      (is_done m ≡ has_all expected is) × (event_set m ≡ not (is_empty is) && has_all expected is)
unfolding start_transaction
start_transaction-is_done expected timeout now is =
    (mark_all-is_done (fresh expected timeout now) is, fresh-event_set expected timeout now is)
