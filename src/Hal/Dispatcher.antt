-- ===== src/Hal/Dispatcher.antt =====
-- hal/can_bus/dispatcher.py: callbacks by CAN id. A callback is an identity, compared by
-- `list.remove`, and what it does to the world `S` is the argument `call`, which also says if it
-- raised. The lock is not modelled: an operation is one step.
pub mod Dispatch
pub mod Registry
pub mod Registered
use sparq_control.Common.{
  ℕ, suc, ◌+◌, List, [], ◌∷◌, ◌++◌, Bool, true, false, Option, none, some, ◌==◌, if◌then◌else◌, map,
}
use sparq_control.Hal.Frame.{CanFrame}

abbrev pub CallbackId : Type 0
CallbackId = ℕ

-- A dict from CAN ids to lists of callbacks, in insertion order.
abbrev pub Table : Type 0
Table = List (ℕ × List CallbackId)

-- `CANDispatcher`
pub record Dispatcher : Type 0 where
  pub callbacks_by_id : Table
  pub wildcard_callbacks : List CallbackId

abbrev pub empty_dispatcher : Dispatcher
empty_dispatcher = record { callbacks_by_id = []; wildcard_callbacks = [] }

-- `dict.get(key)`
unfoldable pub find : ℕ → Table → Option (List CallbackId)
find k [] = none
find k ((j, cs) ∷ t) = if k == j then some cs else find k t

-- `table[can_id].append(callback)` on a `defaultdict(list)`
unfoldable pub append_at : ℕ → CallbackId → Table → Table
append_at k c [] = (k, c ∷ []) ∷ []
append_at k c ((j, cs) ∷ t) = if k == j then (j, cs ++ c ∷ []) ∷ t else (j, cs) ∷ append_at k c t

-- `list.remove`, where `none` is its `ValueError`.
unfoldable pub remove : CallbackId → List CallbackId → Option (List CallbackId)
remove c [] = none
remove c (d ∷ ds) =
    let rest = remove c ds in
    if c == d then some ds else elim rest [ none ↦ none | some r ↦ some (d ∷ r) ]

-- The entry of a key is replaced by a list, and deleted if the list is empty.
unfoldable pub replace_at : ℕ → List CallbackId → Table → Table
replace_at k new [] = []
replace_at k new ((j, cs) ∷ t) =
    let rest = replace_at k new t in
    if k == j then elim new [ [] ↦ t | x ∷ xs ↦ (j, x ∷ xs) ∷ t ] else (j, cs) ∷ rest

unfoldable pub register : Dispatcher → ℕ → CallbackId → Dispatcher
unfolding append_at
register d can_id c = record d { callbacks_by_id = append_at can_id c d.callbacks_by_id }

unfoldable pub unregister : Dispatcher → ℕ → CallbackId → Dispatcher
unfolding find remove replace_at
unregister d can_id c = elim (find can_id d.callbacks_by_id) [
  | none ↦ d
  | some callbacks ↦ elim (remove c callbacks) [
    | none ↦ d
    | some left ↦ record d { callbacks_by_id = replace_at can_id left d.callbacks_by_id }
  ]
]

unfoldable pub register_wildcard : Dispatcher → CallbackId → Dispatcher
register_wildcard d c = record d { wildcard_callbacks = d.wildcard_callbacks ++ c ∷ [] }

unfoldable pub unregister_wildcard : Dispatcher → CallbackId → Dispatcher
unfolding remove
unregister_wildcard d c = elim (remove c d.wildcard_callbacks) [
  | none ↦ d
  | some left ↦ record d { wildcard_callbacks = left }
]

unfoldable pub clear : Dispatcher → Dispatcher
clear d = record d { callbacks_by_id = []; wildcard_callbacks = [] }

unfoldable pub registered_ids : Dispatcher → List ℕ
registered_ids d = map (λ e. e.0) d.callbacks_by_id

-- `self._callbacks_by_id.get(frame.can_id, [])`
unfoldable pub callbacks_for : Dispatcher → ℕ → List CallbackId
unfolding find
callbacks_for d can_id = elim (find can_id d.callbacks_by_id) [ none ↦ [] | some cs ↦ cs ]

module _ {ℓ} {S : Type ℓ} (call : CallbackId → CanFrame → S → S × Bool) where
  -- One of the two loops of `dispatch`: a callback that raises is logged and not counted.
  unfoldable pub run_callbacks : List CallbackId → CanFrame → S × ℕ → S × ℕ
  run_callbacks [] frame acc = acc
  run_callbacks (c ∷ cs) frame (s, called_count) =
      let (s', returned) = call c frame s in
      run_callbacks cs frame (s', if returned then called_count + 1 else called_count)

  -- `dispatch`: the callbacks of the id, then the wildcard callbacks.
  unfoldable pub dispatch : Dispatcher → CanFrame → S → S × ℕ
  unfolding run_callbacks callbacks_for
  dispatch d frame s =
      run_callbacks d.wildcard_callbacks frame
        (run_callbacks (callbacks_for d frame.can_id) frame (s, 0))
