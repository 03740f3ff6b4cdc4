-- ===== src/Hal/Dispatcher/Registry.antt =====
-- Registration in hal/can_bus/dispatcher.py, as a map from CAN ids to callback lists.
use sparq_control.Common.{
  ℕ, List, [], ◌∷◌, ◌++◌, ◌≡◌, ◌≢◌, ◌⊎◌, refl, arith, Option, none, some, ◌==◌, if◌then◌else◌,
  Option-cases, inl, inr,
}
use sparq_control.Hal.Dispatcher.{
  CallbackId, Table, Dispatcher, find, append_at, remove, replace_at, register, unregister,
  callbacks_for,
}

-- No key stands twice, and no entry is empty.
abbrev pub IsTable : Table → Type 0
IsTable [] = Unit
IsTable ((k, cs) ∷ t) = (find k t ≡ none) × (cs ≢ []) × IsTable t

-- `list.remove` as a total function: a list without the element stays.
abbrev pub removed : CallbackId → List CallbackId → List CallbackId
removed c [] = []
removed c (d ∷ ds) = if c == d then ds else d ∷ removed c ds

abbrev or_empty : Option (List CallbackId) → List CallbackId
or_empty none = []
or_empty (some cs) = cs

find-append_at :
    (k j : ℕ) (c : CallbackId) (t : Table)
    → find j (append_at k c t) ≡ (if j == k then some (or_empty (find j t) ++ c ∷ []) else find j t)
unfolding find append_at
find-append_at k j c [] = ground arith
find-append_at k j c ((i, cs) ∷ t) = ground (arith, find-append_at k j c t)

append_at-IsTable : (k : ℕ) (c : CallbackId) (t : Table) → IsTable t → IsTable (append_at k c t)
unfolding append_at find
append_at-IsTable k c [] h = (refl, λ e. cc, tt)
append_at-IsTable k c ((i, cs) ∷ t) h =
    ground (arith, append_at-IsTable k c t h.2, find-append_at k i c t)

find-replace_at :
    (k j : ℕ) (new : List CallbackId) (t : Table)
    → IsTable t
    → find k t ≢ none
    → or_empty (find j (replace_at k new t)) ≡ (if j == k then new else or_empty (find j t))
unfolding find replace_at
find-replace_at k j new [] h p = absurd (p refl)
find-replace_at k j [] ((i, cs) ∷ t) h p = ground (arith, find-replace_at k j [] t h.2)
find-replace_at k j (x ∷ xs) ((i, cs) ∷ t) h p = ground (arith, find-replace_at k j (x ∷ xs) t h.2)

find_gone :
    (k j : ℕ) (new : List CallbackId) (t : Table)
    → find j t ≡ none
    → find j (replace_at k new t) ≡ none
unfolding find replace_at
find_gone k j new [] h = refl
find_gone k j [] ((i, cs) ∷ t) h = ground (arith, find_gone k j [] t)
find_gone k j (x ∷ xs) ((i, cs) ∷ t) h = ground (arith, find_gone k j (x ∷ xs) t)

replace_at-IsTable :
    (k : ℕ) (new : List CallbackId) (t : Table) → IsTable t → IsTable (replace_at k new t)
unfolding replace_at
replace_at-IsTable k new [] h = tt
replace_at-IsTable k [] ((i, cs) ∷ t) h =
    ground (arith, replace_at-IsTable k [] t h.2, find_gone k i [] t)
replace_at-IsTable k (x ∷ xs) ((i, cs) ∷ t) h =
    ground (arith, replace_at-IsTable k (x ∷ xs) t h.2, find_gone k i (x ∷ xs) t)

remove-removed :
    (c : CallbackId) (cs : List CallbackId)
    → ((remove c cs ≡ none) × (removed c cs ≡ cs)) ⊎ (remove c cs ≡ some (removed c cs))
unfolding remove
remove-removed c [] = ground arith
remove-removed c (d ∷ ds) = ground (arith, remove-removed c ds)

-- Registration appends the callback to the list of its id and changes no other list. The table
-- keeps one non-empty list for each id that it holds.
pub register-callbacks_for :
    (d : Dispatcher) (k j : ℕ) (c : CallbackId)
    → IsTable d.callbacks_by_id
    → IsTable (register d k c).callbacks_by_id
      × (callbacks_for (register d k c) j
          ≡ (if j == k then callbacks_for d j ++ c ∷ [] else callbacks_for d j))
unfolding register callbacks_for
register-callbacks_for d k j c h = (
  append_at-IsTable k c d.callbacks_by_id h,
  ground (arith, find-append_at k j c d.callbacks_by_id),
)

-- Either nothing is removed, or the entry is replaced by what is left.
unregister-cases :
    (d : Dispatcher) (k : ℕ) (c : CallbackId)
    → ((unregister d k c ≡ d) × (removed c (callbacks_for d k) ≡ callbacks_for d k))
      ⊎ ((unregister d k c ≡ record d {
        callbacks_by_id = replace_at k (removed c (callbacks_for d k)) d.callbacks_by_id;
      })
          × (find k d.callbacks_by_id ≢ none))
unfolding unregister callbacks_for
unregister-cases d k c = elim (Option-cases (find k d.callbacks_by_id)) [
  | inl e ↦ inl (ground arith)
  | inr (cs, e) ↦ elim (remove-removed c cs) [
    | inl (kept, same) ↦ inl (ground arith)
    | inr found ↦ inr (ground arith)
  ]
]

-- Unregistration removes the first occurrence of the callback from the list of its id, if there is
-- one, and changes no other list. An id whose list becomes empty leaves the table.
pub unregister-callbacks_for :
    (d : Dispatcher) (k j : ℕ) (c : CallbackId)
    → IsTable d.callbacks_by_id
    → IsTable (unregister d k c).callbacks_by_id
      × (callbacks_for (unregister d k c) j
          ≡ (if j == k then removed c (callbacks_for d j) else callbacks_for d j))
unfolding callbacks_for
unregister-callbacks_for d k j c h = elim (unregister-cases d k c) [
  | inl (same, kept) ↦ rw same (h, ground arith)
  | inr (new, there) ↦
      let left = removed c (callbacks_for d k) in
      rw new (
        replace_at-IsTable k left d.callbacks_by_id h,
        ground (arith, find-replace_at k j left d.callbacks_by_id h),
      )
]
