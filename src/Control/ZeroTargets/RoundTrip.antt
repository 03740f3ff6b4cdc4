-- ===== src/Control/ZeroTargets/RoundTrip.antt =====
-- What `publish_zero_set` writes, the controller reads back.
use mathlib.Core.Path.{refl}
use sparq_control.Common.{
  ℕ, zero, suc, ◌-◌, ◌≡◌, ◌≢◌, ◌≤◌, Option, none, some, List, [], ◌∷◌, ◌++◌, ◌==◌, if◌then◌else◌,
  arith, ℤ, pos_part, take, length, length-append, replicate,
}
use sparq_control.Common.Result.{Result, ok, err, ◌>>=◌, value_error}
use sparq_control.Shm.OperatorCommand.{
  ZeroTarget, OperatorCommand, zero_target_magic_value, no_target, target_fits, store_targets,
  build_command, publish_zero_set,
}
use sparq_control.Control.ZeroTargets.{
  Offsets, set_offset, get_offset, store, collect, zero_set_offsets_by_can_id,
}

-- The offset of the last target with this ID.
abbrev pub last_target : ℕ → List (ℤ × ℤ) → Option ℤ
last_target k [] = none
last_target k ((id, offset) ∷ ts) = elim (last_target k ts) [
  | some v ↦ some v
  | none ↦ if pos_part id == k then some offset else none
]

get-set :
    (d : Offsets) (j k : ℕ) (v : ℤ)
    → get_offset (set_offset d j v) k ≡ (if j == k then some v else get_offset d k)
unfolding get_offset set_offset
get-set [] j k v = ground arith
get-set ((i, w) ∷ d) j k v = ground (arith, get-set d j k v)

abbrev or_else : Option ℤ → Option ℤ → Option ℤ
or_else none y = y
or_else (some x) y = some x

-- The read offsets give this ID the offset of its last target.
pub Offset : ℕ → List (ℤ × ℤ) → Result Offsets → Type 0
Offset k targets (ok d) = get_offset d k ≡ last_target k targets
Offset k targets (err e) = ⊥

stored_inv :
    (r : Result (List ZeroTarget)) (t : ℤ × ℤ) (x : ZeroTarget) (stored : List ZeroTarget)
    → (if target_fits t
        then (r >>= λ rest. ok (record { can_id = pos_part t.0; offset_count = t.1 } ∷ rest))
        else err value_error)
      ≡ ok (x ∷ stored)
    → (r ≡ ok stored) × (x.can_id ≡ pos_part t.0) × (x.offset_count ≡ t.1)
stored_inv r t x stored h = ground arith

stored_nil :
    (r : Result (List ZeroTarget)) (t : ℤ × ℤ)
    → (if target_fits t
        then (r >>= λ rest. ok (record { can_id = pos_part t.0; offset_count = t.1 } ∷ rest))
        else err value_error)
      ≢ ok []
stored_nil r t h = ground arith

store_none : (x : ZeroTarget) (stored : List ZeroTarget) → store_targets [] ≢ ok (x ∷ stored)
unfolding store_targets
store_none x stored h = ground arith

-- Storing a list, by its first target.
store_cons :
    (t : ℤ × ℤ) (ts : List (ℤ × ℤ)) (x : ZeroTarget) (stored : List ZeroTarget)
    → store_targets (t ∷ ts) ≡ ok (x ∷ stored)
    → (store_targets ts ≡ ok stored) × (x.can_id ≡ pos_part t.0) × (x.offset_count ≡ t.1)
unfolding store_targets
store_cons t ts x stored h = stored_inv (store_targets ts) t x stored h

store_nil : (t : ℤ × ℤ) (ts : List (ℤ × ℤ)) → store_targets (t ∷ ts) ≢ ok []
unfolding store_targets
store_nil t ts h = stored_nil (store_targets ts) t h

collect_nil : (d : Offsets) → collect d [] ≡ d
unfolding collect
collect_nil d = ground arith

get_nil : (k : ℕ) → get_offset [] k ≡ none
unfolding get_offset
get_nil k = ground arith

get-collect :
    (d : Offsets) (ts : List (ℤ × ℤ)) (stored : List ZeroTarget) (k : ℕ)
    → store_targets ts ≡ ok stored
    → k ≢ 0
    → get_offset (collect d stored) k ≡ or_else (last_target k ts) (get_offset d k)
unfolding collect store
get-collect d [] [] k h nz = ground arith
get-collect d [] (x ∷ stored) k h nz = absurd (store_none x stored h)
get-collect d (t ∷ ts) [] k h nz = absurd (store_nil t ts h)
get-collect d (t ∷ ts) (x ∷ stored) k h nz =
    let (rest, is_id, is_offset) = store_cons t ts x stored h in
    ground (arith, get-collect (store d x) ts stored k rest nz, get-set d x.can_id k x.offset_count)

length-store_targets :
    (ts : List (ℤ × ℤ)) (stored : List ZeroTarget)
    → store_targets ts ≡ ok stored
    → length stored ≡ length ts
length-store_targets [] [] h = ground arith
length-store_targets [] (x ∷ stored) h = absurd (store_none x stored h)
length-store_targets (t ∷ ts) [] h = absurd (store_nil t ts h)
length-store_targets (t ∷ ts) (x ∷ stored) h =
    ground (arith, length-store_targets ts stored (store_cons t ts x stored h).0)

take-append : (xs ys : List ZeroTarget) → take (length xs) (xs ++ ys) ≡ xs
take-append [] ys = ground arith
take-append (x ∷ xs) ys = ground (arith, take-append xs ys)

length-replicate : (n : ℕ) (x : ZeroTarget) → length (replicate n x) ≡ n
length-replicate zero x = ground arith
length-replicate (suc n) x = ground (arith, length-replicate n x)

publish_zero_set_fields :
    (ns : ℕ) (targets : List (ℤ × ℤ)) (stored : List ZeroTarget) (c : OperatorCommand)
    → store_targets targets ≡ ok stored
    → publish_zero_set ns targets ≡ ok c
    → (length targets ≤ 12)
      × (c.zero_target_count ≡ length targets)
      × (c.zero_target_magic ≡ (if length targets == 0 then 0 else zero_target_magic_value))
      × (c.zero_targets ≡ stored ++ replicate (12 - length targets) no_target)
unfolding publish_zero_set build_command
publish_zero_set_fields ns targets stored c e h = ground arith

-- The command that a successful build gives.
Stored : ℕ → List (ℤ × ℤ) → OperatorCommand → Type 0
Stored ns targets c =
    (stored : List ZeroTarget) × (store_targets targets ≡ ok stored)
    × (length targets ≤ 12)
    × (c.zero_target_count ≡ length targets)
    × (c.zero_target_magic ≡ (if length targets == 0 then 0 else zero_target_magic_value))
    × (c.zero_targets ≡ stored ++ replicate (12 - length targets) no_target)

publish_zero_set-Stored :
    (ns : ℕ) (targets : List (ℤ × ℤ)) (r : Result (List ZeroTarget)) (c : OperatorCommand)
    → store_targets targets ≡ r
    → publish_zero_set ns targets ≡ ok c
    → Stored ns targets c
unfolding publish_zero_set build_command Stored
publish_zero_set-Stored ns targets (ok stored) c e h =
    let f = publish_zero_set_fields ns targets stored c e h in (stored, e, f.0, f.1, f.2, f.3)
publish_zero_set-Stored ns targets (err x) c e h = absurd (ground arith)

nil_of_length : (ts : List ZeroTarget) → length ts ≡ 0 → ts ≡ []
nil_of_length [] h = ground arith
nil_of_length (x ∷ ts) h = ground arith

read_stored :
    (c : OperatorCommand) (stored : List ZeroTarget) (n : ℕ)
    → c.zero_target_count ≡ length stored
    → c.zero_target_magic ≡ (if length stored == 0 then 0 else zero_target_magic_value)
    → c.zero_targets ≡ stored ++ replicate n no_target
    → zero_set_offsets_by_can_id (some c) ≡ ok (collect [] stored)
unfolding zero_set_offsets_by_can_id
read_stored c [] n count magic shape = ground (arith, collect_nil [])
read_stored c (x ∷ xs) n count magic shape =
    let stored = x ∷ xs in
    ground (
      arith,
      take-append stored (replicate n no_target),
      length-append stored (replicate n no_target),
    )

-- From a command that `publish_zero_set` builds, the controller reads for each CAN ID other than 0
-- the offset of the last target with this ID, and none for an ID that is not a target.
pub zero_set_offsets_by_can_id-publish_zero_set :
    (ns : ℕ) (targets : List (ℤ × ℤ)) (c : OperatorCommand) (k : ℕ)
    → publish_zero_set ns targets ≡ ok c
    → k ≢ 0
    → Offset k targets (zero_set_offsets_by_can_id (some c))
unfolding Offset Stored
zero_set_offsets_by_can_id-publish_zero_set ns targets c k h nz =
    let (stored, is_stored, short, count, magic, shape) =
      publish_zero_set-Stored ns targets (store_targets targets) c refl h in
    let len = length-store_targets targets stored is_stored in
    let get = get-collect [] targets stored k is_stored nz in
    rw (read_stored c stored (12 - length targets) (ground arith) (ground arith) shape)
      (ground (arith, get, get_nil k))
