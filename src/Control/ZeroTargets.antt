-- ===== src/Control/ZeroTargets.antt =====
-- `_zero_set_offsets_by_can_id` of robot_controller/controller.py: the offsets that a ZERO_SET
-- command carries, as a dict by CAN ID.
pub mod RoundTrip
pub mod Untargeted
use sparq_control.Common.{
  ℕ, zero, suc, Bool, not, Option, none, some, List, [], ◌∷◌, ◌==◌, if◌then◌else◌, ltb, ℤ, take,
  length,
}
use sparq_control.Common.Result.{Result, ok, err, runtime_error}
use sparq_control.Shm.OperatorCommand.{ZeroTarget, OperatorCommand, zero_target_magic_value}

abbrev pub Offsets : Type 0
Offsets = List (ℕ × ℤ)

-- `offsets[can_id] = offset`
unfoldable pub set_offset : Offsets → ℕ → ℤ → Offsets
set_offset [] k v = (k, v) ∷ []
set_offset ((j, w) ∷ d) k v = if j == k then (k, v) ∷ d else (j, w) ∷ set_offset d k v

-- `offsets.get(can_id)`
unfoldable pub get_offset : Offsets → ℕ → Option ℤ
get_offset [] k = none
get_offset ((j, w) ∷ d) k = if j == k then some w else get_offset d k

-- One turn of the loop, which skips the CAN ID 0.
unfoldable pub store : Offsets → ZeroTarget → Offsets
unfolding set_offset
store d t = if t.can_id == 0 then d else set_offset d t.can_id t.offset_count

-- The loop over the first targets.
unfoldable pub collect : Offsets → List ZeroTarget → Offsets
unfolding store
collect d [] = d
collect d (t ∷ ts) = collect (store d t) ts

-- `_zero_set_offsets_by_can_id`
unfoldable pub zero_set_offsets_by_can_id : Option OperatorCommand → Result Offsets
unfolding collect
zero_set_offsets_by_can_id none = ok []
zero_set_offsets_by_can_id (some c) =
    if c.zero_target_count == 0
    then ok []
    else if not (c.zero_target_magic == zero_target_magic_value)
    then err runtime_error
    else if ltb (length c.zero_targets) c.zero_target_count
    then err runtime_error
    else ok (collect [] (take c.zero_target_count c.zero_targets))
