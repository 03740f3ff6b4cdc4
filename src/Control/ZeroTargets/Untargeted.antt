-- ===== src/Control/ZeroTargets/Untargeted.antt =====
-- A command without targets that is read in the mode ZERO_SETTING zeroes every actuator.
use mathlib.Core.Path.{refl}
use sparq_control.Common.{ℕ, ◌≡◌, some, List, [], arith}
use sparq_control.Common.Result.{ok}
use sparq_control.Shm.OperatorCommand.{
  run, code_value, code_of, OperatorCommand, publish, build_command, store_targets,
}
use sparq_control.Control.StateMachine.{Machine, zero_setting, update, read_code, transition}
use sparq_control.Control.ZeroTargets.{zero_set_offsets_by_can_id}
use sparq_control.Control.World.{Actuator}
use sparq_control.Control.Sends.{sorted, keys, zero_set_ids}

-- A RUN command that is published and read in ZERO_SETTING leaves the machine in ZERO_SETTING and
-- carries no offsets, and without offsets the zero-set goes to every actuator.
pub run_rezeroes :
    {F : Type 0} (m : Machine) (ns target_mask now : ℕ) (c : OperatorCommand)
    (actuators : List (ℕ × Actuator F))
    → m.mode ≡ zero_setting
    → publish ns (code_value run) target_mask ≡ ok c
    → (update m (some c) now ≡ m)
      × (zero_set_offsets_by_can_id (some c) ≡ ok [])
      × (zero_set_ids [] actuators ≡ sorted (keys actuators))
unfolding publish build_command store_targets update read_code code_of transition
    zero_set_offsets_by_can_id zero_set_ids
run_rezeroes m ns target_mask now c actuators z h = (ground arith, ground arith, refl)
