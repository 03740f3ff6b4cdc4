-- ===== src/Shm/ControlCommand.antt =====
-- robot_controller/shm/control_command.py: the segment with the policy's targets. Values are exact,
-- as in the encoders, and `time.time_ns()` is the argument `ns`.
use sparq_control.Common.{ℕ, ◌-◌, ◌%◌, ◌^◌, List, [], ◌∷◌, ◌++◌, ltb, length, replicate, ℤ, pos}
use sparq_control.Common.Result.{Result, ok, ◌>>◌, value_error, raise_if}

abbrev pub max_control_targets : ℕ
max_control_targets = 12

-- `ControlTargetC`, and `ControlTarget`, whose CAN ID becomes a uint32.
pub record ControlTarget : Type 0 where
  pub can_id : ℕ
  pub q : ℤ
  pub dq : ℤ
  pub kp : ℤ
  pub kd : ℤ
  pub tau : ℤ

-- `ControlCommandC`; `targets` has `max_control_targets` entries.
pub record ControlCommand : Type 0 where
  pub timestamp_ns : ℕ
  pub num_targets : ℕ
  pub targets : List ControlTarget

abbrev pub blank_target : ControlTarget
blank_target = record { can_id = 0; q = pos 0; dq = pos 0; kp = pos 0; kd = pos 0; tau = pos 0 }

unfoldable pub store_control_targets : List ControlTarget → List ControlTarget
store_control_targets [] = []
store_control_targets (t ∷ ts) = record t { can_id = t.can_id % 2 ^ 32 } ∷ store_control_targets ts

-- `ControlCommandShm.write_targets`: the command that is written.
unfoldable pub write_targets : ℕ → List ControlTarget → Result ControlCommand
unfolding store_control_targets
write_targets ns targets = do
  raise_if (ltb max_control_targets (length targets)) value_error
  ok (record {
    timestamp_ns = ns % 2 ^ 64;
    num_targets = length targets;
    targets =
        store_control_targets targets
        ++ replicate (max_control_targets - length targets) blank_target;
  })
