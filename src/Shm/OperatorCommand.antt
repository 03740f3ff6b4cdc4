-- ===== src/Shm/OperatorCommand.antt =====
-- robot_controller/shm/operator_command.py: the operator command segment and the commands that
-- are built for it. `time.time_ns()` is the argument `ns`.
use sparq_control.Common.{
  ℕ, ◌-◌, ◌%◌, ◌^◌, List, [], ◌∷◌, ◌++◌, Bool, ◌&&◌, Option, none, some, ltb, ◌==◌, if◌then◌else◌,
  length, replicate, ℤ, pos, pos_part, leb_ℤ, fits_i16,
}
use sparq_control.Common.Result.{Result, ok, err, ◌>>=◌, ◌>>◌, value_error, raise_if}

-- `OperatorCommandCode`
pub data Code : Type 0 where
  none_code enable disable damping zero_set estop reset_fault run : Code

-- The value of the enumeration member.
abbrev pub code_value : Code → ℕ
code_value none_code = 0
code_value enable = 1
code_value disable = 2
code_value damping = 3
code_value zero_set = 4
code_value estop = 5
code_value reset_fault = 6
code_value run = 7

-- `OperatorCommandCode(value)`, where `none` is the `ValueError` of an unknown value.
unfoldable pub code_of : ℕ → Option Code
code_of v =
    if v == 0
    then some none_code
    else if v == 1
    then some enable
    else if v == 2
    then some disable
    else if v == 3
    then some damping
    else if v == 4
    then some zero_set
    else if v == 5
    then some estop
    else if v == 6
    then some reset_fault
    else if v == 7
    then some run
    else none

abbrev pub zero_target_capacity : ℕ
zero_target_capacity = 12

abbrev pub zero_target_magic_value : ℕ
zero_target_magic_value = 0x5A45524F

-- `OperatorZeroTargetC`; `can_id` is a uint32 and `offset_count` an int16.
pub record ZeroTarget : Type 0 where
  pub can_id : ℕ
  pub offset_count : ℤ

abbrev pub no_target : ZeroTarget
no_target = record { can_id = 0; offset_count = pos 0 }

-- `OperatorCommandC`; `zero_targets` has `zero_target_capacity` entries.
pub record OperatorCommand : Type 0 where
  pub timestamp_ns : ℕ
  pub command : ℕ
  pub target_mask : ℕ
  pub zero_target_count : ℕ
  pub zero_target_magic : ℕ
  pub zero_targets : List ZeroTarget

-- `OperatorCommandC()`: all bytes are zero.
abbrev pub blank_command : OperatorCommand
blank_command = record {
  timestamp_ns = 0;
  command = 0;
  target_mask = 0;
  zero_target_count = 0;
  zero_target_magic = 0;
  zero_targets = replicate zero_target_capacity no_target;
}

-- The range checks that a target passes before it is stored.
abbrev pub target_fits : ℤ × ℤ → Bool
target_fits (can_id, offset_count) =
    leb_ℤ (pos 0) can_id && leb_ℤ can_id (pos 0x1FFFFFFF) && fits_i16 offset_count

-- The loop of `_build_command` over the targets, up to the first one out of range.
unfoldable pub store_targets : List (ℤ × ℤ) → Result (List ZeroTarget)
store_targets [] = ok []
store_targets (t ∷ ts) =
    let rest = store_targets ts in
    if target_fits t
    then (rest >>= λ stored. ok (record { can_id = pos_part t.0; offset_count = t.1 } ∷ stored))
    else err value_error

-- `_build_command`
unfoldable pub build_command : ℕ → ℕ → ℕ → List (ℤ × ℤ) → Result OperatorCommand
unfolding store_targets
build_command ns code target_mask targets = do
  raise_if (ltb zero_target_capacity (length targets)) value_error
  stored ← store_targets targets
  ok (record {
    timestamp_ns = ns % 2 ^ 64;
    command = code % 2 ^ 32;
    target_mask = target_mask % 2 ^ 32;
    zero_target_count = length targets;
    zero_target_magic = if length targets == 0 then 0 else zero_target_magic_value;
    zero_targets = stored ++ replicate (zero_target_capacity - length targets) no_target;
  })

-- `OperatorCommandShm.publish`: the command that is written to the segment.
unfoldable pub publish : ℕ → ℕ → ℕ → Result OperatorCommand
unfolding build_command
publish ns code target_mask = build_command ns code target_mask []

-- `OperatorCommandShm.publish_zero_set`
unfoldable pub publish_zero_set : ℕ → List (ℤ × ℤ) → Result OperatorCommand
unfolding build_command
publish_zero_set ns targets = build_command ns (code_value zero_set) 0 targets

-- The keyword arguments of `OperatorCommandShmWriter.publish`.
pub record Flags : Type 0 where
  pub arm : Bool
  pub clear_fault : Bool
  pub estop : Bool
  pub damping : Bool
  pub zero_set : Bool
  pub disable : Bool
  pub run : Bool

-- `OperatorCommandShmWriter.publish`
unfoldable pub publish_flags : ℕ → Flags → Result OperatorCommand
unfolding publish publish_zero_set
publish_flags ns f =
    if f.arm
    then publish ns (code_value Code.enable) 0
    else if f.run
    then publish ns (code_value Code.run) 0
    else if f.clear_fault
    then publish ns (code_value Code.reset_fault) 0
    else if f.estop
    then publish ns (code_value Code.estop) 0
    else if f.damping
    then publish ns (code_value Code.damping) 0
    else if f.zero_set
    then publish_zero_set ns []
    else if f.disable
    then publish ns (code_value Code.disable) 0
    else publish ns (code_value Code.none_code) 0
