-- ===== src/Control/StateMachine.antt =====
-- robot_controller/state_machine.py: the controller's modes and their transitions. Times are
-- readings of the monotonic clock, as natural numbers of one unit.
pub mod Spec
pub mod Traces
use sparq_control.Common.{
  ℕ, ◌+◌, Bool, ◌&&◌, ◌||◌, not, Option, none, some, List, [], ◌∷◌, leb, ◌==◌, if◌then◌else◌,
}
use sparq_control.Shm.OperatorCommand.{
  Code, none_code, enable, disable, zero_set, reset_fault, run, code_value, code_of,
  OperatorCommand,
}

-- `ControllerMode`
pub data Mode : Type 0 where
  disabled enabling normal damping zero_setting estop : Mode

-- The value of the enumeration member.
abbrev pub mode_value : Mode → ℕ
mode_value disabled = 0
mode_value enabling = 1
mode_value normal = 2
mode_value damping = 3
mode_value zero_setting = 4
mode_value estop = 5

abbrev pub mode_is : Mode → Mode → Bool
mode_is a b = mode_value a == mode_value b

abbrev pub code_is : Code → Code → Bool
code_is a b = code_value a == code_value b

-- `ControllerStateMachine`
pub record Machine : Type 0 where
  pub enable_duration : ℕ
  pub mode : Mode
  pub mode_enter_time : ℕ

-- `enter`
unfoldable pub enter : Machine → Mode → ℕ → Machine
enter m mode now =
    if mode_is m.mode mode then m else record m { mode = mode; mode_enter_time = now }

-- The command's code; an absent command and an unknown value are `NONE`.
unfoldable pub read_code : Option OperatorCommand → Code
unfolding code_of
read_code none = none_code
read_code (some c) = elim (code_of c.command) [ none ↦ none_code | some code ↦ code ]

-- The body of `update` once the code is known.
unfoldable pub transition : Machine → Code → ℕ → Machine
unfolding enter
transition m code now =
    if code_is code Code.estop
    then enter m estop now
    else if mode_is m.mode estop
    then (if code_is code reset_fault then enter m disabled now else m)
    else if code_is code disable
    then enter m disabled now
    else if code_is code enable && (mode_is m.mode disabled || mode_is m.mode zero_setting)
    then enter m enabling now
    else if code_is code enable && not (mode_is m.mode enabling)
    then m
    else if code_is code run && mode_is m.mode damping
    then enter m normal now
    else if code_is code run && mode_is m.mode normal
    then m
    else if code_is code Code.damping
    then enter m damping now
    else if code_is code zero_set
    then enter m zero_setting now
    else if code_is code reset_fault
    then enter m disabled now
    else if mode_is m.mode zero_setting && code_is code none_code
    then enter m disabled now
    else if mode_is m.mode enabling && leb (m.mode_enter_time + m.enable_duration) now
    then enter m damping now
    else m

-- `update`; the mode that it returns is the new machine's.
unfoldable pub update : Machine → Option OperatorCommand → ℕ → Machine
unfolding read_code transition
update m command now = transition m (read_code command) now

-- One update for each reading of the command segment and the clock.
unfoldable pub run_updates : Machine → List (Option OperatorCommand × ℕ) → Machine
run_updates m [] = m
run_updates m ((c, now) ∷ es) = run_updates (update m c now) es
