-- ===== src/Control/StateMachine/Spec.antt =====
-- The transition table of robot_controller/state_machine.py, mode by mode, and the agreement of
-- `update` with it.
use sparq_control.Common.{ℕ, ◌+◌, Bool, ◌≡◌, arith, Option, leb, if◌then◌else◌}
use sparq_control.Shm.OperatorCommand.{
  Code, none_code, enable, disable, zero_set, reset_fault, run, OperatorCommand,
}
use sparq_control.Control.StateMachine.{
  Mode, disabled, enabling, normal, damping, zero_setting, estop, mode_is, Machine, read_code,
  transition, update,
}

-- The next mode by mode and command; `due` says that the enable time is over.
abbrev pub next_mode : Bool → Mode → Code → Mode
next_mode due disabled none_code = disabled
next_mode due disabled enable = enabling
next_mode due disabled disable = disabled
next_mode due disabled Code.damping = damping
next_mode due disabled zero_set = zero_setting
next_mode due disabled Code.estop = estop
next_mode due disabled reset_fault = disabled
next_mode due disabled run = disabled
next_mode due enabling none_code = if due then damping else enabling
next_mode due enabling enable = if due then damping else enabling
next_mode due enabling disable = disabled
next_mode due enabling Code.damping = damping
next_mode due enabling zero_set = zero_setting
next_mode due enabling Code.estop = estop
next_mode due enabling reset_fault = disabled
next_mode due enabling run = if due then damping else enabling
next_mode due normal disable = disabled
next_mode due normal Code.damping = damping
next_mode due normal zero_set = zero_setting
next_mode due normal Code.estop = estop
next_mode due normal reset_fault = disabled
next_mode due normal _ = normal
next_mode due damping disable = disabled
next_mode due damping run = normal
next_mode due damping zero_set = zero_setting
next_mode due damping Code.estop = estop
next_mode due damping reset_fault = disabled
next_mode due damping _ = damping
next_mode due zero_setting none_code = disabled
next_mode due zero_setting enable = enabling
next_mode due zero_setting disable = disabled
next_mode due zero_setting Code.damping = damping
next_mode due zero_setting zero_set = zero_setting
next_mode due zero_setting Code.estop = estop
next_mode due zero_setting reset_fault = disabled
next_mode due zero_setting run = zero_setting
next_mode due estop reset_fault = disabled
next_mode due estop _ = estop

abbrev is_due : Machine → ℕ → Bool
is_due m now = leb (m.mode_enter_time + m.enable_duration) now

transition-next_mode :
    (m : Machine) (code : Code) (now : ℕ)
    → (transition m code now).mode ≡ next_mode (is_due m now) m.mode code
unfolding transition
transition-next_mode m code now = ground arith

transition-enter_time :
    (m : Machine) (code : Code) (now : ℕ)
    → let m' = transition m code now in
      (m'.mode_enter_time ≡ (if mode_is m'.mode m.mode then m.mode_enter_time else now))
      × (m'.enable_duration ≡ m.enable_duration)
unfolding transition
transition-enter_time m code now = ground arith

-- Every update moves by the transition table, where the enable time counts from the entry into the
-- mode. The entry time becomes the present time if the mode changes and stays otherwise, and the
-- enable duration stays.
pub update-next_mode :
    (m : Machine) (c : Option OperatorCommand) (now : ℕ)
    → let m' = update m c now in
      (m'.mode ≡ next_mode (leb (m.mode_enter_time + m.enable_duration) now) m.mode (read_code c))
      × (m'.mode_enter_time ≡ (if mode_is m'.mode m.mode then m.mode_enter_time else now))
      × (m'.enable_duration ≡ m.enable_duration)
unfolding update
update-next_mode m c now =
    let t = transition-enter_time m (read_code c) now in
    (transition-next_mode m (read_code c) now, t.0, t.1)
