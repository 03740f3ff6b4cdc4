-- ===== src/Control/Consume.antt =====
-- `_consume_operator_command` of robot_controller/controller.py: a command that stays in the
-- operator segment acts once.
pub mod Once
use sparq_control.Common.{
  ℕ, ◌≡◌, ◌≢◌, Bool, true, false, not, Option, none, some, List, [], ◌∷◌, ◌==◌, if◌then◌else◌,
  arith, ◌+◌, suc,
}
use sparq_control.Shm.OperatorCommand.{
  Code, none_code, code_value, code_of, OperatorCommand, blank_command,
}
use sparq_control.Control.StateMachine.{code_is}

-- The controller's two timestamps.
pub record Latch : Type 0 where
  pub last_consumed_operator_timestamp_ns : Option ℕ
  pub last_ignored_operator_timestamp_ns : Option ℕ

-- `timestamp_ns == self._last_…`, where `None` equals no number.
abbrev pub is_stamp : ℕ → Option ℕ → Bool
is_stamp t none = false
is_stamp t (some s) = t == s

-- What the controller reads in place of a command that it has consumed.
abbrev pub released : OperatorCommand → OperatorCommand
released command = record blank_command {
  timestamp_ns = command.timestamp_ns;
  command = code_value none_code;
}

-- The body once the code is known not to be `NONE`.
unfoldable pub consume_stamped : Latch → OperatorCommand → Latch × OperatorCommand
consume_stamped l command =
    let t = command.timestamp_ns in
    if is_stamp t l.last_consumed_operator_timestamp_ns
    then (
      (if is_stamp t l.last_ignored_operator_timestamp_ns
          then l
          else record l { last_ignored_operator_timestamp_ns = some t }),
      released command,
    )
    else (
      record {
        last_consumed_operator_timestamp_ns = some t;
        last_ignored_operator_timestamp_ns = none;
      },
      command,
    )

-- `_consume_operator_command`
unfoldable pub consume_operator_command : Latch → OperatorCommand → Latch × OperatorCommand
unfolding code_of consume_stamped
consume_operator_command l command = elim (code_of command.command) [
  | none ↦ (l, command)
  | some code ↦ if code_is code none_code then (l, command) else consume_stamped l command
]

-- One reading of the segment in each tick: what the state machine is given.
unfoldable pub consume_all : Latch → List OperatorCommand → List OperatorCommand
unfolding consume_operator_command
consume_all l [] = []
consume_all l (c ∷ cs) = let (l', c') = consume_operator_command l c in c' ∷ consume_all l' cs
