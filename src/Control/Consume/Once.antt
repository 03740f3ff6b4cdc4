-- ===== src/Control/Consume/Once.antt =====
-- A command that is held in the operator segment over many ticks reaches the state machine once.
use sparq_control.Common.{
  ℕ, zero, suc, ◌≡◌, Bool, true, false, not, none, some, ◌∷◌, arith, replicate,
}
use sparq_control.Shm.OperatorCommand.{none_code, code_of, OperatorCommand}
use sparq_control.Control.StateMachine.{code_is}
use sparq_control.Control.Consume.{
  Latch, is_stamp, released, consume_stamped, consume_operator_command, consume_all,
}

-- The word is a code other than `NONE`.
abbrev pub is_action : OperatorCommand → Bool
is_action c = elim (code_of c.command) [ none ↦ false | some code ↦ not (code_is code none_code) ]

consume_repeat :
    (l : Latch) (c : OperatorCommand)
    → is_action c ≡ true
    → is_stamp c.timestamp_ns l.last_consumed_operator_timestamp_ns ≡ true
    → let r = consume_operator_command l c in
      (r.1 ≡ released c) × (is_stamp c.timestamp_ns r.0.last_consumed_operator_timestamp_ns ≡ true)
unfolding consume_operator_command consume_stamped
consume_repeat l c a s = ground arith

consume_all_repeat :
    (l : Latch) (c : OperatorCommand) (n : ℕ)
    → is_action c ≡ true
    → is_stamp c.timestamp_ns l.last_consumed_operator_timestamp_ns ≡ true
    → consume_all l (replicate n c) ≡ replicate n (released c)
unfolding consume_all
consume_all_repeat l c zero a s = ground arith
consume_all_repeat l c (suc n) a s =
    let r = consume_operator_command l c in
    let f = consume_repeat l c a s in ground (arith, f, consume_all_repeat r.0 c n a f.1)

-- A command other than NONE that was not consumed before, held in the segment for n + 1 readings,
-- is given to the state machine once, and then n times as NONE with its timestamp.
pub consume_all_once :
    (l : Latch) (c : OperatorCommand) (n : ℕ)
    → is_action c ≡ true
    → is_stamp c.timestamp_ns l.last_consumed_operator_timestamp_ns ≡ false
    → consume_all l (replicate (suc n) c) ≡ c ∷ replicate n (released c)
unfolding consume_all consume_operator_command consume_stamped
consume_all_once l c n a s = ground (
  arith,
  consume_all_repeat
      (record {
        last_consumed_operator_timestamp_ns = some c.timestamp_ns;
        last_ignored_operator_timestamp_ns = none;
      })
      c n a (ground arith),
)
