-- ===== src/Hal/Actuator.antt =====
-- hal/hardware/can/actuator: the actuator's state, and the driver that merges decoded feedback
-- into it. Numbers that the code keeps as floats are of the parameter type `F`; a time is a clock
-- reading in nanoseconds.
pub mod Latest
pub mod OnFrame
pub mod Received
use Prim.Native.String.{String}
use text.Mathlib.Text.{◌==◌ as str_eq}
use sparq_control.Common.{ℕ, Bool, Option, none, some, List, [], ◌∷◌, ℤ, ltb, if◌then◌else◌}
use sparq_control.Common.Result.{Result, ok, err}
use sparq_control.Hal.Frame.{CanFrame}
use sparq_control.Hal.Freshness.{CommManager, mark_rx, mark_decode_error}
use sparq_control.Hal.Transaction
use sparq_control.Hal.Transaction.{Manager}

-- A value of the `raw` dict.
pub data RawValue (F : Type 0) : Type 0 where
  int : ℤ → RawValue F
  float : F → RawValue F

abbrev pub Raw : Type 0 → Type 0
Raw F = List (String × RawValue F)

-- `ActuatorState`
pub record ActuatorState (F : Type 0) : Type 0 where
  pub position_rad : Option F
  pub velocity_rad_s : Option F
  pub torque_nm : Option F
  pub current_a : Option F
  pub temperature_c : Option F
  pub voltage_v : Option F
  pub fault_code : Option ℕ
  pub is_enabled : Option Bool
  pub mode : Option String
  pub last_feedback_t : ℕ
  pub raw : Raw F

-- `ActuatorState()`
abbrev pub blank_state : {F : Type 0} → ActuatorState F
blank_state = record {
  position_rad = none;
  velocity_rad_s = none;
  torque_nm = none;
  current_a = none;
  temperature_c = none;
  voltage_v = none;
  fault_code = none;
  is_enabled = none;
  mode = none;
  last_feedback_t = 0;
  raw = [];
}

-- `if new is not None: old = new`
abbrev pub or_keep {ℓ} : {A : Type ℓ} → Option A → Option A → Option A
or_keep none old = old
or_keep (some x) old = some x

-- `ActuatorDriver`, by its state and its two managers.
pub record Driver (F : Type 0) : Type 0 where
  pub state : ActuatorState F
  pub comm_manager : CommManager
  pub transaction_manager : Manager

module _ {F : Type 0} where
  -- `dict[key] = value`
  unfoldable pub insert : String → RawValue F → Raw F → Raw F
  insert k v [] = (k, v) ∷ []
  insert k v ((j, w) ∷ m) = if str_eq j k then (k, v) ∷ m else (j, w) ∷ insert k v m

  -- `dict.update`
  unfoldable pub update_raw : Raw F → Raw F → Raw F
  unfolding insert
  update_raw old [] = old
  update_raw old ((k, v) ∷ new) = update_raw (insert k v old) new

  -- The state's part of `_merge_state`.
  unfoldable pub merge : ActuatorState F → ActuatorState F → ActuatorState F
  unfolding update_raw
  merge s p = record {
    position_rad = or_keep p.position_rad s.position_rad;
    velocity_rad_s = or_keep p.velocity_rad_s s.velocity_rad_s;
    torque_nm = or_keep p.torque_nm s.torque_nm;
    current_a = or_keep p.current_a s.current_a;
    temperature_c = or_keep p.temperature_c s.temperature_c;
    voltage_v = or_keep p.voltage_v s.voltage_v;
    fault_code = or_keep p.fault_code s.fault_code;
    is_enabled = or_keep p.is_enabled s.is_enabled;
    mode = or_keep p.mode s.mode;
    last_feedback_t = if ltb 0 p.last_feedback_t then p.last_feedback_t else s.last_feedback_t;
    raw = update_raw s.raw p.raw;
  }

  -- `_merge_state`
  unfoldable pub merge_state : Driver F → ActuatorState F → ℕ → Driver F
  unfolding merge
  merge_state d p now = record d {
    state = merge d.state p;
    comm_manager =
        mark_rx d.comm_manager (if ltb 0 p.last_feedback_t then some p.last_feedback_t else none)
          now;
  }

  -- `on_frame` once the protocol has decoded the frame, or has raised.
  unfoldable pub handle : Result (Option (ActuatorState F)) → Driver F → CanFrame → ℕ → Driver F
  unfolding merge_state
  handle (err e) d frame now = record d { comm_manager = mark_decode_error d.comm_manager now }
  handle (ok none) d frame now = d
  handle (ok (some partial)) d frame now =
      let d' = merge_state d partial now in
      record d' { transaction_manager = Transaction.mark_rx d'.transaction_manager frame.can_id }

  -- `on_frame`, with the protocol's `decode_frame` at the time of the call.
  unfoldable pub on_frame :
      (CanFrame → ℕ → Result (Option (ActuatorState F))) → Driver F → CanFrame → ℕ → Driver F
  unfolding handle
  on_frame decode_frame d frame now = handle (decode_frame frame now) d frame now
