-- ===== src/Control/Sends.antt =====
-- The output methods of robot_controller/controller.py.
use sparq_control.Common.{
  ℕ, Option, none, some, List, [], ◌∷◌, ◌++◌, leb, ◌==◌, if◌then◌else◌, ℤ, pos, take, length, min,
}
use sparq_control.Hal.Frame.{CanFrame}
use sparq_control.Hardware.Spg.Encode.{
  MitCommand, encode_enable_frame, encode_disable_frame, encode_impedance_command_frame,
  encode_zero_position_frame,
}
use sparq_control.Shm.OperatorCommand.{OperatorCommand}
use sparq_control.Shm.ControlCommand.{ControlTarget, ControlCommand}
use sparq_control.Telemetry.Snapshot.{Source, CommandTarget}
use sparq_control.Control.ZeroTargets.{Offsets, get_offset, zero_set_offsets_by_can_id}
use sparq_control.Control.World.{
  Actuator, Env, Action, ◌>>=◌, ◌>>◌, return, lift, get, modify, read_clock, send,
}

-- `sorted` of CAN IDs.
abbrev insert_id : ℕ → List ℕ → List ℕ
insert_id x [] = x ∷ []
insert_id x (y ∷ ys) = if leb x y then x ∷ y ∷ ys else y ∷ insert_id x ys

unfoldable pub sorted : List ℕ → List ℕ
sorted [] = []
sorted (x ∷ xs) = insert_id x (sorted xs)

-- The keys of a dict.
abbrev pub keys {ℓ} : {A : Type ℓ} → List (ℕ × A) → List ℕ
keys [] = []
keys ((k, a) ∷ d) = k ∷ keys d

abbrev pub offset_or_zero : Option ℤ → ℤ
offset_or_zero none = pos 0
offset_or_zero (some x) = x

-- The command that damps an actuator.
abbrev pub damping_values : ℤ → MitCommand
damping_values kd = record {
  position_rad = pos 0;
  velocity_rad_s = pos 0;
  kp = pos 0;
  kd = kd;
  torque_ff_nm = pos 0;
}

abbrev pub damping_targets : ℤ → List ℕ → List CommandTarget
damping_targets kd [] = []
damping_targets kd (k ∷ ks) =
    record { can_id = k; values = damping_values kd } ∷ damping_targets kd ks

abbrev pub target_values : ControlTarget → MitCommand
target_values t = record {
  position_rad = t.q;
  velocity_rad_s = t.dq;
  kp = t.kp;
  kd = t.kd;
  torque_ff_nm = t.tau;
}

module _ {F : Type 0} where
  -- `self.actuators.get(can_id)`
  unfoldable pub get_actuator : List (ℕ × Actuator F) → ℕ → Option (Actuator F)
  get_actuator [] k = none
  get_actuator ((j, a) ∷ d) k = if j == k then some a else get_actuator d k

  -- `_record_output_command`
  unfoldable pub record_output_command : Env → Source → List CommandTarget → Action F (Unit {0})
  record_output_command env source targets = do
    now ← read_clock env
    modify (λ r. record r {
      last_output = record { source = source; timestamp_monotonic = now; targets = targets };
    })

  -- The loops of `_send_disable_all` and `_send_enable_all`.
  unfoldable pub send_to_each : Env → (ℕ → CanFrame) → List (ℕ × Actuator F) → Action F (Unit {0})
  unfolding send
  send_to_each env frame [] = return tt
  send_to_each env frame ((k, a) ∷ d) = send env (frame a.command_id) >> send_to_each env frame d

  -- `_send_disable_all`
  unfoldable pub send_disable_all : Env → Action F (Unit {0})
  unfolding record_output_command send_to_each encode_disable_frame
  send_disable_all env = do
    record_output_command env Source.disable []
    r ← get
    send_to_each env encode_disable_frame r.actuators

  -- `_send_enable_all`
  unfoldable pub send_enable_all : Env → Action F (Unit {0})
  unfolding record_output_command send_to_each encode_enable_frame
  send_enable_all env = do
    record_output_command env Source.enable []
    r ← get
    send_to_each env encode_enable_frame r.actuators

  -- One turn of the loop of `_send_zero_set_all`; an unknown CAN ID is skipped.
  unfoldable pub send_zero_to : Env → Offsets → ℕ → Option (Actuator F) → Action F (Unit {0})
  unfolding get_offset encode_zero_position_frame send
  send_zero_to env offsets k none = return tt
  send_zero_to env offsets k (some a) = do
    frame ←
        lift (encode_zero_position_frame a.command_id (offset_or_zero (get_offset offsets k)) 100)
    send env frame

  unfoldable pub send_zeros : Env → Offsets → List ℕ → Action F (Unit {0})
  unfolding send_zero_to get_actuator
  send_zeros env offsets [] = return tt
  send_zeros env offsets (k ∷ ks) = do
    r ← get
    send_zero_to env offsets k (get_actuator r.actuators k)
    send_zeros env offsets ks

  -- `sorted(offsets_by_can_id) if offsets_by_can_id else sorted(self.actuators)`
  unfoldable pub zero_set_ids : Offsets → List (ℕ × Actuator F) → List ℕ
  unfolding sorted
  zero_set_ids [] actuators = sorted (keys actuators)
  zero_set_ids (o ∷ offsets) actuators = sorted (keys (o ∷ offsets))

  -- `_send_zero_set_all`
  unfoldable pub send_zero_set_all : Env → Option OperatorCommand → Action F (Unit {0})
  unfolding zero_set_offsets_by_can_id zero_set_ids record_output_command send_zeros
  send_zero_set_all env command = do
    offsets ← lift (zero_set_offsets_by_can_id command)
    r ← get
    record_output_command env Source.zero_set []
    send_zeros env offsets (zero_set_ids offsets r.actuators)

  -- An impedance command to one actuator; the actuators are looked up by their own keys.
  unfoldable pub send_impedance : Env → MitCommand → Option (Actuator F) → Action F (Unit {0})
  unfolding encode_impedance_command_frame send
  send_impedance env values none = return tt
  send_impedance env values (some a) = do
    frame ← lift (encode_impedance_command_frame a.mit_config a.command_id values)
    send env frame

  unfoldable pub send_dampings : Env → List ℕ → Action F (Unit {0})
  unfolding send_impedance get_actuator
  send_dampings env [] = return tt
  send_dampings env (k ∷ ks) = do
    r ← get
    send_impedance env (damping_values env.velocity_damping_kd) (get_actuator r.actuators k)
    send_dampings env ks

  -- `_send_damping_all`
  unfoldable pub send_damping_all : Env → Action F (Unit {0})
  unfolding sorted record_output_command send_dampings
  send_damping_all env = do
    r ← get
    let ids = sorted (keys r.actuators)
    record_output_command env Source.damping (damping_targets env.velocity_damping_kd ids)
    send_dampings env ids

  -- One turn of the loop of `_send_policy_command`: the targets so far, with this one if it is of
  -- a known actuator.
  unfoldable pub send_target :
      Env → ControlTarget → List CommandTarget → Option (Actuator F) → Action F (List CommandTarget)
  unfolding encode_impedance_command_frame send
  send_target env t targets none = return targets
  send_target env t targets (some a) = do
    frame ← lift (encode_impedance_command_frame a.mit_config a.command_id (target_values t))
    send env frame
    return (targets ++ record { can_id = t.can_id; values = target_values t } ∷ [])

  unfoldable pub send_targets :
      Env → List ControlTarget → List CommandTarget → Action F (List CommandTarget)
  unfolding send_target get_actuator
  send_targets env [] targets = return targets
  send_targets env (t ∷ ts) targets = do
    r ← get
    targets' ← send_target env t targets (get_actuator r.actuators t.can_id)
    send_targets env ts targets'

  -- `_send_policy_command`
  unfoldable pub send_policy_command : Env → ControlCommand → Action F (Unit {0})
  unfolding record_output_command send_targets
  send_policy_command env cmd = do
    let n = min cmd.num_targets (length cmd.targets)
    targets ← send_targets env (take n cmd.targets) []
    record_output_command env Source.policy targets
