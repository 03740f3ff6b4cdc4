-- ===== src/Control/Tick/Output.antt =====
-- Which frames a tick of robot_controller/controller.py sends.
use mathlib.Core.Path.{refl}
use sparq_control.Common.{arith, ℕ, ◌≡◌, Option, none, some, List, [], ◌∷◌, ◌++◌, ℤ}
use sparq_control.Common.Result.{Result, ok, err, ◌>>=◌ as ◌>>=r◌}
use sparq_control.Hal.Frame.{CanFrame}
use sparq_control.Hardware.Spg.Decode.{byte}
use sparq_control.Hardware.Spg.Encode.{
  MitConfig, MitCommand, encode_impedance_command_frame, encode_zero_position_frame,
  encode_enable_frame, encode_disable_frame, cmd_mit_control, cmd_mit_enter, cmd_mit_exit,
  cmd_mit_set_zero, pack_mit_payload,
}
use sparq_control.Hardware.Spg.Payload.{pack_mit_payload-unpack}
use sparq_control.Hardware.Spg.Params.{ZeroPosition, encode_zero_position_frame-ZeroPosition}
use sparq_control.Shm.OperatorCommand.{OperatorCommand}
use sparq_control.Shm.ControlCommand.{ControlTarget, ControlCommand}
use sparq_control.Telemetry.Snapshot.{Source, CommandTarget}
use sparq_control.Control.StateMachine.{
  Mode, disabled, enabling, normal, damping, zero_setting, estop,
}
use sparq_control.Control.ZeroTargets.{Offsets, zero_set_offsets_by_can_id, get_offset}
use sparq_control.Control.Sends.{
  sorted, keys, get_actuator, send_to_each, send_zero_to, send_zeros, zero_set_ids, send_impedance,
  send_dampings, send_target, send_targets, send_disable_all, send_enable_all, send_zero_set_all,
  send_damping_all, send_policy_command, damping_values, damping_targets, target_values,
  record_output_command, offset_or_zero,
}
use sparq_control.Control.Tick.{output}
use sparq_control.Control.World.{Actuator, Robot, Env, Action, lift, get, ◌>>=◌, ◌>>◌, return, send}
use sparq_control.Control.Tick.Kept.{Kept, Kept-refl, Kept-bind, Kept-send, Kept-record}

-- The frame carries the drive's command.
abbrev pub HasCommand : ℕ → CanFrame → Type 0
HasCommand cmd f = byte f.payload 0 ≡ cmd

-- The only drive command of each mode.
abbrev pub mode_command : Mode → ℕ
mode_command disabled = cmd_mit_exit
mode_command enabling = cmd_mit_enter
mode_command normal = cmd_mit_control
mode_command damping = cmd_mit_control
mode_command zero_setting = cmd_mit_set_zero
mode_command estop = cmd_mit_exit

-- An encoder's frame, if it gives one.
Encodes : (CanFrame → Type 0) → Result CanFrame → Type 0
Encodes P (ok f) = P f
Encodes P (err e) = Unit

framed :
    (r : Result (List ℕ)) (id cmd : ℕ)
    → ((p : List ℕ) → r ≡ ok p → byte p 0 ≡ cmd)
    → Encodes (HasCommand cmd) (r >>=r λ p. ok (record { can_id = id; payload = p }))
unfolding Encodes
framed (ok p) id cmd h = h p refl
framed (err e) id cmd h = tt

impedance-Encodes :
    (cfg : MitConfig) (id : ℕ) (values : MitCommand)
    → Encodes (HasCommand cmd_mit_control) (encode_impedance_command_frame cfg id values)
unfolding encode_impedance_command_frame
impedance-Encodes cfg id values =
    framed (pack_mit_payload cfg values) id cmd_mit_control
      (λ p h. (pack_mit_payload-unpack cfg values p h).1)

zero_of :
    (id : ℕ) (x : ℤ) (d : ℕ) (r : Result CanFrame)
    → ZeroPosition id x d r
    → Encodes (HasCommand cmd_mit_set_zero) r
unfolding ZeroPosition Encodes
zero_of id x d (ok f) h = h.3
zero_of id x d (err e) h = tt

zero-Encodes :
    (id : ℕ) (x : ℤ) → Encodes (HasCommand cmd_mit_set_zero) (encode_zero_position_frame id x 100)
zero-Encodes id x =
    zero_of id x 100 (encode_zero_position_frame id x 100)
      (encode_zero_position_frame-ZeroPosition id x 100 (omega arith))

module _ {F : Type 0} (P : CanFrame → Type 0) (env : Env) where
  -- An action keeps the robot but for frames with the property.
  Steady : {A : Type 0} → Action F A → Type 0
  Steady m = (r : Robot F) → Kept P r (m r).1

  encoded :
      {B : Type 0} (x : Result CanFrame) (k : CanFrame → Action F B)
      → Encodes P x
      → ((f : CanFrame) → P f → Steady (k f))
      → Steady (lift x >>= k)
  unfolding Encodes Steady
  encoded (ok f) k h hk = hk f h
  encoded (err e) k h hk = λ r. Kept-refl P r

  each-Steady :
      (frame : ℕ → CanFrame) (d : List (ℕ × Actuator F))
      → ((id : ℕ) → P (frame id))
      → Steady (send_to_each env frame d)
  unfolding send_to_each Steady
  each-Steady frame [] h = λ r. Kept-refl P r
  each-Steady frame ((k, a) ∷ d) h =
      Kept-bind P (send env (frame a.command_id)) (λ _. send_to_each env frame d)
        (Kept-send P env (frame a.command_id) (h a.command_id)) (λ _. each-Steady frame d h)

module _ {F : Type 0} (env : Env) where
  zero-Steady :
      (offsets : Offsets) (k : ℕ) (a : Option (Actuator F))
      → Steady (HasCommand cmd_mit_set_zero) env (send_zero_to env offsets k a)
  unfolding send_zero_to Steady
  zero-Steady offsets k none = λ r. Kept-refl _ r
  zero-Steady offsets k (some a) =
      encoded (HasCommand cmd_mit_set_zero) env
        (encode_zero_position_frame a.command_id (offset_or_zero (get_offset offsets k)) 100)
        (λ f. send env f) (zero-Encodes a.command_id (offset_or_zero (get_offset offsets k)))
        (λ f p. Kept-send (HasCommand cmd_mit_set_zero) env f p)

  zeros-Steady :
      (offsets : Offsets) (ks : List ℕ)
      → (r : Robot F) → Kept (HasCommand cmd_mit_set_zero) r (send_zeros env offsets ks r).1
  unfolding send_zeros Steady
  zeros-Steady offsets [] = λ r. Kept-refl _ r
  zeros-Steady offsets (k ∷ ks) = λ r.
      Kept-bind _ (send_zero_to env offsets k (get_actuator r.actuators k))
        (λ _. send_zeros env offsets ks) (zero-Steady offsets k (get_actuator r.actuators k))
        (λ _. zeros-Steady offsets ks) r

  impedance-Steady :
      (values : MitCommand) (a : Option (Actuator F))
      → Steady (HasCommand cmd_mit_control) env (send_impedance env values a)
  unfolding send_impedance Steady
  impedance-Steady values none = λ r. Kept-refl _ r
  impedance-Steady values (some a) =
      encoded (HasCommand cmd_mit_control) env
        (encode_impedance_command_frame a.mit_config a.command_id values) (λ f. send env f)
        (impedance-Encodes a.mit_config a.command_id values)
        (λ f p. Kept-send (HasCommand cmd_mit_control) env f p)

  dampings-Steady :
      (ks : List ℕ) → (r : Robot F) → Kept (HasCommand cmd_mit_control) r (send_dampings env ks r).1
  unfolding send_dampings Steady
  dampings-Steady [] = λ r. Kept-refl _ r
  dampings-Steady (k ∷ ks) =
      let values = damping_values env.velocity_damping_kd in
      λ r.
        Kept-bind _ (send_impedance env values (get_actuator r.actuators k))
          (λ _. send_dampings env ks) (impedance-Steady values (get_actuator r.actuators k))
          (λ _. dampings-Steady ks) r

  target-Steady :
      (t : ControlTarget) (targets : List CommandTarget) (a : Option (Actuator F))
      → Steady (HasCommand cmd_mit_control) env (send_target env t targets a)
  unfolding send_target Steady
  target-Steady t targets none = λ r. Kept-refl _ r
  target-Steady t targets (some a) =
      let values = target_values t in
      encoded (HasCommand cmd_mit_control) env
        (encode_impedance_command_frame a.mit_config a.command_id values)
        (λ f. send env f >> return (targets ++ record { can_id = t.can_id; values = values } ∷ []))
        (impedance-Encodes a.mit_config a.command_id values)
        (λ f p.
          Kept-bind _ (send env f) _ (Kept-send (HasCommand cmd_mit_control) env f p)
            (λ _ s. Kept-refl _ s))

  targets-Steady :
      (ts : List ControlTarget) (targets : List CommandTarget)
      → (r : Robot F) → Kept (HasCommand cmd_mit_control) r (send_targets env ts targets r).1
  unfolding send_targets Steady
  targets-Steady [] targets = λ r. Kept-refl _ r
  targets-Steady (t ∷ ts) targets = λ r.
      Kept-bind _ (send_target env t targets (get_actuator r.actuators t.can_id))
        (send_targets env ts) (target-Steady t targets (get_actuator r.actuators t.can_id))
        (targets-Steady ts) r

  -- Each output method.
  pub disable-Kept : (r : Robot F) → Kept (HasCommand cmd_mit_exit) r (send_disable_all env r).1
  unfolding send_disable_all Steady encode_disable_frame
  disable-Kept =
      Kept-bind _ (record_output_command env Source.disable [])
        (λ _. get >>= λ s. send_to_each env encode_disable_frame s.actuators)
        (Kept-record _ env Source.disable [])
        (λ _ s. each-Steady _ env encode_disable_frame s.actuators (λ id. refl) s)

  pub enable-Kept : (r : Robot F) → Kept (HasCommand cmd_mit_enter) r (send_enable_all env r).1
  unfolding send_enable_all Steady encode_enable_frame
  enable-Kept =
      Kept-bind _ (record_output_command env Source.enable [])
        (λ _. get >>= λ s. send_to_each env encode_enable_frame s.actuators)
        (Kept-record _ env Source.enable [])
        (λ _ s. each-Steady _ env encode_enable_frame s.actuators (λ id. refl) s)

  pub damping-Kept : (r : Robot F) → Kept (HasCommand cmd_mit_control) r (send_damping_all env r).1
  unfolding send_damping_all Steady
  damping-Kept r =
      let ids = sorted (keys r.actuators) in
      Kept-bind _
        (record_output_command env Source.damping (damping_targets env.velocity_damping_kd ids))
        (λ _. send_dampings env ids) (Kept-record _ env _ _) (λ _. dampings-Steady ids) r

  pub policy-Kept :
      (cmd : ControlCommand) (r : Robot F)
      → Kept (HasCommand cmd_mit_control) r (send_policy_command env cmd r).1
  unfolding send_policy_command Steady
  policy-Kept cmd =
      Kept-bind _ (send_targets env _ []) (record_output_command env Source.policy)
        (targets-Steady _ []) (λ targets. Kept-record _ env Source.policy targets)

  zero_set_after :
      (offsets : Offsets) (s : Robot F)
      → Kept
          (HasCommand cmd_mit_set_zero)
          s
          ((record_output_command env Source.zero_set []
              >> send_zeros env offsets (zero_set_ids offsets s.actuators))
            s).1
  unfolding Steady
  zero_set_after offsets s =
      Kept-bind _ (record_output_command env Source.zero_set [])
        (λ _. send_zeros env offsets (zero_set_ids offsets s.actuators)) (Kept-record _ env _ _)
        (λ _. zeros-Steady offsets (zero_set_ids offsets s.actuators)) s

  pub zero_set-Kept :
      (op : Option OperatorCommand) (r : Robot F)
      → Kept (HasCommand cmd_mit_set_zero) r (send_zero_set_all env op r).1
  unfolding send_zero_set_all
  zero_set-Kept op =
      Kept-bind _ (lift (zero_set_offsets_by_can_id op))
        (λ offsets. get >>= λ s.
          record_output_command env Source.zero_set []
          >> send_zeros env offsets (zero_set_ids offsets s.actuators))
        (λ r. Kept-refl _ r) zero_set_after

  -- The output in each mode.
  pub output-Kept :
      (op : OperatorCommand) (cmd : ControlCommand) (mode : Mode) (r : Robot F)
      → Kept (HasCommand (mode_command mode)) r (output env op cmd mode r).1
  unfolding output
  output-Kept op cmd disabled = disable-Kept
  output-Kept op cmd enabling = enable-Kept
  output-Kept op cmd normal = policy-Kept cmd
  output-Kept op cmd damping = damping-Kept
  output-Kept op cmd zero_setting = zero_set-Kept (some op)
  output-Kept op cmd estop = disable-Kept
