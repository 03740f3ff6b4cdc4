-- ===== src/Telemetry/Publisher.antt =====
-- robot_controller/telemetry/shm_state_publisher.py: the rate limit and the conversion of a
-- snapshot. The values of command targets are finite, so that `_float_or_zero` keeps them.
use sparq_control.Common.{
  ℕ, ◌+◌, ◌-◌, ◌%◌, ◌^◌, Bool, true, false, not, ◌&&◌, Option, none, some, List, [], ◌∷◌, ltb,
  if◌then◌else◌, ℤ, pos, negsuc, take, length, min,
}
use sparq_control.Common.Floats.{Floats}
use sparq_control.Hal.Imu.{Quat, Vec3}
use sparq_control.Control.StateMachine.{mode_value}
use sparq_control.Telemetry.Snapshot.{
  ActuatorSnapshot, ImuSnapshot, CommandOutput, RobotSnapshot, source_value,
}
use sparq_control.Shm.RobotState.{
  ActuatorStateC, ImuStateC, CommandOutputStateC, RobotStateC, max_robot_state_actuators,
}

-- The value of an int32 field that an integer is stored in.
abbrev pub to_i32 : ℕ → ℤ
to_i32 n = let m = n % 2 ^ 32 in if ltb m (2 ^ 31) then pos m else negsuc (2 ^ 32 - 1 - m)

abbrev pub flag_value : Bool → ℤ
flag_value true = pos 1
flag_value false = pos 0

abbrev pub get_or_else {ℓ} : {A : Type ℓ} → Option A → A → A
get_or_else none d = d
get_or_else (some x) d = x

-- `ShmStatePublisher`: its period, and what it has written to the segment.
pub record Publisher (F : Type 0) : Type 0 where
  pub period : ℕ
  pub last_publish_t : ℕ
  pub segment : Option (RobotStateC F)

module _ (fl : Floats) where
  open fl use {F, of_int, div, neg, single, is_finite}

  -- `_float_or_zero`, stored in a `c_float`.
  unfoldable pub float_or_zero : Option F → F
  float_or_zero none = single (of_int (pos 0))
  float_or_zero (some x) = if is_finite x then single x else single (of_int (pos 0))

  abbrev pub single_quat : Quat F → Quat F
  single_quat q = record { x = single q.x; y = single q.y; z = single q.z; w = single q.w }

  abbrev pub single_vec : Vec3 F → Vec3 F
  single_vec v = record { x = single v.x; y = single v.y; z = single v.z }

  abbrev zero_vec : Vec3 F
  zero_vec = record { x = of_int (pos 0); y = of_int (pos 0); z = of_int (pos 0) }

  -- The IMU's part of `snapshot_to_cstruct`.
  unfoldable pub imu_to_cstruct : ImuSnapshot F → ImuStateC F
  imu_to_cstruct imu = record {
    quat_xyzw = single_quat (
        get_or_else imu.quat_xyzw (record {
          x = of_int (pos 0);
          y = of_int (pos 0);
          z = of_int (pos 0);
          w = of_int (pos 1);
        }));
    projected_gravity_b =
        single_vec
          (get_or_else imu.projected_gravity_b (record zero_vec { z = neg (of_int (pos 1)) }));
    angular_velocity_rad_s = single_vec (get_or_else imu.angular_velocity_rad_s zero_vec);
    last_quat_t = imu.last_quat_t;
    last_gyro_t = imu.last_gyro_t;
    quat_online = imu.quat_online;
    gyro_online = imu.gyro_online;
    quat_stale = imu.quat_stale;
    gyro_stale = imu.gyro_stale;
  }

  -- Nanoseconds in seconds.
  abbrev pub seconds : ℕ → F
  seconds t = div (of_int (pos t)) (of_int (pos 1_000_000_000))

  -- The loop's body for an actuator.
  unfoldable pub actuator_to_cstruct : ActuatorSnapshot F → ActuatorStateC F
  unfolding float_or_zero
  actuator_to_cstruct item = record {
    can_id = item.can_id % 2 ^ 32;
    position_rad = float_or_zero item.position_rad;
    velocity_rad_s = float_or_zero item.velocity_rad_s;
    torque_nm = float_or_zero item.torque_nm;
    current_a = float_or_zero item.current_a;
    temperature_c = float_or_zero item.temperature_c;
    fault_code = elim item.fault_code [ none ↦ negsuc 0 | some n ↦ to_i32 n ];
    is_enabled = elim item.is_enabled [ none ↦ negsuc 0 | some b ↦ flag_value b ];
    last_feedback_t = item.last_feedback_t;
    age = elim item.age [ none ↦ single (neg (of_int (pos 1))) | some t ↦ single (seconds t) ];
    online = item.online;
    stale = item.stale;
  }

  unfoldable pub actuators_to_cstructs : List (ActuatorSnapshot F) → List (ActuatorStateC F)
  unfolding actuator_to_cstruct
  actuators_to_cstructs [] = []
  actuators_to_cstructs (a ∷ rest) = actuator_to_cstruct a ∷ actuators_to_cstructs rest

  -- The command output's part of `snapshot_to_cstruct`.
  unfoldable pub output_to_cstruct : CommandOutput → CommandOutputStateC
  output_to_cstruct o = record {
    timestamp_monotonic = o.timestamp_monotonic;
    source = source_value o.source;
    target_count = min (length o.targets) max_robot_state_actuators;
    targets = take max_robot_state_actuators o.targets;
  }

  -- `snapshot_to_cstruct`, with `time.time_ns()` as the argument `ns`.
  unfoldable pub snapshot_to_cstruct : RobotSnapshot F → ℕ → RobotStateC F
  unfolding imu_to_cstruct actuators_to_cstructs output_to_cstruct
  snapshot_to_cstruct snapshot ns = record {
    timestamp_ns = ns % 2 ^ 64;
    timestamp_monotonic = snapshot.timestamp_monotonic;
    timestamp_unix = snapshot.timestamp_unix;
    controller_mode = mode_value snapshot.mode;
    actuator_count = min (length snapshot.actuators) max_robot_state_actuators;
    imu = imu_to_cstruct snapshot.imu;
    actuators = actuators_to_cstructs (take max_robot_state_actuators snapshot.actuators);
    command_output = output_to_cstruct snapshot.command_output;
  }

  -- `ShmStatePublisher.publish`, at the clock reading `now`.
  unfoldable pub publish : Publisher F → RobotSnapshot F → Bool → ℕ → ℕ → Publisher F
  unfolding snapshot_to_cstruct
  publish p snapshot force now ns =
      if not force && ltb now (p.last_publish_t + p.period)
      then p
      else record p { last_publish_t = now; segment = some (snapshot_to_cstruct snapshot ns) }
