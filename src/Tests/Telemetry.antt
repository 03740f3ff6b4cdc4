-- ===== src/Tests/Telemetry.antt =====
-- Tests of the modules for the telemetry.
use sparq_control.Common.{ℕ, true, false, none, some, List, [], ◌∷◌, refl, arith, ℤ, pos}
use sparq_control.Control.StateMachine.{normal}
use sparq_control.Telemetry.Snapshot.{ActuatorSnapshot, RobotSnapshot, Source}
use sparq_control.Telemetry.Publisher.{Publisher}
use sparq_control.Telemetry.RateLimit.{Call, Spaced, writes, publish-Spaced}
use sparq_control.Tests.Numbers.{integers}

abbrev some_snapshot : ActuatorSnapshot ℤ
some_snapshot = record {
  can_id = 0x101;
  position_rad = some (pos 4);
  velocity_rad_s = none;
  torque_nm = none;
  current_a = none;
  temperature_c = some (pos 30);
  fault_code = some 3;
  is_enabled = some true;
  last_feedback_t = 12;
  age = some 2;
  online = true;
  stale = false;
}

abbrev robot_snapshot : RobotSnapshot ℤ
robot_snapshot = record {
  mode = normal;
  timestamp_monotonic = 14;
  timestamp_unix = 1014;
  actuators = some_snapshot ∷ [];
  imu = record {
    quat_xyzw = none;
    projected_gravity_b = none;
    angular_velocity_rad_s = none;
    last_quat_t = 0;
    last_gyro_t = 0;
    quat_online = false;
    gyro_online = false;
    quat_stale = true;
    gyro_stale = true;
  };
  command_output = record { source = Source.policy; timestamp_monotonic = 13; targets = [] };
}

abbrev some_publisher : Publisher ℤ
some_publisher = record { period = 10; last_publish_t = 0; segment = none }

abbrev call_at : ℕ → Call integers
call_at t = record { snapshot = robot_snapshot; force = false; now = t; ns = t }

abbrev some_calls : List (Call integers)
some_calls = call_at 12 ∷ call_at 15 ∷ call_at 23 ∷ []

publish-Spaced_example : Spaced integers 10 0 (writes integers some_publisher some_calls)
publish-Spaced_example =
    publish-Spaced integers some_publisher 0 some_calls (refl, (refl, (refl, tt))) tt
      (omega arith, omega arith, (omega arith, omega arith, (omega arith, omega arith, tt)))
