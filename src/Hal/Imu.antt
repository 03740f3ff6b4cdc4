-- ===== src/Hal/Imu.antt =====
-- hal/hardware/can/imu: the IMU's state and the driver, which keeps the freshness of quaternion and
-- gyro apart. Times are in nanoseconds.
use sparq_control.Common.{ℕ, Bool, false, not, ◌&&◌, Option, none, some, List, elem, if◌then◌else◌}
use sparq_control.Common.Result.{Result, ok, err}
use sparq_control.Hal.Frame.{CanFrame}
use sparq_control.Hal.Freshness.{CommManager, mark_rx, mark_decode_error, update_fault_flags}

pub record Vec3 (F : Type 0) : Type 0 where
  pub x : F
  pub y : F
  pub z : F

pub record Quat (F : Type 0) : Type 0 where
  pub x : F
  pub y : F
  pub z : F
  pub w : F

-- `RobotPoseState`
pub record Pose (F : Type 0) : Type 0 where
  pub quat_xyzw : Option (Quat F)
  pub angular_velocity_rad_s : Option (Vec3 F)
  pub projected_gravity_b : Option (Vec3 F)
  pub last_quat_t : ℕ
  pub last_gyro_t : ℕ

-- `RobotPoseState()`
abbrev pub blank_pose : {F : Type 0} → Pose F
blank_pose = record {
  quat_xyzw = none;
  angular_velocity_rad_s = none;
  projected_gravity_b = none;
  last_quat_t = 0;
  last_gyro_t = 0;
}

-- What the driver asks of an `IMUProtocolBase`.
pub record Protocol (F : Type 0) : Type 0 where
  pub rx_can_ids : List ℕ
  pub request_quat : CanFrame
  pub request_gyro : CanFrame
  pub request_all : CanFrame
  pub decode_frame : CanFrame → ℕ → Result (Option (Pose F))
  pub is_quat_frame : CanFrame → Bool
  pub is_gyro_frame : CanFrame → Bool

-- `IMUProtocolBase.is_quat_frame` and `is_gyro_frame`, where a protocol does not override them.
abbrev pub base_is_quat_frame : CanFrame → Bool
base_is_quat_frame frame = false

abbrev pub base_is_gyro_frame : CanFrame → Bool
base_is_gyro_frame frame = false

-- `IMUDriver`
pub record Driver (F : Type 0) : Type 0 where
  pub state : Pose F
  pub quat_comm : CommManager
  pub gyro_comm : CommManager

module _ {F : Type 0} where
  -- The quaternion's part of `_merge_state`.
  unfoldable pub merge_quat : Driver F → Pose F → ℕ → Driver F
  merge_quat d p now = elim p.quat_xyzw [
    | none ↦ d
    | some q ↦ record d {
      state = record d.state {
        quat_xyzw = some q;
        projected_gravity_b = p.projected_gravity_b;
        last_quat_t = p.last_quat_t;
      };
      quat_comm = mark_rx d.quat_comm (some p.last_quat_t) now;
    }
  ]

  -- The gyro's part of `_merge_state`.
  unfoldable pub merge_gyro : Driver F → Pose F → ℕ → Driver F
  merge_gyro d p now = elim p.angular_velocity_rad_s [
    | none ↦ d
    | some v ↦ record d {
      state = record d.state { angular_velocity_rad_s = some v; last_gyro_t = p.last_gyro_t };
      gyro_comm = mark_rx d.gyro_comm (some p.last_gyro_t) now;
    }
  ]

  -- `_merge_state`
  unfoldable pub merge_state : Driver F → Pose F → ℕ → Driver F
  unfolding merge_quat merge_gyro
  merge_state d p now = merge_gyro (merge_quat d p now) p now

  -- `_mark_decode_error`
  unfoldable pub mark_error : Protocol F → Driver F → CanFrame → ℕ → Driver F
  mark_error pr d frame now =
      if pr.is_quat_frame frame
      then record d { quat_comm = mark_decode_error d.quat_comm now }
      else if pr.is_gyro_frame frame
      then record d { gyro_comm = mark_decode_error d.gyro_comm now }
      else if elem frame.can_id pr.rx_can_ids
      then record d {
        quat_comm = mark_decode_error d.quat_comm now;
        gyro_comm = mark_decode_error d.gyro_comm now;
      }
      else d

  -- `on_frame`
  unfoldable pub on_frame : Protocol F → Driver F → CanFrame → ℕ → Driver F
  unfolding merge_state mark_error
  on_frame pr d frame now = elim (pr.decode_frame frame now) [
    | err e ↦ mark_error pr d frame now
    | ok none ↦ d
    | ok (some p) ↦ merge_state d p now
  ]

  -- `update_fault_flags`
  unfoldable pub update_flags : Driver F → ℕ → Driver F
  update_flags d now = record d {
    quat_comm = update_fault_flags d.quat_comm now;
    gyro_comm = update_fault_flags d.gyro_comm now;
  }

  -- `is_fresh`
  unfoldable pub is_fresh : Driver F → ℕ → Driver F × Bool
  unfolding update_flags
  is_fresh d now =
      let d' = update_flags d now in
      (d', not d'.quat_comm.status.is_stale && not d'.gyro_comm.status.is_stale)
