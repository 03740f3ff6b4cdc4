-- ===== src/Dashboard/Decode/Agreement.antt =====
-- can_decode.py of the dashboard's backend against the decoders of the controller.
use sparq_control.Common.{
  ℕ, true, false, List, Option, none, some, ◌==◌, length, get_or, if◌then◌else◌, ◌≡◌, refl,
  Bool-cases, inl, inr,
}
use sparq_control.Common.Floats.{Floats}
use sparq_control.Common.Result.{Result, ok, ◌>>=◌}
use sparq_control.Hal.Imu.{Vec3, Quat, Pose}
use sparq_control.Hardware.E2box
use sparq_control.Hardware.Spg
use sparq_control.Hal.Actuator.{ActuatorState}
use sparq_control.Dashboard.Decode.{
  i16, normalize_quat_xyzw, projected_gravity_from_xyzw, decode_e2box_quat, decode_e2box_gyro,
  decode_spg_status,
}

module _ (fl : Floats) where
  open fl use {F, sqrt, add, mul}

  -- What a pose says of the orientation, and of the turning.
  abbrev pub orientation : Result (Pose F) → Result (Option (Quat F) × Option (Vec3 F))
  orientation r = r >>= λ p. ok (p.quat_xyzw, p.projected_gravity_b)

  abbrev pub turning : Result (Pose F) → Result (Option (Vec3 F))
  turning r = r >>= λ p. ok p.angular_velocity_rad_s

  agree_gyro :
      (c : E2box.Config fl) (payload : List ℕ) (now : ℕ)
      → turning (E2box.decode_gyro fl c payload now)
        ≡ (decode_e2box_gyro fl payload c.gyro_scale >>= λ v. ok (some v))
  unfolding E2box.decode_gyro E2box.gyro_value decode_e2box_gyro
  agree_gyro c payload now = elim (Bool-cases (length payload == 8)) [
    | inr short ↦ rw short refl
    | inl whole ↦ elim (Bool-cases (fl.is_zero c.gyro_scale)) [
      | inl zero_scale ↦ rw (whole, zero_scale) refl
      | inr other ↦ rw (whole, other) refl
    ]
  ]

  -- The quaternion of a payload, before it is normalised.
  abbrev pub read_quat : E2box.Config fl → List ℕ → Quat F
  read_quat c payload = record {
    x = fl.neg (fl.div (fl.of_int (i16 payload 4 5)) c.quat_scale);
    y = fl.div (fl.of_int (i16 payload 2 3)) c.quat_scale;
    z = fl.div (fl.of_int (i16 payload 0 1)) c.quat_scale;
    w = fl.div (fl.of_int (i16 payload 6 7)) c.quat_scale;
  }

  abbrev pub norm : Quat F → F
  norm q = sqrt (add (add (add (mul q.x q.x) (mul q.y q.y)) (mul q.z q.z)) (mul q.w q.w))

  same_normal :
      (q : Quat F)
      → fl.is_finite (norm q) ≡ true
      → normalize_quat_xyzw fl q ≡ E2box.normalize_quat_xyzw fl q
  unfolding normalize_quat_xyzw E2box.normalize_quat_xyzw
  same_normal q finite = elim (Bool-cases (fl.lt (norm q) (fl.lit 1 12))) [
    | inl small ↦ rw small refl
    | inr large ↦ rw (large, finite) refl
  ]

  same_gravity : (q : Quat F) → projected_gravity_from_xyzw fl q ≡ E2box.projected_gravity fl q
  unfolding projected_gravity_from_xyzw E2box.projected_gravity
  same_gravity q = refl

  agree_quat :
      (c : E2box.Config fl) (payload : List ℕ) (now : ℕ)
      → fl.is_finite (norm (read_quat c payload)) ≡ true
      → orientation (E2box.decode_quat fl c payload now) ≡ (
          decode_e2box_quat fl payload c.quat_scale c.normalize_quat >>= λ q.
          ok (some q.0, some q.1))
  unfolding E2box.decode_quat decode_e2box_quat
  agree_quat c payload now finite = elim (Bool-cases (length payload == 8)) [
    | inr short ↦ rw short refl
    | inl whole ↦ elim (Bool-cases (fl.is_zero c.quat_scale)) [
      | inl zero_scale ↦ rw (whole, zero_scale) refl
      | inr other ↦ rw (whole, other, same_normal (read_quat c payload) finite, same_gravity) refl
    ]
  ]

  -- The position and the temperature of a drive's status.
  abbrev pub status_of : Result (ActuatorState F) → Result (Option F × Option F)
  status_of r = r >>= λ s. ok (s.position_rad, s.temperature_c)

  agree_status :
      (c : Spg.Decode.Config fl) (payload : List ℕ) (now : ℕ) (full_count full_current : F)
      → (get_or payload 0 0 == 0xC0) ≡ true
      → fl.is_zero full_count ≡ false
      → status_of (Spg.Decode.decode_mit_status fl c payload now) ≡ (
          decode_spg_status fl payload c.feedback_position_max full_count full_current >>= λ s. ok (
            (if c.expose_single_turn_position then some s.position_rad else none),
            some (fl.of_int s.temperature_c),
          ))
  unfolding Spg.Decode.decode_mit_status Spg.Decode.parse_mit_status decode_spg_status
  agree_status c payload now n a command scale = elim (Bool-cases (length payload == 8)) [
    | inr short ↦ rw short refl
    | inl whole ↦ rw (whole, command, scale) refl
  ]

  -- The dashboard and the controller read the same from the same bytes of a frame, or both raise: the
  -- rates of the gyro, the orientation and the gravity of a quaternion whose norm is finite, and the
  -- position and the temperature of a status of a drive, where the full-scale count is not 0.
  pub dashboard_reads_same :
      (imu : E2box.Config fl) (drive : Spg.Decode.Config fl) (gyro quat status : List ℕ) (now : ℕ)
      (full_count full_current : F)
      → fl.is_finite (norm (read_quat imu quat)) ≡ true
      → (get_or status 0 0 == 0xC0) ≡ true
      → fl.is_zero full_count ≡ false
      → (turning (E2box.decode_gyro fl imu gyro now)
          ≡ (decode_e2box_gyro fl gyro imu.gyro_scale >>= λ v. ok (some v)))
        × (orientation (E2box.decode_quat fl imu quat now) ≡ (
            decode_e2box_quat fl quat imu.quat_scale imu.normalize_quat >>= λ q.
            ok (some q.0, some q.1)))
        × (status_of (Spg.Decode.decode_mit_status fl drive status now) ≡ (
            decode_spg_status fl status drive.feedback_position_max full_count full_current >>= λ s.
            ok (
              (if drive.expose_single_turn_position then some s.position_rad else none),
              some (fl.of_int s.temperature_c),
            )))
  dashboard_reads_same imu drive gyro quat status now n a finite command scale = (
    agree_gyro imu gyro now,
    agree_quat imu quat now finite,
    agree_status drive status now n a command scale,
  )
