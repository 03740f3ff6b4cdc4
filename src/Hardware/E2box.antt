-- ===== src/Hardware/E2box.antt =====
-- qhrr0_hw/imu/e2box_protocol.py: the request frames and the decoding of quaternion and gyro
-- payloads, over the float operations that are a parameter.
pub mod Decoding
use sparq_control.Common.{
  ℕ, ◌%◌, Bool, true, false, not, Option, none, some, List, [], ◌∷◌, ℤ, pos, negsuc, to_i16, u16_le,
  length, get_or, ◌==◌, if◌then◌else◌,
}
use sparq_control.Common.Floats.{Floats, divide}
use sparq_control.Common.Result.{Result, ok, err, ◌>>=◌, ◌>>◌, value_error, raise_if}
use sparq_control.Hal.Frame.{CanFrame}
use sparq_control.Hal.Imu.{
  Vec3, Quat, Pose, blank_pose, Protocol, base_is_quat_frame, base_is_gyro_frame,
}

-- `struct.unpack("<h", data[2 * i : 2 * i + 2])`
abbrev pub i16_at : List ℕ → ℕ → ℕ → ℤ
i16_at payload lo hi = to_i16 (u16_le (get_or payload lo 0) (get_or payload hi 0))

module _ (fl : Floats) where
  open fl use {F, of_int, lit, add, sub, mul, div, neg, sqrt, pi, lt}

  -- `E2BoxIMUProtocol`, by its constructor's arguments.
  pub record Config : Type 0 where
    pub request_id : ℕ
    pub quat_id : ℕ
    pub gyro_id : ℕ
    pub cmd_get_quat : ℕ
    pub cmd_get_gyro : ℕ
    pub cmd_get_all : ℕ
    pub quat_scale : F
    pub gyro_scale : F
    pub normalize_quat : Bool

  -- `bytes([cmd])` of a command that fits a byte, in a frame to the device.
  unfoldable pub request_frame : Config → ℕ → CanFrame
  request_frame c cmd = record { can_id = c.request_id; payload = cmd ∷ [] }

  -- `_normalize_quat`
  unfoldable pub normalize_quat_xyzw : Quat F → Quat F
  normalize_quat_xyzw q =
      let n = sqrt (add (add (add (mul q.x q.x) (mul q.y q.y)) (mul q.z q.z)) (mul q.w q.w)) in
      if lt n (lit 1 12)
      then record { x = lit 0 0; y = lit 0 0; z = lit 0 0; w = lit 1 0 }
      else record { x = div q.x n; y = div q.y n; z = div q.z n; w = div q.w n }

  -- `_projected_gravity_from_xyzw`
  unfoldable pub projected_gravity : Quat F → Vec3 F
  projected_gravity q =
      let vx = lit 0 0 in
      let vy = lit 0 0 in
      let vz = neg (lit 1 0) in
      let tx = mul (lit 2 0) (sub (mul q.y vz) (mul q.z vy)) in
      let ty = mul (lit 2 0) (sub (mul q.z vx) (mul q.x vz)) in
      let tz = mul (lit 2 0) (sub (mul q.x vy) (mul q.y vx)) in
      let vpx = add (sub vx (mul q.w tx)) (sub (mul q.y tz) (mul q.z ty)) in
      let vpy = add (sub vy (mul q.w ty)) (sub (mul q.z tx) (mul q.x tz)) in
      let vpz = add (sub vz (mul q.w tz)) (sub (mul q.x ty) (mul q.y tx)) in
      record { x = vpy; y = vpx; z = vpz }

  -- `_decode_quat`
  unfoldable pub decode_quat : Config → List ℕ → ℕ → Result (Pose F)
  unfolding normalize_quat_xyzw projected_gravity
  decode_quat c payload now = do
    raise_if (not (length payload == 8)) value_error
    qz ← divide fl (of_int (i16_at payload 0 1)) c.quat_scale
    qy ← divide fl (of_int (i16_at payload 2 3)) c.quat_scale
    qx ← divide fl (of_int (i16_at payload 4 5)) c.quat_scale
    qw ← divide fl (of_int (i16_at payload 6 7)) c.quat_scale
    let q : Quat F = record { x = neg qx; y = qy; z = qz; w = qw }
    let quat = if c.normalize_quat then normalize_quat_xyzw q else q
    ok (record blank_pose {
      quat_xyzw = some quat;
      projected_gravity_b = some (projected_gravity quat);
      last_quat_t = now;
    })

  -- `(raw / self.gyro_scale) * math.pi / 180.0`
  unfoldable pub gyro_value : Config → ℤ → Result F
  gyro_value c raw = do v ← divide fl (of_int raw) c.gyro_scale; ok (div (mul v pi) (lit 180 0))

  -- `_decode_gyro`
  unfoldable pub decode_gyro : Config → List ℕ → ℕ → Result (Pose F)
  unfolding gyro_value
  decode_gyro c payload now = do
    raise_if (not (length payload == 8)) value_error
    gx ← gyro_value c (i16_at payload 0 1)
    gy ← gyro_value c (i16_at payload 2 3)
    gz ← gyro_value c (i16_at payload 4 5)
    ok (record blank_pose {
      angular_velocity_rad_s = some (record { x = gy; y = gx; z = gz });
      last_gyro_t = now;
    })

  -- `decode_frame`
  unfoldable pub decode_frame : Config → CanFrame → ℕ → Result (Option (Pose F))
  unfolding decode_quat decode_gyro
  decode_frame c frame now =
      if frame.can_id == c.quat_id
      then (decode_quat c frame.payload now >>= λ p. ok (some p))
      else if frame.can_id == c.gyro_id
      then (decode_gyro c frame.payload now >>= λ p. ok (some p))
      else ok none

  -- The protocol that the IMU driver is given. The class overrides neither frame test.
  unfoldable pub protocol : Config → Protocol F
  unfolding request_frame decode_frame
  protocol c = record {
    rx_can_ids = c.quat_id ∷ c.gyro_id ∷ [];
    request_quat = request_frame c c.cmd_get_quat;
    request_gyro = request_frame c c.cmd_get_gyro;
    request_all = request_frame c c.cmd_get_all;
    decode_frame = decode_frame c;
    is_quat_frame = base_is_quat_frame;
    is_gyro_frame = base_is_gyro_frame;
  }
