-- ===== src/Dashboard/Decode.antt =====
-- can_decode.py and socketcan_io.py of robot_controller/subprocesses/dashboard/backend: what the
-- dashboard reads from CAN frames, over the float operations that are a parameter.
pub mod Agreement
use sparq_control.Common.{
  ℕ, ◌+◌, ◌*◌, ◌/◌, ◌%◌, ◌^◌, Bool, true, false, not, ◌&&◌, ◌||◌, List, [], ◌∷◌, ℤ, pos, to_i8,
  to_i16, u16_le, length, get_or, take, ltb, ◌==◌, if◌then◌else◌,
}
use sparq_control.Common.Floats.{Floats, divide}
use sparq_control.Common.Result.{Result, ok, err, ◌>>=◌, ◌>>◌, raise_if, value_error, struct_error}
use sparq_control.Hal.Imu.{Vec3, Quat}

abbrev pub spg_cmd_mit_control : ℕ
spg_cmd_mit_control = 0xC0

abbrev pub spg_cmd_mit_enter : ℕ
spg_cmd_mit_enter = 0xC1

abbrev pub spg_cmd_mit_exit : ℕ
spg_cmd_mit_exit = 0xC2

abbrev pub spg_cmd_mit_set_zero : ℕ
spg_cmd_mit_set_zero = 0xC3

abbrev pub spg_cmd_clear_error : ℕ
spg_cmd_clear_error = 0x9B

-- `ParsedFrame`
pub record ParsedFrame : Type 0 where
  pub can_id : ℕ
  pub dlc : ℕ
  pub payload : List ℕ
  pub is_eff : Bool
  pub is_rtr : Bool
  pub is_err : Bool

-- The bit of a flag in a raw id.
abbrev pub has_bit : ℕ → ℕ → Bool
has_bit raw k = raw / 2 ^ k % 2 == 1

-- `struct.unpack("=IB3x8s", frame_bytes)` of sixteen bytes, least significant first.
abbrev pub raw_id_of : List ℕ → ℕ
raw_id_of (a ∷ b ∷ c ∷ d ∷ rest) = a + 256 * b + 65_536 * c + 16_777_216 * d
raw_id_of _ = 0

abbrev pub data_of : List ℕ → List ℕ
data_of (a ∷ b ∷ c ∷ d ∷ n ∷ p ∷ q ∷ r ∷ payload) = payload
data_of _ = []

-- `parse_can_frame`
unfoldable pub parse_can_frame : List ℕ → Result ParsedFrame
parse_can_frame frame_bytes =
    let raw = raw_id_of frame_bytes in
    let dlc = get_or frame_bytes 4 0 in
    if not (length frame_bytes == 16)
    then err struct_error
    else if ltb 8 dlc
    then err value_error
    else ok (record {
      can_id = if has_bit raw 31 then raw % 2 ^ 29 else raw % 2 ^ 11;
      dlc = dlc;
      payload = take dlc (data_of frame_bytes);
      is_eff = has_bit raw 31;
      is_rtr = has_bit raw 30;
      is_err = has_bit raw 29;
    })

-- `struct.unpack("<h", data[lo : hi + 1])`
abbrev pub i16 : List ℕ → ℕ → ℕ → ℤ
i16 payload lo hi = to_i16 (u16_le (get_or payload lo 0) (get_or payload hi 0))

-- `spg_opcode_name`
pub data Kind : Type 0 where
  never empty mit_enter_sent mit_exit_sent mit_set_zero_sent : Kind
  mit_status mit_enter_ack mit_exit_ack mit_set_zero_ack clear_error_ack : Kind
  op : ℕ → Kind

unfoldable pub spg_opcode_name : ℕ → Kind
spg_opcode_name opcode =
    if opcode == spg_cmd_mit_control
    then mit_status
    else if opcode == spg_cmd_mit_enter
    then mit_enter_ack
    else if opcode == spg_cmd_mit_exit
    then mit_exit_ack
    else if opcode == spg_cmd_mit_set_zero
    then mit_set_zero_ack
    else if opcode == spg_cmd_clear_error
    then clear_error_ack
    else op opcode

module _ (fl : Floats) where
  open fl use {F, of_int, lit, add, sub, mul, div, neg, sqrt, pi, lt, is_finite}

  -- `normalize_quat_xyzw`
  unfoldable pub normalize_quat_xyzw : Quat F → Quat F
  normalize_quat_xyzw q =
      let n = sqrt (add (add (add (mul q.x q.x) (mul q.y q.y)) (mul q.z q.z)) (mul q.w q.w)) in
      if lt n (lit 1 12) || not (is_finite n)
      then record { x = lit 0 0; y = lit 0 0; z = lit 0 0; w = lit 1 0 }
      else record { x = div q.x n; y = div q.y n; z = div q.z n; w = div q.w n }

  -- `projected_gravity_from_xyzw`
  unfoldable pub projected_gravity_from_xyzw : Quat F → Vec3 F
  projected_gravity_from_xyzw q =
      let vx = lit 0 0 in
      let vy = lit 0 0 in
      let vz = neg (lit 1 0) in
      let tx = mul (lit 2 0) (sub (mul q.y vz) (mul q.z vy)) in
      let ty = mul (lit 2 0) (sub (mul q.z vx) (mul q.x vz)) in
      let tz = mul (lit 2 0) (sub (mul q.x vy) (mul q.y vx)) in
      let vpx = add (sub vx (mul q.w tx)) (sub (mul q.y tz) (mul q.z ty)) in
      let vpy = add (sub vy (mul q.w ty)) (sub (mul q.z tx) (mul q.x tz)) in
      let vpz = add (sub vz (mul q.w tz)) (sub (mul q.x ty) (mul q.y tx)) in
      record { x = vpy; y = vpx; z = vpz }

  -- `decode_e2box_quat`: the quaternion and the gravity.
  unfoldable pub decode_e2box_quat : List ℕ → F → Bool → Result (Quat F × Vec3 F)
  unfolding normalize_quat_xyzw projected_gravity_from_xyzw
  decode_e2box_quat payload quat_scale normalize = do
    raise_if (not (length payload == 8)) value_error
    qz ← divide fl (of_int (i16 payload 0 1)) quat_scale
    qy ← divide fl (of_int (i16 payload 2 3)) quat_scale
    qx ← divide fl (of_int (i16 payload 4 5)) quat_scale
    qw ← divide fl (of_int (i16 payload 6 7)) quat_scale
    let q : Quat F = record { x = neg qx; y = qy; z = qz; w = qw }
    let quat = if normalize then normalize_quat_xyzw q else q
    ok (quat, projected_gravity_from_xyzw quat)

  -- `(raw / gyro_scale) * math.pi / 180.0`
  abbrev pub gyro_rate : ℤ → F → Result F
  gyro_rate raw gyro_scale = do
    v ← divide fl (of_int raw) gyro_scale
    ok (div (mul v pi) (lit 180 0))

  -- `decode_e2box_gyro`
  unfoldable pub decode_e2box_gyro : List ℕ → F → Result (Vec3 F)
  decode_e2box_gyro payload gyro_scale = do
    raise_if (not (length payload == 8)) value_error
    gx ← gyro_rate (i16 payload 0 1) gyro_scale
    gy ← gyro_rate (i16 payload 2 3) gyro_scale
    gz ← gyro_rate (i16 payload 4 5) gyro_scale
    ok (record { x = gy; y = gx; z = gz })

  -- The dict of `decode_spg_status`.
  pub record SpgStatus : Type 0 where
    pub temperature_c : ℤ
    pub iq_count : ℤ
    pub iq_a_approx : F
    pub speed_dps : ℤ
    pub position_rad : F

  -- `decode_spg_status`
  unfoldable pub decode_spg_status : List ℕ → F → F → F → Result SpgStatus
  decode_spg_status payload feedback_position_max_rad iq_full_scale_count iq_full_scale_current_a =
      do
        raise_if (not (length payload == 8)) value_error
        iq ← divide fl (of_int (i16 payload 2 3)) iq_full_scale_count
        ok (record {
          temperature_c = to_i8 (get_or payload 1 0);
          iq_count = i16 payload 2 3;
          iq_a_approx = mul iq iq_full_scale_current_a;
          speed_dps = i16 payload 4 5;
          position_rad =
              mul (div (of_int (i16 payload 6 7)) (of_int (pos 32767))) feedback_position_max_rad;
        })
