-- ===== src/Dashboard/Monitor/Update.antt =====
-- state.py of robot_controller/subprocesses/dashboard/backend: `mark_rx` and `mark_tx`.
use sparq_control.Common.{
  ℕ, zero, suc, ◌+◌, Bool, true, false, ◌&&◌, ◌||◌, List, [], ◌∷◌, Option, none, some, ltb, leb,
  length, get_or, take, ◌==◌, if◌then◌else◌,
}
use sparq_control.Common.Floats.{Floats}
use sparq_control.Common.Result.{Result, ok, err, Exn, value_error}
use sparq_control.Hal.Imu.{Vec3, Quat}
use sparq_control.Dashboard.Decode.{
  ParsedFrame, empty, mit_enter_sent, mit_exit_sent, mit_set_zero_sent, spg_cmd_mit_control,
  spg_cmd_mit_enter, spg_cmd_mit_exit, spg_cmd_mit_set_zero, spg_cmd_clear_error, spg_opcode_name,
  i16, decode_e2box_quat, decode_e2box_gyro, decode_spg_status, SpgStatus,
}
use sparq_control.Dashboard.Monitor.{
  RawFrameState, NodeState, can_node, by_id, raw_role, mark_node, CanChannelState, mark_channel_rx,
  mark_channel_tx, SpgMotorState, blank_motor, MonitorState, config_of, add_motor, ensure_node,
}

-- `_update_raw_frame`, on the dict of raw frames.
unfoldable pub update_raw_frame : ParsedFrame → ℕ → List RawFrameState → List RawFrameState
update_raw_frame frame now [] =
    record {
      can_id = frame.can_id;
      count = 1;
      last_t = now;
      last_dlc = frame.dlc;
      last_data = frame.payload;
    }
    ∷ []
update_raw_frame frame now (r ∷ rs) =
    if r.can_id == frame.can_id
    then record r {
      count = r.count + 1;
      last_t = now;
      last_dlc = frame.dlc;
      last_data = frame.payload;
    }
      ∷ rs
    else r ∷ update_raw_frame frame now rs

-- Whether a node has this id.
unfoldable pub has_node : ℕ → List NodeState → Bool
has_node can_id [] = false
has_node can_id (n ∷ ns) = n.can_id == can_id || has_node can_id ns

-- The first node with this id is marked.
unfoldable pub mark_first : ℕ → ℕ → List ℕ → List NodeState → List NodeState
unfolding mark_node
mark_first can_id now payload [] = []
mark_first can_id now payload (n ∷ ns) =
    if n.can_id == can_id
    then mark_node n now payload ∷ ns
    else n ∷ mark_first can_id now payload ns

module _ (fl : Floats) where
  open fl use {F}

  -- `_node_for_can_id(...).mark_rx(...)`
  unfoldable pub mark_node_for : ParsedFrame → ℕ → MonitorState F → MonitorState F
  unfolding has_node mark_first ensure_node
  mark_node_for frame now m =
      let m' : MonitorState F =
        if has_node frame.can_id m.nodes
        then m
        else ensure_node F (can_node frame.can_id) (by_id frame.can_id) frame.can_id raw_role m in
      record m' { nodes = mark_first frame.can_id now frame.payload m'.nodes }

  -- A `ValueError` of a decoder is logged, and any other exception goes on.
  abbrev pub caught : Exn → Result (Unit {0})
  caught value_error = ok tt
  caught e = err e

  abbrev pub store_quat :
      ℕ → MonitorState F → Result (Quat F × Vec3 F) → Result (Unit {0}) × MonitorState F
  store_quat now m (err e) = (caught e, m)
  store_quat now m (ok (quat, gravity)) = (
    ok tt,
    record m {
      imu = record m.imu {
        quat_count = m.imu.quat_count + 1;
        quat_last_t = now;
        quat_xyzw = quat;
        projected_gravity_b = gravity;
      };
    },
  )

  abbrev pub store_gyro : ℕ → MonitorState F → Result (Vec3 F) → Result (Unit {0}) × MonitorState F
  store_gyro now m (err e) = (caught e, m)
  store_gyro now m (ok gyro) = (
    ok tt,
    record m {
      imu = record m.imu {
        gyro_count = m.imu.gyro_count + 1;
        gyro_last_t = now;
        angular_velocity_rad_s = gyro;
      };
    },
  )

  abbrev pub count_request : MonitorState F → MonitorState F
  count_request m = record m { imu = record m.imu { req_count = m.imu.req_count + 1 } }

  -- `_update_imu`; the state comes back after a raise too.
  unfoldable pub update_imu : ParsedFrame → ℕ → MonitorState F → Result (Unit {0}) × MonitorState F
  unfolding decode_e2box_quat decode_e2box_gyro
  update_imu frame now m =
      if frame.can_id == m.imu_request_id
      then (ok tt, count_request m)
      else if frame.can_id == m.imu_quat_id && frame.dlc == 8
      then store_quat now m
          (decode_e2box_quat fl frame.payload m.imu_quat_scale m.imu_normalize_quat)
      else if frame.can_id == m.imu_gyro_id && frame.dlc == 8
      then store_gyro now m (decode_e2box_gyro fl frame.payload m.imu_gyro_scale)
      else (ok tt, m)

  -- What a status of the drive changes.
  abbrev pub with_status : SpgMotorState F → SpgStatus fl → SpgMotorState F
  with_status motor s = record motor {
    temperature_c = some s.temperature_c;
    iq_a_approx = some s.iq_a_approx;
    speed_dps = some s.speed_dps;
    position_rad = some s.position_rad;
  }

  abbrev pub store_status :
      SpgMotorState F → Result (SpgStatus fl) → Result (Unit {0}) × SpgMotorState F
  store_status motor (err e) = (caught e, motor)
  store_status motor (ok s) = (ok tt, with_status motor s)

  -- The motor of `_update_motor` after a frame with an opcode.
  unfoldable pub on_opcode :
      MonitorState F → ParsedFrame → ℕ → SpgMotorState F → Result (Unit {0}) × SpgMotorState F
  unfolding decode_spg_status
  on_opcode m frame opcode motor =
      if opcode == spg_cmd_mit_control && frame.dlc == 8
      then store_status motor (
          decode_spg_status fl frame.payload m.feedback_position_max_rad m.iq_full_scale_count
            m.iq_full_scale_current_a)
      else if opcode == spg_cmd_mit_enter
      then (ok tt, record motor { enabled_hint = some true })
      else if opcode == spg_cmd_mit_exit || opcode == spg_cmd_clear_error
      then (ok tt, record motor { enabled_hint = some false })
      else if opcode == spg_cmd_mit_set_zero && frame.dlc == 8
      then (ok tt, record motor { zero_offset_count = some (i16 frame.payload 6 7) })
      else (ok tt, motor)

  -- The motor of `_update_motor` after a frame.
  unfoldable pub receive :
      MonitorState F → ParsedFrame → ℕ → SpgMotorState F → Result (Unit {0}) × SpgMotorState F
  unfolding on_opcode spg_opcode_name
  receive m frame now motor =
      let seen : SpgMotorState F = record motor {
        rx_count = motor.rx_count + 1;
        last_t = now;
        raw_data = frame.payload;
      } in
      let opcode = get_or frame.payload 0 0 in
      if ltb frame.dlc 1
      then (ok tt, record seen { last_kind = empty })
      else on_opcode m frame opcode (record seen { last_kind = spg_opcode_name opcode })

  -- The entry of an id is changed.
  unfoldable pub change_motor :
      ℕ
      → (SpgMotorState F → Result (Unit {0}) × SpgMotorState F)
      → List (SpgMotorState F)
      → Result (Unit {0}) × List (SpgMotorState F)
  change_motor can_id f [] = (ok tt, [])
  change_motor can_id f (k ∷ ks) =
      let (r, k') = f k in
      let (r', ks') = change_motor can_id f ks in
      if k.can_id == can_id then (r, k' ∷ ks) else (r', k ∷ ks')

  -- `_update_motor`
  unfoldable pub update_motor :
      ParsedFrame → ℕ → MonitorState F → Result (Unit {0}) × MonitorState F
  unfolding config_of add_motor receive change_motor
  update_motor frame now m = elim (config_of F frame.can_id m.actuator_configs) [
    | none ↦ (ok tt, m)
    | some config ↦
        let (r, motors) =
          change_motor frame.can_id (receive m frame now)
            (add_motor F (blank_motor F frame.can_id config.1) m.motors) in
        (r, record m { motors = motors })
  ]

  -- The channel that received the frame, if it is given.
  unfoldable pub mark_channel :
      Option ℕ → ParsedFrame → ℕ → List CanChannelState → List CanChannelState
  unfolding mark_channel_rx
  mark_channel none frame now cs = cs
  mark_channel (some i) frame now [] = []
  mark_channel (some zero) frame now (c ∷ cs) = mark_channel_rx c frame now ∷ cs
  mark_channel (some (suc i)) frame now (c ∷ cs) = c ∷ mark_channel (some i) frame now cs

  -- `mark_rx`; the state comes back after a raise too.
  unfoldable pub mark_rx :
      ParsedFrame → ℕ → Option ℕ → MonitorState F → Result (Unit {0}) × MonitorState F
  unfolding mark_channel update_raw_frame mark_node_for update_imu update_motor
  mark_rx frame now channel m =
      let counted : MonitorState F = record m {
        can_channels = mark_channel channel frame now m.can_channels;
        raw_frames = update_raw_frame frame now m.raw_frames;
      } in
      let (r, m') = update_imu frame now (mark_node_for frame now counted) in
      elim r [ err e ↦ (err e, m') | ok _ ↦ update_motor frame now m' ]

  -- What a sent command changes of its motor.
  unfoldable pub sent_command : List ℕ → ℕ → SpgMotorState F → SpgMotorState F
  sent_command payload now motor =
      let opcode = get_or payload 0 0 in
      let seen : SpgMotorState F = record motor { last_t = now; raw_data = take 8 payload } in
      if opcode == spg_cmd_mit_enter
      then record seen { last_kind = mit_enter_sent; enabled_hint = some true }
      else if opcode == spg_cmd_mit_exit
      then record seen { last_kind = mit_exit_sent; enabled_hint = some false }
      else if opcode == spg_cmd_mit_set_zero
      then record seen {
        last_kind = mit_set_zero_sent;
        zero_offset_count =
            if leb 8 (length payload) then some (i16 payload 6 7) else seen.zero_offset_count;
      }
      else motor

  -- `_update_motor_tx_hint`
  unfoldable pub update_motor_tx_hint : ℕ → List ℕ → ℕ → MonitorState F → MonitorState F
  unfolding config_of add_motor sent_command change_motor
  update_motor_tx_hint can_id [] now m = m
  update_motor_tx_hint can_id (b ∷ bs) now m = elim (config_of F can_id m.actuator_configs) [
    | none ↦ m
    | some config ↦ record m {
      motors =
          (change_motor can_id (λ k. (ok tt, sent_command (b ∷ bs) now k))
            (add_motor F (blank_motor F can_id config.1) m.motors)).1;
    }
  ]

  -- The primary channel is the first.
  abbrev pub mark_primary_tx : List ℕ → ℕ → List CanChannelState → List CanChannelState
  mark_primary_tx payload now [] = []
  mark_primary_tx payload now (c ∷ cs) = mark_channel_tx c payload now ∷ cs

  -- `mark_tx`
  unfoldable pub mark_tx : ℕ → List ℕ → ℕ → MonitorState F → MonitorState F
  unfolding update_motor_tx_hint mark_channel_tx
  mark_tx can_id payload now m =
      let sent : MonitorState F = record m {
        can_channels = mark_primary_tx payload now m.can_channels;
      } in
      update_motor_tx_hint can_id payload now
        (if can_id == m.imu_request_id then count_request sent else sent)
