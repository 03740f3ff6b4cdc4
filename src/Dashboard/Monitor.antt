-- ===== src/Dashboard/Monitor.antt =====
-- state.py of robot_controller/subprocesses/dashboard/backend: what the dashboard keeps of the CAN bus.
-- Times are in nanoseconds, and a time 0 says that nothing was seen. A dict is the list of its entries
-- in the order of insertion, and a key "can_..." of a node is its id.
pub mod Update
use Prim.Native.String.{String}
use sparq_control.Common.{
  ℕ, ◌+◌, Bool, true, false, List, [], ◌∷◌, ◌++◌, Option, none, some, ℤ, pos, ltb, length, ◌==◌,
  map, if◌then◌else◌, sorted_by,
}
use sparq_control.Common.Floats.{Floats}
use sparq_control.Hal.Imu.{Vec3, Quat}
use sparq_control.Dashboard.BusLoad.{Window, rx, tx, estimate_classical_can_bits, add as add_event}
use sparq_control.Dashboard.Decode.{ParsedFrame, Kind, never}

-- `RawFrameState`
pub record RawFrameState : Type 0 where
  pub can_id : ℕ
  pub count : ℕ
  pub last_t : ℕ
  pub last_dlc : ℕ
  pub last_data : List ℕ

pub data NodeKey : Type 0 where
  imu_req imu_quat imu_gyro : NodeKey
  can_node : ℕ → NodeKey

pub data NodeName : Type 0 where
  named : String → NodeName
  -- `f"CAN {can_id:03X}"`
  by_id : ℕ → NodeName

pub data Role : Type 0 where
  imu_role actuator_role raw_role : Role

-- `NodeState`
pub record NodeState : Type 0 where
  pub key : NodeKey
  pub name : NodeName
  pub can_id : ℕ
  pub role : Role
  pub timeout : ℕ
  pub heartbeat_window : ℕ
  pub rx_count : ℕ
  pub last_t : ℕ
  pub last_data : List ℕ
  pub timestamps : List ℕ

-- The loop of `NodeState.prune`.
unfoldable pub drop_stale : ℕ → ℕ → List ℕ → List ℕ
drop_stale window now [] = []
drop_stale window now (t ∷ ts) =
    let rest = drop_stale window now ts in if ltb (t + window) now then rest else t ∷ ts

-- `NodeState.prune`
unfoldable pub prune : NodeState → ℕ → NodeState
unfolding drop_stale
prune n now = record n { timestamps = drop_stale n.heartbeat_window now n.timestamps }

-- `NodeState.mark_rx`
unfoldable pub mark_node : NodeState → ℕ → List ℕ → NodeState
unfolding prune
mark_node n now payload =
    prune
      (record n {
        rx_count = n.rx_count + 1;
        last_t = now;
        last_data = payload;
        timestamps = n.timestamps ++ now ∷ [];
      })
      now

-- `CanChannelState`, without the texts of its interface.
pub record CanChannelState : Type 0 where
  pub stuff_hundredths : ℕ
  pub total_rx : ℕ
  pub total_tx : ℕ
  pub bus_load : Window

-- `CanChannelState.mark_rx`
unfoldable pub mark_channel_rx : CanChannelState → ParsedFrame → ℕ → CanChannelState
unfolding estimate_classical_can_bits add_event
mark_channel_rx c frame now = record c {
  total_rx = c.total_rx + 1;
  bus_load =
      add_event c.bus_load now
        (pos (
          estimate_classical_can_bits (pos frame.dlc) frame.is_eff frame.is_rtr c.stuff_hundredths
            true))
        rx;
}

-- `CanChannelState.mark_tx`
unfoldable pub mark_channel_tx : CanChannelState → List ℕ → ℕ → CanChannelState
unfolding estimate_classical_can_bits add_event
mark_channel_tx c payload now = record c {
  total_tx = c.total_tx + 1;
  bus_load =
      add_event c.bus_load now
        (pos
          (estimate_classical_can_bits (pos (length payload)) false false c.stuff_hundredths true))
        tx;
}

-- The key of an entry of a dict.
abbrev pub same_key : NodeKey → NodeKey → Bool
same_key imu_req imu_req = true
same_key imu_quat imu_quat = true
same_key imu_gyro imu_gyro = true
same_key (can_node a) (can_node b) = a == b
same_key _ _ = false

module _ (F : Type 0) where
  -- `E2BoxState`
  pub record E2BoxState : Type 0 where
    pub req_count : ℕ
    pub quat_count : ℕ
    pub gyro_count : ℕ
    pub quat_last_t : ℕ
    pub gyro_last_t : ℕ
    pub quat_xyzw : Quat F
    pub projected_gravity_b : Vec3 F
    pub angular_velocity_rad_s : Vec3 F

  -- `SPGMotorState`
  pub record SpgMotorState : Type 0 where
    pub can_id : ℕ
    pub name : String
    pub rx_count : ℕ
    pub last_t : ℕ
    pub last_kind : Kind
    pub enabled_hint : Option Bool
    pub temperature_c : Option ℤ
    pub iq_a_approx : Option F
    pub speed_dps : Option ℤ
    pub position_rad : Option F
    pub zero_offset_count : Option ℤ
    pub raw_data : List ℕ

  abbrev pub blank_motor : ℕ → String → SpgMotorState
  blank_motor can_id name = record {
    can_id = can_id;
    name = name;
    rx_count = 0;
    last_t = 0;
    last_kind = never;
    enabled_hint = none;
    temperature_c = none;
    iq_a_approx = none;
    speed_dps = none;
    position_rad = none;
    zero_offset_count = none;
    raw_data = [];
  }

  -- `MonitorState`, the settings first. An actuator's configuration is its id and its name.
  pub record MonitorState : Type 0 where
    pub heartbeat_window : ℕ
    pub node_timeout : ℕ
    pub feedback_position_max_rad : F
    pub iq_full_scale_count : F
    pub iq_full_scale_current_a : F
    pub imu_request_id : ℕ
    pub imu_quat_id : ℕ
    pub imu_gyro_id : ℕ
    pub imu_quat_scale : F
    pub imu_gyro_scale : F
    pub imu_normalize_quat : Bool
    pub actuator_configs : List (ℕ × String)
    pub can_channels : List CanChannelState
    pub tx_enabled : Bool
    pub allow_actuator_commands : Bool
    pub mit_poll_can_ids : List ℕ
    pub raw_frames : List RawFrameState
    pub nodes : List NodeState
    pub imu : E2BoxState
    pub motors : List SpgMotorState

  -- `_normalize_actuator_configs`
  unfoldable pub normalize_actuator_configs : MonitorState → MonitorState
  unfolding sorted_by
  normalize_actuator_configs m = record m {
    actuator_configs = sorted_by (λ c. pos c.0) m.actuator_configs;
  }

  -- The loop of `actuator_config_for_can_id`.
  unfoldable pub config_of : ℕ → List (ℕ × String) → Option (ℕ × String)
  config_of can_id [] = none
  config_of can_id ((k, name) ∷ rest) =
      if k == can_id then some (k, name) else config_of can_id rest

  -- `if key not in nodes: nodes[key] = node`
  unfoldable pub add_node : NodeState → List NodeState → List NodeState
  add_node node [] = node ∷ []
  add_node node (n ∷ ns) = if same_key n.key node.key then n ∷ ns else n ∷ add_node node ns

  -- `motors.setdefault(motor.can_id, motor)`
  unfoldable pub add_motor : SpgMotorState → List SpgMotorState → List SpgMotorState
  add_motor motor [] = motor ∷ []
  add_motor motor (k ∷ ks) = if k.can_id == motor.can_id then k ∷ ks else k ∷ add_motor motor ks

  -- The node of `_ensure_node`.
  abbrev pub new_node : MonitorState → NodeKey → NodeName → ℕ → Role → NodeState
  new_node m key name can_id role = record {
    key = key;
    name = name;
    can_id = can_id;
    role = role;
    timeout = m.node_timeout;
    heartbeat_window = m.heartbeat_window;
    rx_count = 0;
    last_t = 0;
    last_data = [];
    timestamps = [];
  }

  -- `_ensure_node`
  unfoldable pub ensure_node : NodeKey → NodeName → ℕ → Role → MonitorState → MonitorState
  unfolding add_node
  ensure_node key name can_id role m = record m {
    nodes = add_node (new_node m key name can_id role) m.nodes;
  }

  -- The loop of `ensure_known_nodes`.
  unfoldable pub ensure_actuators : List (ℕ × String) → MonitorState → MonitorState
  unfolding ensure_node add_motor
  ensure_actuators [] m = m
  ensure_actuators ((can_id, name) ∷ rest) m =
      let m' = ensure_node (can_node can_id) (named name) can_id actuator_role m in
      ensure_actuators rest (record m' { motors = add_motor (blank_motor can_id name) m'.motors })

  -- `ensure_known_nodes`
  unfoldable pub ensure_known_nodes : MonitorState → MonitorState
  unfolding ensure_node ensure_actuators
  ensure_known_nodes m = ensure_actuators m.actuator_configs (
      ensure_node imu_gyro (named "E2Box gyro") m.imu_gyro_id imu_role (
        ensure_node imu_quat (named "E2Box quaternion") m.imu_quat_id imu_role
          (ensure_node imu_req (named "E2Box command") m.imu_request_id imu_role m)))
