-- ===== src/Hal/Frame.antt =====
-- hal/can_bus/frame.py and hal/can_bus/bus.py: CAN frames and their classic SocketCAN layout.
use sparq_control.Common.{ℕ, List, length}

-- `CANFrame`; the data is a byte string.
pub record CanFrame : Type 0 where
  pub can_id : ℕ
  pub payload : List ℕ

-- `dlc`
unfoldable pub dlc : CanFrame → ℕ
dlc f = length f.payload

-- `CAN_SFF_MASK`: an 11-bit identifier.
abbrev pub can_sff_mask : ℕ
can_sff_mask = 0x7FF
