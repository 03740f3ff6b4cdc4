-- ===== src/Can/Message.antt =====
-- The JSON objects on the CAN daemon's socket, as their values under the keys that the code reads, where
-- a missing key is `none`. A number is a natural one, as in the ids that the program sends.
use Prim.Native.String.{String}
use text.Mathlib.Text.{◌==◌ as str_eq}
use sparq_control.Common.{ℕ, Bool, true, false, List, Option, none, some}
use sparq_control.Common.Result.{Result, ok, err, ◌>>=◌, key_error}
use sparq_control.Hal.Frame.{CanFrame}
use sparq_control.Can.Hex.{hex, fromhex}

-- The key "type" is the field `kind`; a text of digits is a list of character codes.
pub record Message : Type 0 where
  pub kind : Option String
  pub role : Option String
  pub is_ok : Option Bool
  pub can_id : Option ℕ
  pub digits : Option (List ℕ)

abbrev no_keys : Message
no_keys = record { kind = none; role = none; is_ok = none; can_id = none; digits = none }

-- `{"type": "hello", "role": role}`
abbrev pub hello : String → Message
hello role = record no_keys { kind = some "hello"; role = some role }

-- `{"type": "hello_ack", "ok": True}`
abbrev pub hello_ack : Message
hello_ack = record no_keys { kind = some "hello_ack"; is_ok = some true }

-- `{"type": "tx", "can_id": ..., "data": ...}`
unfoldable pub tx_request : CanFrame → Message
unfolding hex
tx_request frame = record no_keys {
  kind = some "tx";
  can_id = some frame.can_id;
  digits = some (hex frame.payload);
}

-- `{"type": "tx_result", "ok": ok}`
abbrev pub tx_result : Bool → Message
tx_result is_ok = record no_keys { kind = some "tx_result"; is_ok = some is_ok }

-- `{"type": "rx", "can_id": ..., "data": ...}`
unfoldable pub rx_notice : CanFrame → Message
unfolding hex
rx_notice frame = record no_keys {
  kind = some "rx";
  can_id = some frame.can_id;
  digits = some (hex frame.payload);
}

-- `message.get("type") == name`
abbrev pub is_kind : String → Message → Bool
is_kind name m = elim m.kind [ none ↦ false | some s ↦ str_eq s name ]

-- `bool(message.get("ok"))`
abbrev pub says_ok : Message → Bool
says_ok m = elim m.is_ok [ none ↦ false | some b ↦ b ]

-- `message[key]`
abbrev pub required : {A : Type 0} → Option A → Result A
required none = err key_error
required (some a) = ok a

-- `CANFrame(can_id=int(message["can_id"]), data=bytes.fromhex(str(message["data"])))`
unfoldable pub frame_of : Message → Result CanFrame
unfolding fromhex
frame_of m = do
  can_id ← required m.can_id
  digits ← required m.digits
  payload ← fromhex digits
  ok (record { can_id = can_id; payload = payload })
