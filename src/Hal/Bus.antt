-- ===== src/Hal/Bus.antt =====
-- hal/can_bus/bus.py: the bytes of a classic CAN frame on the socket, in the order of a little-endian
-- machine. Data bytes are below 256.
pub mod Wire
use sparq_control.Common.{
  ℕ, zero, suc, ◌+◌, ◌-◌, ◌*◌, ◌/◌, ◌%◌, ◌^◌, Bool, List, [], ◌∷◌, ◌++◌, leb, ltb, take, replicate,
  get_or, length,
}
use sparq_control.Common.Result.{Result, ok, err, ◌>>=◌, ◌>>◌, value_error, struct_error, raise_if}
use sparq_control.Hal.Frame.{CanFrame}

-- `data.ljust(8, b"\x00")`
abbrev pub ljust_eight : List ℕ → List ℕ
ljust_eight bytes = bytes ++ replicate (8 - length bytes) 0

-- `struct.pack` with the format "=IB3x8s".
abbrev pub pack_frame : ℕ → ℕ → List ℕ → List ℕ
pack_frame can_id dlc bytes =
    can_id % 2 ^ 8
    ∷ can_id / 2 ^ 8 % 2 ^ 8
    ∷ can_id / 2 ^ 16 % 2 ^ 8
    ∷ can_id / 2 ^ 24
    ∷ dlc
    ∷ 0
    ∷ 0
    ∷ 0
    ∷ bytes

-- The id that `struct.unpack` reads with this format.
abbrev pub raw_id : List ℕ → ℕ
raw_id raw =
    get_or raw 0 0 + get_or raw 1 0 * 2 ^ 8 + get_or raw 2 0 * 2 ^ 16 + get_or raw 3 0 * 2 ^ 24

-- The list without its first elements.
abbrev pub drop {ℓ} : {A : Type ℓ} → ℕ → List A → List A
drop zero xs = xs
drop (suc n) [] = []
drop (suc n) (x ∷ xs) = drop n xs

-- The bytes that `SocketCANBus.send_frame` gives to the socket.
unfoldable pub sent_bytes : CanFrame → Result (List ℕ)
sent_bytes frame = do
  raise_if (ltb 8 (length frame.payload)) value_error
  raise_if (leb (2 ^ 32) frame.can_id) struct_error
  ok (pack_frame frame.can_id (length frame.payload) (ljust_eight frame.payload))

-- The frame that `SocketCANBus.recv_frame` makes of 16 bytes.
unfoldable pub received_frame : List ℕ → CanFrame
received_frame raw = record {
  can_id = raw_id raw % 2 ^ 11;
  payload = take (get_or raw 4 0) (drop 8 raw);
}
