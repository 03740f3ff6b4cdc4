-- ===== src/Hal/Bus/Wire.antt =====
-- The round trip of frames through the bytes of hal/can_bus/bus.py.
use mathlib.Core.Path.{refl, ap}
use sparq_control.Common.{
  ℕ, ◌+◌, ◌-◌, ◌<◌, ◌≤◌, ◌^◌, ◌%◌, ◌/◌, ◌*◌, ◌≡◌, zero, suc, ◌⊎◌, List, [], ◌∷◌, ◌++◌, arith,
  length, take, replicate, length-append,
}
use sparq_control.Common.Result.{Result, ok, err, value_error, struct_error}
use sparq_control.Hal.Frame.{CanFrame}
use sparq_control.Hal.Bus.{sent_bytes, received_frame}

take-append : (xs ys : List ℕ) → take (length xs) (xs ++ ys) ≡ xs
take-append [] ys = refl
take-append (x ∷ xs) ys = ap (λ zs. x ∷ zs) (take-append xs ys)

length-replicate : (n x : ℕ) → length (replicate n x) ≡ n
length-replicate zero x = refl
length-replicate (suc n) x = ap suc (length-replicate n x)

id_back :
    (i : ℕ)
    → i < 2 ^ 32
    → i % 256 + i / 256 % 256 * 256 + i / 65536 % 256 * 65536 + i / 16777216 * 16777216 ≡ i
id_back i h = omega arith

-- What became of a frame that was sent.
pub OnWire : CanFrame → Result (List ℕ) → Type 0
OnWire f (ok raw) =
    (length f.payload ≤ 8)
    × (f.can_id < 2 ^ 32)
    × (length raw ≡ 16)
    × (received_frame raw ≡ record { can_id = f.can_id % 2 ^ 11; payload = f.payload })
OnWire f (err e) =
    ((8 < length f.payload) × (e ≡ value_error))
    ⊎ ((length f.payload ≤ 8) × (2 ^ 32 ≤ f.can_id) × (e ≡ struct_error))

-- A frame that is sent has at most 8 bytes and a 32-bit id and becomes 16 bytes, from which the receiver
-- reads the low 11 bits of the id and the same data. A frame that is refused is longer, with
-- `ValueError`, or has a larger id, with `struct.error`.
pub sent_bytes-OnWire : (f : CanFrame) → OnWire f (sent_bytes f)
unfolding OnWire sent_bytes received_frame
sent_bytes-OnWire f = ground (
  arith,
  take-append f.payload (replicate (8 - length f.payload) 0),
  length-append f.payload (replicate (8 - length f.payload) 0),
  length-replicate (8 - length f.payload) 0,
  id_back f.can_id,
)
