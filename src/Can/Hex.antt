-- ===== src/Can/Hex.antt =====
-- `bytes.hex` and `bytes.fromhex`, as the lines of the CAN daemon's socket use them. A text is the
-- list of its character codes.
use sparq_control.Common.{
  ℕ, ◌+◌, ◌-◌, ◌*◌, ◌/◌, ◌%◌, ◌<◌, Bool, false, ◌&&◌, ◌||◌, List, [], ◌∷◌, Option, none, some, leb,
  ltb, ◌==◌, if◌then◌else◌, ◌≡◌, refl, ap, arith, All, IsByte,
}
use sparq_control.Common.Result.{Result, ok, err, ◌>>=◌, value_error}

-- The character of a digit.
abbrev pub hex_char : ℕ → ℕ
hex_char d = if ltb d 10 then 48 + d else 87 + d

-- `data.hex()`
unfoldable pub hex : List ℕ → List ℕ
hex [] = []
hex (b ∷ bs) = hex_char (b / 16) ∷ hex_char (b % 16) ∷ hex bs

-- The value of a hexadecimal digit, of either case.
abbrev pub hex_digit : ℕ → Option ℕ
hex_digit c =
    if leb 48 c && leb c 57
    then some (c - 48)
    else if leb 97 c && leb c 102
    then some (c - 87)
    else if leb 65 c && leb c 70
    then some (c - 55)
    else none

-- ASCII white space, which is skipped before each pair of digits.
abbrev pub is_space : ℕ → Bool
is_space c = c == 32 || (leb 9 c && leb c 13)

abbrev pub byte_of : Option ℕ → Option ℕ → Result ℕ
byte_of (some h) (some l) = ok (16 * h + l)
byte_of _ _ = err value_error

-- `bytes.fromhex(text)`
unfoldable pub fromhex : List ℕ → Result (List ℕ)
fromhex [] = ok []
fromhex (c ∷ []) = if is_space c then ok [] else err value_error
fromhex (c ∷ (d ∷ cs)) =
    let skipped = fromhex (d ∷ cs) in
    let rest = fromhex cs in
    if is_space c
    then skipped
    else byte_of (hex_digit c) (hex_digit d) >>= λ b. rest >>= λ bs. ok (b ∷ bs)

hex_char-hex_digit : (d : ℕ) → d < 16 → hex_digit (hex_char d) ≡ some d
hex_char-hex_digit d h = ground arith

hex_char-is_space : (d : ℕ) → d < 16 → is_space (hex_char d) ≡ false
hex_char-is_space d h = ground arith

-- Bytes are read back from their digits.
pub fromhex-hex : (bs : List ℕ) → All IsByte bs → fromhex (hex bs) ≡ ok bs
unfolding fromhex hex
fromhex-hex [] h = refl
fromhex-hex (b ∷ bs) h =
    rw
      (
        hex_char-is_space (b / 16) (omega (arith, h.0)),
        hex_char-hex_digit (b / 16) (omega (arith, h.0)),
        hex_char-hex_digit (b % 16) (omega arith),
        fromhex-hex bs h.1,
      )
      (ap (λ x. ok (x ∷ bs)) (omega arith))
