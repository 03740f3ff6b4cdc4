-- ===== src/Hardware/Spg/Params.antt =====
-- The parameter and offset commands of qhrr0_hw/actuators/dongilc_protocol.py, read back by its
-- own decoders, and the arithmetic of encoder counts.
use sparq_control.Common.{
  ℕ, ◌+◌, ◌*◌, ◌/◌, ◌%◌, ◌<◌, ◌≤◌, ◌-◌, suc, ◌≡◌, refl, Bool, true, false, ◌&&◌, [], ◌∷◌, arith, ℤ,
  pos, negsuc, pos_part, neg_part, neg_ℤ, Bool-cases, inl, inr, ◌≤ℤ◌, leb_ℤ, fits_i16, of_i16,
  to_i16, if◌then◌else◌, length, All, IsByte,
}
use sparq_control.Common.Result.{Result, ok, err, value_error}
use sparq_control.Hal.Frame.{CanFrame}
use sparq_control.Hardware.Spg.Numbers.{
  wrap_u14, signed_u14, shortest_delta_u14, round_half_away_from_zero, enc_mod,
}
use sparq_control.Hardware.Spg.Encode.{
  times, pack_mit_set_zero_payload, encode_zero_position_frame, encode_write_mit_params_frame,
  encode_write_encoder_offset_frame, encode_set_current_position_frame, cmd_mit_set_zero,
}
use sparq_control.Hardware.Spg.Decode.{u16, byte}
use sparq_control.Hardware.Spg.Quantise.{rounded_bounds}

-- Two's complement of 16 bits is undone for a value that fits.
pub of_i16-to_i16 : (x : ℤ) → fits_i16 x ≡ true → to_i16 (of_i16 x) ≡ x
of_i16-to_i16 x h = ground arith

-- A value is k * x / d, rounded to the nearest integer, and away from zero between two.
pub IsRounded : ℕ → ℤ → ℕ → ℤ → Type 0
IsRounded k x d v =
    let exact = k * (pos_part x + neg_part x) in
    let size = pos_part v + neg_part v in
    (2 * (size * d) ≤ 2 * exact + d)
    × (2 * exact < 2 * (size * d) + d)
    × ((pos 0 ≤ℤ x) → neg_part v ≡ 0)
    × ((x ≤ℤ pos 0) → pos_part v ≡ 0)

times_parts :
    (k : ℕ) (x : ℤ)
    → 0 < k
    → (pos_part (times k x) ≡ k * pos_part x) × (neg_part (times k x) ≡ k * neg_part x)
times_parts k (pos n) h = (refl, omega arith)
times_parts k (negsuc n) h = (omega arith, grind arith)

neg_parts : (q : ℕ) → (pos_part (neg_ℤ (pos q)) ≡ 0) × (neg_part (neg_ℤ (pos q)) ≡ q)
neg_parts q = ground arith

none_rounded : (k n d : ℕ) → 0 < d → n ≡ 0 → (2 * (k * n) + d) / (2 * d) ≡ 0
none_rounded k n d hd e = grind arith

round-IsRounded :
    (k : ℕ) (x : ℤ) (d : ℕ)
    → 0 < k
    → 0 < d
    → IsRounded k x d (round_half_away_from_zero (times k x) d)
unfolding IsRounded round_half_away_from_zero
round-IsRounded k (pos n) d hk hd =
    let b = rounded_bounds (k * n) d hd in
    (omega (arith, b.0), omega (arith, b.1), λ h. refl, λ h. none_rounded k n d hd (omega arith))
round-IsRounded k (negsuc n) d hk hd =
    let m = k * suc n in
    let one : 1 ≤ m = grind arith in
    let same : suc (m - 1) ≡ m = omega arith in
    let b = rounded_bounds m d hd in
    let (no_pos, size) = neg_parts ((2 * m + d) / (2 * d)) in
    rw (same, no_pos, size)
      (omega (arith, b.0), omega (arith, b.1), λ h. absurd (omega (arith, h)), λ h. refl)

-- The outcome of a zero-position command for x / d degrees.
unfoldable pub ZeroPosition : ℕ → ℤ → ℕ → Result CanFrame → Type 0
ZeroPosition command_id x d (ok f) =
    (f.can_id ≡ command_id)
    × (length f.payload ≡ 8)
    × All IsByte f.payload
    × (byte f.payload 0 ≡ cmd_mit_set_zero)
    × IsRounded 100 x d (to_i16 (u16 f.payload 6 7))
ZeroPosition command_id x d (err e) =
    (e ≡ value_error) × ((v : ℤ) × IsRounded 100 x d v × (fits_i16 v ≡ false))

-- The frame of a zero-position command for a rounded offset.
abbrev zero_frame : ℕ → ℤ → Result CanFrame
zero_frame command_id v =
    if fits_i16 v
    then ok (record {
      can_id = command_id;
      payload = cmd_mit_set_zero ∷ 0 ∷ 0 ∷ 0 ∷ 0 ∷ 0 ∷ of_i16 v % 256 ∷ of_i16 v / 256 ∷ [];
    })
    else err value_error

zero_bytes :
    (command_id : ℕ) (x : ℤ) (d : ℕ)
    → encode_zero_position_frame command_id x d
      ≡ zero_frame command_id (round_half_away_from_zero (times 100 x) d)
unfolding encode_zero_position_frame pack_mit_set_zero_payload
zero_bytes command_id x d = ground arith

word_back :
    (v : ℤ)
    → fits_i16 v ≡ true
    → (to_i16 (of_i16 v % 256 + 256 * (of_i16 v / 256)) ≡ v)
      × (of_i16 v % 256 < 256)
      × (of_i16 v / 256 < 256)
word_back v h = ground arith

zero_outcome :
    (command_id : ℕ) (x : ℤ) (d : ℕ) (v : ℤ)
    → IsRounded 100 x d v
    → ZeroPosition command_id x d (zero_frame command_id v)
unfolding ZeroPosition
zero_outcome command_id x d v h = elim (Bool-cases (fits_i16 v)) [
  | inl fits ↦
      let (back, low, high) = word_back v fits in
      rw (fits, back)
        (
          refl,
          refl,
          (
            omega arith,
            (
              omega arith,
              (omega arith, (omega arith, (omega arith, (omega arith, (low, (high, tt)))))),
            ),
          ),
          refl,
          h,
        )
  | inr wide ↦ rw wide (refl, (v, h, wide))
]

-- A zero-position command for x / d degrees carries the offset, in hundredths of a degree and rounded
-- to the nearest, halves away from zero, as the little-endian int16 at its end, under the drive's id
-- and the command 0xC3. It is refused with `ValueError`, and only if the rounded offset does not fit an
-- int16.
pub encode_zero_position_frame-ZeroPosition :
    (command_id : ℕ) (x : ℤ) (d : ℕ)
    → 0 < d
    → ZeroPosition command_id x d (encode_zero_position_frame command_id x d)
unfolding ZeroPosition
encode_zero_position_frame-ZeroPosition command_id x d h = rw zero_bytes (
    zero_outcome command_id x d (round_half_away_from_zero (times 100 x) d)
      (round-IsRounded 100 x d (omega arith) h))

abbrev in_byte : ℤ → Bool
in_byte x = leb_ℤ (pos 0) x && leb_ℤ x (pos 255)

abbrev in_word : ℤ → Bool
in_word x = leb_ℤ (pos 0) x && leb_ℤ x (pos 0xFFFF)

-- The outcome of a command that writes parameters.
pub WrittenParams : ℕ → ℤ → ℤ → ℤ × ℕ → ℤ × ℕ → Result CanFrame → Type 0
WrittenParams command_id v tau kt gear (ok f) =
    (f.can_id ≡ command_id)
    × (length f.payload ≡ 8)
    × All IsByte f.payload
    × (pos (byte f.payload 1) ≡ v)
    × (pos (byte f.payload 2) ≡ tau)
    × (pos (u16 f.payload 3 4) ≡ round_half_away_from_zero (times 1000 kt.0) kt.1)
    × (pos (u16 f.payload 5 6) ≡ round_half_away_from_zero (times 100 gear.0) gear.1)
WrittenParams command_id v tau kt gear (err e) =
    (e ≡ value_error)
    × ((in_byte v
          && in_byte tau
          && in_word (round_half_away_from_zero (times 1000 kt.0) kt.1)
          && in_word (round_half_away_from_zero (times 100 gear.0) gear.1))
        ≡ false)

-- A frame that writes parameters carries the two maxima as bytes and the two rounded parameters, in thousandths and in hundredths, as
-- little-endian words. The command is refused with `ValueError`, and only if one of the four does
-- not fit.
pub encode_write_mit_params_frame-WrittenParams :
    (command_id : ℕ) (v tau : ℤ) (kt gear : ℤ × ℕ)
    → WrittenParams command_id v tau kt gear
        (encode_write_mit_params_frame command_id v tau kt gear)
unfolding WrittenParams encode_write_mit_params_frame
encode_write_mit_params_frame-WrittenParams command_id v tau kt gear = ground arith

-- For a desired count below 16384, the offset that is written is a count, in bytes, and added to the
-- original count gives the desired count modulo 16384.
pub encode_set_current_position_frame_sum :
    (command_id original desired : ℕ)
    → desired < enc_mod
    → let f = encode_set_current_position_frame command_id original desired in
      (wrap_u14 (u16 f.payload 6 7 + original) ≡ desired)
      × (u16 f.payload 6 7 < enc_mod)
      × All IsByte f.payload
unfolding encode_set_current_position_frame encode_write_encoder_offset_frame wrap_u14
encode_set_current_position_frame_sum command_id original desired h = ground arith

-- The delta of two counts is between -8192 and 8192, and leads from the previous count to the
-- current one modulo 16384. A negative delta -n is added as 16383 n.
pub shortest_delta_u14_leads :
    (curr prev : ℕ)
    → let d = shortest_delta_u14 curr prev in
      (negsuc 8191 ≤ℤ d)
      × (d ≤ℤ pos 8192)
      × (wrap_u14 (prev + pos_part d + neg_part d * 16383) ≡ wrap_u14 curr)
unfolding shortest_delta_u14 wrap_u14
shortest_delta_u14_leads curr prev = ground arith

-- The signed count is between -8192 and 8191 and is the count modulo 16384. A negative value -n is
-- taken as 16383 n.
pub wrap_u14-signed_u14 :
    (cnt : ℕ)
    → let s = signed_u14 cnt in
      (negsuc 8191 ≤ℤ s)
      × (s ≤ℤ pos 8191)
      × (wrap_u14 (pos_part s + neg_part s * 16383) ≡ wrap_u14 cnt)
unfolding signed_u14 wrap_u14
wrap_u14-signed_u14 cnt = ground arith
