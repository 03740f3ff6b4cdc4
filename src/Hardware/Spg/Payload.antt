-- ===== src/Hardware/Spg/Payload.antt =====
-- The 8-byte MIT command payload of qhrr0_hw/actuators/dongilc_protocol.py: its codes are read
-- back by an independent reader of the documented bit layout.
use mathlib.Core.Path.{refl}
use sparq_control.Common.{
  ℕ, zero, suc, ◌+◌, ◌*◌, ◌/◌, ◌%◌, ◌<◌, ◌≡◌, bit_or, Bool, true, ◌&&◌, List, arith, pos, neg_ℤ,
  ◌==◌, length, All, IsByte, get_or,
}
use sparq_control.Common.Result.{Result, ok, err, ◌>>=◌, ◌>>◌}
use sparq_control.Hardware.Spg.Numbers.{float_to_uint, require_range}
use sparq_control.Hardware.Spg.Encode.{
  MitConfig, MitCommand, MitCodes, mit_codes, mit_bytes, pack_mit_payload, cmd_mit_control,
}
use sparq_control.Hardware.Spg.Quantise.{Quantised, Quantised-fits, float_to_uint-Quantised}

-- Every smaller number passes the test.
passes : (ℕ → Bool) → ℕ → Bool
passes test zero = true
passes test (suc k) = let lower = passes test k in test k && lower

passes-at : (test : ℕ → Bool) (k j : ℕ) → j < k → passes test k ≡ true → test j ≡ true
unfolding passes
passes-at test zero j small all = ground arith
passes-at test (suc k) j small all = ground (arith, passes-at test k j)

-- A byte is put together from its halves.
abbrev halves_join : ℕ → Bool
halves_join byte = bit_or (byte / 16 * 16) (byte % 16) == byte

every_byte_joins : passes halves_join 256 ≡ true
unfolding passes
every_byte_joins = refl

-- `(hi << 4) | lo` of two half bytes is a sum.
bit_or_nibbles : (hi lo : ℕ) → hi < 16 → lo < 16 → bit_or (hi * 16) lo ≡ hi * 16 + lo
bit_or_nibbles hi lo h1 h2 =
    let x = hi * 16 + lo in
    let e = passes-at halves_join 256 x (omega arith) every_byte_joins in
    let q : x / 16 ≡ hi = omega arith in let r : x % 16 ≡ lo = omega arith in ground arith

-- The codes have 16, 12, 12, 8 and 8 bits.
unfoldable pub CodesFit : MitCodes → Type 0
CodesFit m = (m.p_u < 65536) × (m.v_u < 4096) × (m.kp_u < 4096) × (m.kd_u < 256) × (m.t_u < 256)

-- The fields by the layout: big endian, most significant field first.
abbrev pub unpack : List ℕ → MitCodes
unpack b = record {
  p_u = get_or b 1 0 * 256 + get_or b 2 0;
  v_u = get_or b 3 0 * 16 + get_or b 4 0 / 16;
  kp_u = get_or b 4 0 % 16 * 256 + get_or b 5 0;
  kd_u = get_or b 6 0;
  t_u = get_or b 7 0;
}

-- Five codes that fit their widths are read back from the payload by its layout.
pub unpack-mit_bytes : (m : MitCodes) → CodesFit m → unpack (mit_bytes m) ≡ m
unfolding CodesFit mit_bytes
unpack-mit_bytes m h =
    let nb = bit_or_nibbles (m.v_u % 16) (m.kp_u / 256 % 16) (omega arith) (omega arith) in
    ground arith

-- The payload has eight bytes, each below 256, and begins with the command.
pub mit_bytes_shape :
    (m : MitCodes)
    → (length (mit_bytes m) ≡ 8)
      × (get_or (mit_bytes m) 0 0 ≡ cmd_mit_control)
      × All IsByte (mit_bytes m)
unfolding mit_bytes
mit_bytes_shape m =
    let nb = bit_or_nibbles (m.v_u % 16) (m.kp_u / 256 % 16) (omega arith) (omega arith) in
    ground arith

-- The five quantisations that a payload stands for.
pub Codes : MitConfig → MitCommand → MitCodes → Type 0
Codes cfg c m =
    Quantised c.position_rad (neg_ℤ cfg.p_max) cfg.p_max 16 m.p_u
    × Quantised c.velocity_rad_s (neg_ℤ cfg.v_max) cfg.v_max 12 m.v_u
    × Quantised c.kp (pos 0) cfg.kp_max 12 m.kp_u
    × Quantised c.kd (pos 0) cfg.kd_max 8 m.kd_u
    × Quantised c.torque_ff_nm (neg_ℤ cfg.tau_max) cfg.tau_max 8 m.t_u

FieldsOk : MitConfig → MitCommand → MitCodes → Type 0
FieldsOk cfg c m =
    (float_to_uint c.position_rad (neg_ℤ cfg.p_max) cfg.p_max 16 ≡ ok m.p_u)
    × (float_to_uint c.velocity_rad_s (neg_ℤ cfg.v_max) cfg.v_max 12 ≡ ok m.v_u)
    × (float_to_uint c.kp (pos 0) cfg.kp_max 12 ≡ ok m.kp_u)
    × (float_to_uint c.kd (pos 0) cfg.kd_max 8 ≡ ok m.kd_u)
    × (float_to_uint c.torque_ff_nm (neg_ℤ cfg.tau_max) cfg.tau_max 8 ≡ ok m.t_u)

chain_ok :
    (u v w x y : Result (Unit {0})) (a b c d e : Result ℕ) (m : MitCodes)
    → (u
        >> (v
            >> (w
                >> (x
                    >> (y
                        >> (a >>= λ p. b >>= λ q. c >>= λ r. d >>= λ s. e >>= λ t.
                            ok (record { p_u = p; v_u = q; kp_u = r; kd_u = s; t_u = t })))))))
      ≡ ok m
    → (a ≡ ok m.p_u) × (b ≡ ok m.v_u) × (c ≡ ok m.kp_u) × (d ≡ ok m.kd_u) × (e ≡ ok m.t_u)
chain_ok u v w x y a b c d e m h = ground arith

mit_codes-fields :
    (cfg : MitConfig) (c : MitCommand) (m : MitCodes) → mit_codes cfg c ≡ ok m → FieldsOk cfg c m
unfolding mit_codes FieldsOk
mit_codes-fields cfg c m h =
    chain_ok (require_range c.position_rad (neg_ℤ cfg.p_max) cfg.p_max)
      (require_range c.velocity_rad_s (neg_ℤ cfg.v_max) cfg.v_max)
      (require_range c.kp (pos 0) cfg.kp_max) (require_range c.kd (pos 0) cfg.kd_max)
      (require_range c.torque_ff_nm (neg_ℤ cfg.tau_max) cfg.tau_max)
      (float_to_uint c.position_rad (neg_ℤ cfg.p_max) cfg.p_max 16)
      (float_to_uint c.velocity_rad_s (neg_ℤ cfg.v_max) cfg.v_max 12)
      (float_to_uint c.kp (pos 0) cfg.kp_max 12) (float_to_uint c.kd (pos 0) cfg.kd_max 8)
      (float_to_uint c.torque_ff_nm (neg_ℤ cfg.tau_max) cfg.tau_max 8) m h

mit_codes-Codes :
    (cfg : MitConfig) (c : MitCommand) (m : MitCodes) → mit_codes cfg c ≡ ok m → Codes cfg c m
unfolding FieldsOk Codes
mit_codes-Codes cfg c m h =
    let f = mit_codes-fields cfg c m h in
    (
      float_to_uint-Quantised _ _ _ _ _ f.0,
      float_to_uint-Quantised _ _ _ _ _ f.1,
      float_to_uint-Quantised _ _ _ _ _ f.2,
      float_to_uint-Quantised _ _ _ _ _ f.3,
      float_to_uint-Quantised _ _ _ _ _ f.4,
    )

Codes-fit : (cfg : MitConfig) (c : MitCommand) (m : MitCodes) → Codes cfg c m → CodesFit m
unfolding Codes CodesFit
Codes-fit cfg c m h = ground (
  arith,
  Quantised-fits _ _ _ 16 m.p_u h.0,
  Quantised-fits _ _ _ 12 m.v_u h.1,
  Quantised-fits _ _ _ 12 m.kp_u h.2,
  Quantised-fits _ _ _ 8 m.kd_u h.3,
  Quantised-fits _ _ _ 8 m.t_u h.4,
)

packed :
    (r : Result MitCodes) (p : List ℕ)
    → (r >>= λ m. ok (mit_bytes m)) ≡ ok p
    → (m : MitCodes) × (r ≡ ok m) × (p ≡ mit_bytes m)
packed (ok m) p h = (m, refl, ground arith)
packed (err e) p h = absurd (ground arith)

-- A payload that `_pack_mit_payload` returns has eight bytes, each below 256, and begins with the
-- command 0xC0. The five fields that its layout holds are codes of the command's five values: each
-- value is within its limits, and each code is within half a step of its value.
pub pack_mit_payload-unpack :
    (cfg : MitConfig) (c : MitCommand) (p : List ℕ)
    → pack_mit_payload cfg c ≡ ok p
    → (length p ≡ 8) × (get_or p 0 0 ≡ cmd_mit_control) × All IsByte p × Codes cfg c (unpack p)
unfolding pack_mit_payload
pack_mit_payload-unpack cfg c p h =
    let (m, is_m, is_p) = packed (mit_codes cfg c) p h in
    let codes = mit_codes-Codes cfg c m is_m in
    let back = unpack-mit_bytes m (Codes-fit cfg c m codes) in
    rw is_p (rw back (ground (arith, mit_bytes_shape m, codes)))
