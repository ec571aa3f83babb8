-- ===== src/Asic/Bm13xx/Register/RoundTrip.antt =====
-- What the chip's registers become when they are coded and decoded again.
use nano_mujina.Prelude.{
  ℕ, ◌+◌, ◌*◌, ◌/◌, ◌%◌, ◌^◌, ◌<◌, bit_and, ◌≡◌, refl, ap, ◌∙◌, arith, ◌==◌, if◌then◌else◌,
}
use nano_mujina.Prelude.Bytes.{
  u8, IsByte, IsU16, IsU32, IsBytes4, bytes4, to_be_bytes, from_le_bytes, from_le_bytes-to_le_bytes,
}
use nano_mujina.Prelude.Bits.{bit_and_mask, bit_or-shifted}
use nano_mujina.Asic.Bm13xx.Pll
use nano_mujina.Asic.Bm13xx.Pll.{PllConfig}
use nano_mujina.Asic.Bm13xx.Ticket.{from_wire_bytes-to_wire_bytes}
use nano_mujina.Asic.Bm13xx.Fields.{
  ChipType, BaudRate, bm1362, bm1366, bm1370, bm1397, unknown, id_bytes, chip_type_from, baud1m,
  baud3m, baud115200, custom, baud_to_bytes, baud_decode, IoDriverStrength, strength_to_bytes,
  strength_decode, VersionMask, version_mask_to_bytes, version_mask_decode, nibble, pack,
}
use nano_mujina.Asic.Bm13xx.Register.{
  Register, chip_id, pll_divider, nonce_range, ticket_mask, misc_control, uart_baud, uart_relay,
  core, analog_mux, io_driver_strength, pll3_parameter, version_mask, init_control, misc_settings,
  decode, address, encode_data,
}

-- The values that the Rust types admit, and for the ticket mask the exponents below 32.
abbrev pub IsWord : Register → Type 0
IsWord (chip_id (unknown x y) c a) = IsByte x × IsByte y × IsByte c × IsByte a
IsWord (chip_id t c a) = IsByte c × IsByte a
IsWord (pll_divider c) = IsByte c.flag × IsByte c.fb_div × IsByte c.ref_div × IsByte c.post_div
IsWord (nonce_range c) = IsBytes4 c.bytes
IsWord (ticket_mask m) = m.zero_bits < 32
IsWord (misc_control v) = IsU32 v
IsWord (uart_baud (custom v)) = IsU32 v
IsWord (uart_baud b) = Unit
IsWord (uart_relay v) = IsU32 v
IsWord (core v) = IsU32 v
IsWord (analog_mux v) = IsU32 v
IsWord (io_driver_strength s) =
    (s.s0 < 16)
    × (s.s1 < 16)
    × (s.s2 < 16)
    × (s.s3 < 16)
    × (s.s4 < 16)
    × (s.s5 < 16)
    × (s.s6 < 16)
    × (s.s7 < 16)
IsWord (pll3_parameter v) = IsU32 v
IsWord (version_mask m) = IsU16 m.mask × IsU16 m.control
IsWord (init_control v) = IsU32 v
IsWord (misc_settings v) = IsU32 v

-- The chip that two id bytes stand for, by the second one behind 0x13.
abbrev pub chip_13 : ℕ → ChipType
chip_13 y =
    if y == 0x62
    then bm1362
    else if y == 0x66
    then bm1366
    else if y == 0x70
    then bm1370
    else if y == 0x97
    then bm1397
    else unknown 0x13 y

abbrev pub chip_named : ℕ → ℕ → ChipType
chip_named x y = if x == 0x13 then chip_13 y else unknown x y

-- The baud rate that a value stands for: 625, 304 and 12289 have names.
abbrev pub baud_named : ℕ → BaudRate
baud_named v =
    if v == 304
    then baud1m
    else if v == 625
    then baud115200
    else if v == 12289
    then baud3m
    else custom v

-- The register that decoding is to return for one that was encoded: the same, but for the core
-- register, whose bytes come back reversed, for ids of chips and values of baud rates that have a name,
-- and for the baud rate of 1M, which is encoded as a value that decoding does not know.
abbrev pub received : Register → Register
received (chip_id (unknown x y) c a) = chip_id (chip_named x y) c a
received (uart_baud baud1m) = uart_baud (custom 0x00023011)
received (uart_baud (custom v)) = uart_baud (baud_named v)
received (core v) = core (from_le_bytes (to_be_bytes v))
received r = r

chip_type_from-named : (x y : ℕ) → chip_type_from x y ≡ chip_named x y
unfolding chip_type_from
chip_type_from-named x y = ground arith

baud_decode-named : (v : ℕ) → baud_decode v ≡ baud_named v
unfolding baud_decode
baud_decode-named v = ground arith

pub byte_mask : (n : ℕ) → bit_and n 0xff ≡ n % 256
byte_mask n = bit_and_mask 8 n

from_raw-to_bytes :
    (c : PllConfig)
    → IsByte c.flag
    → IsByte c.fb_div
    → IsByte c.ref_div
    → IsByte c.post_div
    → Pll.from_raw (from_le_bytes (Pll.to_bytes c)) ≡ c
unfolding Pll.from_raw Pll.to_bytes
from_raw-to_bytes c h0 h1 h2 h3 =
    let raw : ℕ = from_le_bytes (bytes4 c.flag c.fb_div c.ref_div c.post_div) in
    ground (
      arith,
      byte_mask raw,
      byte_mask (raw / 2 ^ 8),
      byte_mask (raw / 2 ^ 16),
      byte_mask (raw / 2 ^ 24),
    )

pub nibble_lem : (i raw : ℕ) → nibble i raw ≡ raw / 2 ^ (i * 4) % 16
nibble_lem i raw = omega (arith, bit_and_mask 4 (raw / 2 ^ (i * 4)))

pub pack_lem : (low high : ℕ) → low < 16 → high < 16 → pack low high ≡ high * 16 + low
pack_lem low high a b =
    let fits : u8 (high * 2 ^ 4) ≡ high * 2 ^ 4 = omega arith in
    rw fits (bit_or-shifted 4 high low a)

-- Eight nibbles, taken out of the word that they make.
nibbles :
    (a b c d e f g h : ℕ)
    → a < 16
    → b < 16
    → c < 16
    → d < 16
    → e < 16
    → f < 16
    → g < 16
    → h < 16
    → let w = b * 16 + a + (d * 16 + c) * 256 + (f * 16 + e) * 65536 + (h * 16 + g) * 16777216 in
      (w / 2 ^ (0 * 4) % 16 ≡ a)
      × (w / 2 ^ (1 * 4) % 16 ≡ b)
      × (w / 2 ^ (2 * 4) % 16 ≡ c)
      × (w / 2 ^ (3 * 4) % 16 ≡ d)
      × (w / 2 ^ (4 * 4) % 16 ≡ e)
      × (w / 2 ^ (5 * 4) % 16 ≡ f)
      × (w / 2 ^ (6 * 4) % 16 ≡ g)
      × (w / 2 ^ (7 * 4) % 16 ≡ h)
nibbles a b c d e f g h p0 p1 p2 p3 p4 p5 p6 p7 = (
  omega arith,
  omega arith,
  omega arith,
  omega arith,
  omega arith,
  omega arith,
  omega arith,
  omega arith,
)

strength_path :
    {a b c d e f g h : ℕ} {s : IoDriverStrength}
    → (a ≡ s.s0)
      × (b ≡ s.s1)
      × (c ≡ s.s2)
      × (d ≡ s.s3)
      × (e ≡ s.s4)
      × (f ≡ s.s5)
      × (g ≡ s.s6)
      × (h ≡ s.s7)
    → ◌≡◌ {A = IoDriverStrength}
        (record { s0 = a; s1 = b; s2 = c; s3 = d; s4 = e; s5 = f; s6 = g; s7 = h })
        s
strength_path (p0, p1, p2, p3, p4, p5, p6, p7) = λ i. record {
  s0 = p0 i;
  s1 = p1 i;
  s2 = p2 i;
  s3 = p3 i;
  s4 = p4 i;
  s5 = p5 i;
  s6 = p6 i;
  s7 = p7 i;
}

strength_decode-strength_to_bytes :
    (s : IoDriverStrength)
    → IsWord (io_driver_strength s)
    → strength_decode (from_le_bytes (strength_to_bytes s)) ≡ s
unfolding strength_to_bytes strength_decode
strength_decode-strength_to_bytes s (h0, h1, h2, h3, h4, h5, h6, h7) =
    rw
      (
        pack_lem s.s0 s.s1 h0 h1,
        pack_lem s.s2 s.s3 h2 h3,
        pack_lem s.s4 s.s5 h4 h5,
        pack_lem s.s6 s.s7 h6 h7,
      )
      (simp nibble_lem
        (strength_path (nibbles s.s0 s.s1 s.s2 s.s3 s.s4 s.s5 s.s6 s.s7 h0 h1 h2 h3 h4 h5 h6 h7)))

version_mask_decode-version_mask_to_bytes :
    (m : VersionMask)
    → IsU16 m.mask
    → IsU16 m.control
    → version_mask_decode (from_le_bytes (version_mask_to_bytes m)) ≡ m
unfolding version_mask_decode version_mask_to_bytes
version_mask_decode-version_mask_to_bytes m h0 h1 =
    let raw : ℕ =
      from_le_bytes
        (bytes4 (m.control % 256) (m.control / 256 % 256) (m.mask % 256) (m.mask / 256 % 256)) in
    ground (arith, bit_and_mask 16 raw)

-- A register whose parts fit their Rust types, and a ticket mask of fewer than 32 bits, comes back
-- from its four bytes as it was, but for what `received` says: the bytes of the core register come
-- back in reverse order, the two bytes of an unknown chip's id and the value of a custom baud rate
-- come back under the name that they have, if they have one, and the baud rate of 1M comes back as a
-- custom value.
pub decode-encode_data : (r : Register) → IsWord r → decode (address r) (encode_data r) ≡ received r
unfolding decode address encode_data
decode-encode_data (chip_id bm1362 c a) h = unfold id_bytes chip_type_from in refl
decode-encode_data (chip_id bm1366 c a) h = unfold id_bytes chip_type_from in refl
decode-encode_data (chip_id bm1370 c a) h = unfold id_bytes chip_type_from in refl
decode-encode_data (chip_id bm1397 c a) h = unfold id_bytes chip_type_from in refl
decode-encode_data (chip_id (unknown x y) c a) h =
    unfold id_bytes in ap (λ t. chip_id t c a) (chip_type_from-named x y)
decode-encode_data (pll_divider c) (h0, h1, h2, h3) =
    ap pll_divider (from_raw-to_bytes c h0 h1 h2 h3)
decode-encode_data (nonce_range c) h = refl
decode-encode_data (ticket_mask m) h = ap ticket_mask (from_wire_bytes-to_wire_bytes m h)
decode-encode_data (misc_control v) h = ap misc_control (from_le_bytes-to_le_bytes v h)
decode-encode_data (uart_baud baud115200) h = unfold baud_to_bytes baud_decode in refl
decode-encode_data (uart_baud baud1m) h = unfold baud_to_bytes baud_decode in refl
decode-encode_data (uart_baud baud3m) h = unfold baud_to_bytes baud_decode in refl
decode-encode_data (uart_baud (custom v)) h =
    unfold baud_to_bytes in
    ap (λ w. uart_baud (baud_decode w)) (from_le_bytes-to_le_bytes v h)
    ∙ ap uart_baud (baud_decode-named v)
decode-encode_data (uart_relay v) h = ap uart_relay (from_le_bytes-to_le_bytes v h)
decode-encode_data (core v) h = refl
decode-encode_data (analog_mux v) h = ap analog_mux (from_le_bytes-to_le_bytes v h)
decode-encode_data (io_driver_strength s) h =
    ap io_driver_strength (strength_decode-strength_to_bytes s h)
decode-encode_data (pll3_parameter v) h = ap pll3_parameter (from_le_bytes-to_le_bytes v h)
decode-encode_data (version_mask m) (h0, h1) =
    ap version_mask (version_mask_decode-version_mask_to_bytes m h0 h1)
decode-encode_data (init_control v) h = ap init_control (from_le_bytes-to_le_bytes v h)
decode-encode_data (misc_settings v) h = ap misc_settings (from_le_bytes-to_le_bytes v h)
