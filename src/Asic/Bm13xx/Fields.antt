-- ===== src/Asic/Bm13xx/Fields.antt =====
-- protocol.rs: the values of the registers, and the four bytes that each is sent as.
use nano_mujina.Prelude.{
  ℕ, ◌*◌, ◌/◌, ◌%◌, ◌^◌, bit_and, bit_or, ◌&&◌, Option, none, some, leb, ◌==◌, if◌then◌else◌,
}
use nano_mujina.Prelude.Bytes.{u8, u16, Bytes4, bytes4, to_le_bytes}

pub data ChipType : Type 0 where
  bm1362 bm1366 bm1370 bm1397 : ChipType
  unknown : ℕ → ℕ → ChipType

unfoldable pub id_bytes : ChipType → ℕ × ℕ
id_bytes bm1362 = (0x13, 0x62)
id_bytes bm1366 = (0x13, 0x66)
id_bytes bm1370 = (0x13, 0x70)
id_bytes bm1397 = (0x13, 0x97)
id_bytes (unknown x y) = (x, y)

unfoldable pub core_count : ChipType → Option ℕ
core_count bm1370 = some 2048
core_count _ = none

-- `ChipType::from([u8; 2])`.
unfoldable pub chip_type_from : ℕ → ℕ → ChipType
chip_type_from x y =
    if x == 0x13 && y == 0x62
    then bm1362
    else if x == 0x13 && y == 0x66
    then bm1366
    else if x == 0x13 && y == 0x70
    then bm1370
    else if x == 0x13 && y == 0x97
    then bm1397
    else unknown x y

-- `NonceRangeConfig`: the raw bytes.
pub record NonceRangeConfig : Type 0 where
  pub bytes : Bytes4

single_chip_range : Bytes4
single_chip_range = bytes4 0xff 0xff 0xff 0xff

unfoldable pub single_chip : NonceRangeConfig
unfolding single_chip_range
single_chip = record { bytes = single_chip_range }

-- The `match` on the length of the chain.
unfoldable pub multi_chip : ℕ → NonceRangeConfig
multi_chip chain_length =
    if chain_length == 1
    then record { bytes = bytes4 0xff 0xff 0xff 0xff }
    else if leb 2 chain_length && leb chain_length 8
    then record { bytes = bytes4 0xff 0xff 0xff 0x1f }
    else if leb 9 chain_length && leb chain_length 16
    then record { bytes = bytes4 0xff 0xff 0xff 0x0f }
    else if leb 17 chain_length && leb chain_length 32
    then record { bytes = bytes4 0xff 0xff 0xff 0x07 }
    else if leb 33 chain_length && leb chain_length 64
    then record { bytes = bytes4 0xff 0xff 0xff 0x03 }
    else if leb 65 chain_length && leb chain_length 128
    then record { bytes = bytes4 0x00 0x00 0x1e 0xb5 }
    else record { bytes = bytes4 0xff 0xff 0xff 0x01 }

unfoldable pub nonce_range_from_raw : ℕ → NonceRangeConfig
nonce_range_from_raw value = record { bytes = to_le_bytes value }

pub data BaudRate : Type 0 where
  baud115200 baud1m baud3m : BaudRate
  custom : ℕ → BaudRate

unfoldable pub baud_to_bytes : BaudRate → Bytes4
baud_to_bytes baud115200 = to_le_bytes 0x00000271
baud_to_bytes baud1m = to_le_bytes 0x00023011
baud_to_bytes baud3m = to_le_bytes 0x00003001
baud_to_bytes (custom val) = to_le_bytes val

-- The `match` of `Register::decode` on the raw value.
unfoldable pub baud_decode : ℕ → BaudRate
baud_decode raw_value =
    if raw_value == 0x00000271
    then baud115200
    else if raw_value == 0x00000130
    then baud1m
    else if raw_value == 0x00003001
    then baud3m
    else custom raw_value

-- `strengths: [u8; 8]`.
pub record IoDriverStrength : Type 0 where
  pub s0 : ℕ
  pub s1 : ℕ
  pub s2 : ℕ
  pub s3 : ℕ
  pub s4 : ℕ
  pub s5 : ℕ
  pub s6 : ℕ
  pub s7 : ℕ

unfoldable pub normal : IoDriverStrength
normal = record { s0 = 0; s1 = 0; s2 = 1; s3 = 0; s4 = 1; s5 = 1; s6 = 1; s7 = 1 }

unfoldable pub domain_boundary : IoDriverStrength
domain_boundary = record { s0 = 0; s1 = 0; s2 = 1; s3 = 0xf; s4 = 1; s5 = 1; s6 = 1; s7 = 1 }

-- `low | (high << 4)` on u8s.
abbrev pub pack : ℕ → ℕ → ℕ
pack low high = bit_or low (u8 (high * 2 ^ 4))

unfoldable pub strength_to_bytes : IoDriverStrength → Bytes4
strength_to_bytes s = bytes4 (pack s.s0 s.s1) (pack s.s2 s.s3) (pack s.s4 s.s5) (pack s.s6 s.s7)

-- `((raw_value >> (i * 4)) & 0xf) as u8`.
abbrev pub nibble : ℕ → ℕ → ℕ
nibble i raw_value = u8 (bit_and (raw_value / 2 ^ (i * 4)) 0xf)

unfoldable pub strength_decode : ℕ → IoDriverStrength
strength_decode raw = record {
  s0 = nibble 0 raw;
  s1 = nibble 1 raw;
  s2 = nibble 2 raw;
  s3 = nibble 3 raw;
  s4 = nibble 4 raw;
  s5 = nibble 5 raw;
  s6 = nibble 6 raw;
  s7 = nibble 7 raw;
}

pub record VersionMask : Type 0 where
  pub mask : ℕ
  pub control : ℕ

unfoldable pub full_rolling : VersionMask
full_rolling = record { mask = 0xffff; control = 0x0090 }

unfoldable pub version_mask_to_bytes : VersionMask → Bytes4
version_mask_to_bytes m =
    bytes4 (m.control % 256) (m.control / 256 % 256) (m.mask % 256) (m.mask / 256 % 256)

unfoldable pub version_mask_decode : ℕ → VersionMask
version_mask_decode raw_value = record {
  mask = u16 (raw_value / 2 ^ 16);
  control = u16 (bit_and raw_value 0xffff);
}
