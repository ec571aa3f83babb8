-- ===== src/JobSource/Version.antt =====
-- mujina-miner/src/job_source/version.rs: version rolling. A `Version` of the bitcoin crate is its
-- 32-bit pattern, so that `to_consensus() as u32` and `from_consensus` change nothing.
pub mod Rolling
mod Tests
use nano_mujina.Prelude.{
  ℕ, ◌+◌, ◌-◌, ◌*◌, ◌/◌, ◌%◌, ◌^◌, bit_and, bit_or, Bool, not, ◌&&◌, ◌==◌, if◌then◌else◌, Outcome,
  ok, err,
}
use nano_mujina.Prelude.Bytes.{u8, u16, IsByte, Bytes4, from_be_bytes}

-- `GeneralPurposeBits([u8; 2])`.
pub record GeneralPurposeBits : Type 0 where
  pub byte0 : ℕ
  pub byte1 : ℕ

abbrev pub IsGpBits : GeneralPurposeBits → Type 0
IsGpBits gp = IsByte gp.byte0 × IsByte gp.byte1

abbrev pub gp_bits : ℕ → ℕ → GeneralPurposeBits
gp_bits x y = record { byte0 = x; byte1 = y }

pub full : GeneralPurposeBits
full = gp_bits 0xff 0xff

pub none_set : GeneralPurposeBits
none_set = gp_bits 0 0

-- `(b & !m) == 0` for both bytes.
unfoldable pub contains : GeneralPurposeBits → GeneralPurposeBits → Bool
contains mask value =
    bit_and value.byte0 (255 - mask.byte0) == 0 && bit_and value.byte1 (255 - mask.byte1) == 0

-- `u16::from_be_bytes`.
abbrev pub gp_value : GeneralPurposeBits → ℕ
gp_value gp = gp.byte0 * 256 + gp.byte1

-- `base | ((bits as i32) << 13)`; the 16 bits stay below bit 29.
unfoldable pub apply_to_version : GeneralPurposeBits → ℕ → ℕ
apply_to_version gp base = bit_or base (gp_value gp * 2 ^ 13)

-- `(mask >> 13) as u16` of a big-endian u32.
unfoldable pub from_mask_bytes : Bytes4 → GeneralPurposeBits
from_mask_bytes mask_bytes =
    let bits : ℕ = u16 (from_be_bytes mask_bytes / 2 ^ 13) in gp_bits (bits / 256) (bits % 256)

pub data VersionTemplateError : Type 0 where
  base_has_general_purpose_bits : ℕ → ℕ → ℕ → VersionTemplateError
  gp_bits_exceed_mask : GeneralPurposeBits → GeneralPurposeBits → VersionTemplateError

pub record VersionTemplate : Type 0 where
  pub base : ℕ
  pub gp_bits_mask : GeneralPurposeBits

unfoldable pub new : ℕ → GeneralPurposeBits → Outcome VersionTemplateError VersionTemplate
new base mask =
    let gp_region : ℕ = bit_and (base / 2 ^ 13) 0xffff in
    if not (gp_region == 0)
    then err (base_has_general_purpose_bits base (u8 (gp_region / 2 ^ 8)) (u8 gp_region))
    else ok (record { base = base; gp_bits_mask = mask })

unfoldable pub apply_gp_bits : VersionTemplate → GeneralPurposeBits → Outcome VersionTemplateError ℕ
apply_gp_bits t gp =
    if not (contains t.gp_bits_mask gp)
    then err (gp_bits_exceed_mask gp t.gp_bits_mask)
    else ok (apply_to_version gp t.base)
