-- ===== src/JobSource/Version/Rolling.antt =====
-- What version rolling does to a block version.
use nano_mujina.Prelude.{
  ℕ, ◌+◌, ◌*◌, ◌/◌, ◌%◌, ◌^◌, bit_or, ◌≡◌, ◌≢◌, ◌↔◌, ◌⊎◌, inl, inr, true, arith, Bool-cases, ok,
  err,
}
use nano_mujina.Prelude.Bytes.{Bytes4, IsBytes4, from_be_bytes}
use nano_mujina.Prelude.Bits.{
  Within, bit_and_outside, bit_and_mask, bit_or_fields, shifted-bit_or, bit_or-zero,
}
use nano_mujina.JobSource.Version.{
  GeneralPurposeBits, IsGpBits, contains, gp_value, apply_to_version, from_mask_bytes,
  base_has_general_purpose_bits, gp_bits_exceed_mask, VersionTemplate, new, apply_gp_bits,
}
use native.Mathlib.Decide.{ℕ_discrete}

-- A version with the general purpose bits of `base` clear is changed in bits 13 to 28 and nowhere
-- else, and these bits become exactly the ones given.
pub apply_to_version_fields :
    (gp : GeneralPurposeBits) (base : ℕ)
    → IsGpBits gp
    → base / 2 ^ 13 % 65536 ≡ 0
    → (apply_to_version gp base % 2 ^ 13 ≡ base % 2 ^ 13)
      × (apply_to_version gp base / 2 ^ 13 % 65536 ≡ gp_value gp)
      × (apply_to_version gp base / 2 ^ 29 ≡ base / 2 ^ 29)
unfolding apply_to_version
apply_to_version_fields gp base h clear =
    let lo : ℕ = base % 2 ^ 13 in
    let hi : ℕ = base / 2 ^ 29 in
    let parts : base ≡ hi * 2 ^ 16 * 2 ^ 13 + lo = omega arith in
    let low : bit_or base (gp_value gp * 2 ^ 13)
        ≡ bit_or (hi * 2 ^ 16) (gp_value gp) * 2 ^ 13 + lo =
      ground (arith, bit_or_fields 13 (hi * 2 ^ 16) (gp_value gp) lo 0, bit_or-zero lo) in
    let high : bit_or (hi * 2 ^ 16) (gp_value gp) ≡ hi * 2 ^ 16 + gp_value gp =
      shifted-bit_or 16 hi (gp_value gp) (omega arith) in
    omega (arith, low, high)

-- A template accepts exactly the base versions whose general purpose bits are clear.
new-ok :
    (base : ℕ) (mask : GeneralPurposeBits)
    → base / 2 ^ 13 % 65536 ≡ 0
    → new base mask ≡ ok (record { base = base; gp_bits_mask = mask })
unfolding new
new-ok base mask h = ground (arith, bit_and_mask 16 (base / 2 ^ 13))

new-err :
    (base : ℕ) (mask : GeneralPurposeBits)
    → base / 2 ^ 13 % 65536 ≢ 0
    → new base mask
      ≡ err (
          base_has_general_purpose_bits base
            (base / 2 ^ 13 % 65536 / 256)
            (base / 2 ^ 13 % 65536 % 256))
unfolding new
new-err base mask h = ground (arith, bit_and_mask 16 (base / 2 ^ 13))

-- A mask contains a value exactly when every bit of the value is set in the mask.
contains_iff :
    (mask value : GeneralPurposeBits)
    → IsGpBits mask
    → IsGpBits value
    → ((contains mask value ≡ true)
        ↔ (Within 8 value.byte0 mask.byte0 × Within 8 value.byte1 mask.byte1))
unfolding contains
contains_iff mask value (m0, m1) (v0, v1) =
    let (fwd0, back0) = bit_and_outside 8 value.byte0 mask.byte0 v0 m0 in
    let (fwd1, back1) = bit_and_outside 8 value.byte1 mask.byte1 v1 m1 in
    ((λ h. (fwd0 (ground arith), fwd1 (ground arith))), (λ w. ground (arith, back0 w.0, back1 w.1)))

-- A template rolls to a version, or refuses bits that its mask does not contain.
abbrev pub Rolls : VersionTemplate → GeneralPurposeBits → Type 0
Rolls t gp =
    ((v : ℕ) × (apply_gp_bits t gp ≡ ok v)
      × (Within 8 gp.byte0 t.gp_bits_mask.byte0 × Within 8 gp.byte1 t.gp_bits_mask.byte1)
      × (v % 2 ^ 13 ≡ t.base % 2 ^ 13)
      × (v / 2 ^ 13 % 65536 ≡ gp_value gp)
      × (v / 2 ^ 29 ≡ t.base / 2 ^ 29))
    ⊎ ((apply_gp_bits t gp ≡ err (gp_bits_exceed_mask gp t.gp_bits_mask))
        × ¬ (Within 8 gp.byte0 t.gp_bits_mask.byte0 × Within 8 gp.byte1 t.gp_bits_mask.byte1))

apply_gp_bits-Rolls :
    (t : VersionTemplate) (gp : GeneralPurposeBits)
    → IsGpBits t.gp_bits_mask
    → IsGpBits gp
    → t.base / 2 ^ 13 % 65536 ≡ 0
    → Rolls t gp
unfolding apply_gp_bits
apply_gp_bits-Rolls t gp hm hg clear = elim (Bool-cases (contains t.gp_bits_mask gp)) [
  | inl allowed ↦ inl (
    apply_to_version gp t.base,
    rw allowed,
    (contains_iff t.gp_bits_mask gp hm hg).0 allowed,
    (apply_to_version_fields gp t.base hg clear).0,
    (apply_to_version_fields gp t.base hg clear).1,
    (apply_to_version_fields gp t.base hg clear).2,
  )
  | inr refused ↦ inr (rw refused, λ w. cc (refused, (contains_iff t.gp_bits_mask gp hm hg).1 w))
]

-- Rolling the version of a template, from any base and any two pairs of bytes: creation fails
-- exactly when the base has a general purpose bit set, and then reports the two bytes of that
-- region. Otherwise rolling succeeds exactly when every bit given is allowed by the mask; the version
-- then has the given bits in positions 13 to 28 and the base's bits elsewhere, and a refused roll
-- reports the bits and the mask.
pub apply_gp_bits-new :
    (base : ℕ) (mask gp : GeneralPurposeBits)
    → IsGpBits mask
    → IsGpBits gp
    → ((base / 2 ^ 13 % 65536 ≡ 0)
        × (new base mask ≡ ok (record { base = base; gp_bits_mask = mask }))
        × Rolls (record { base = base; gp_bits_mask = mask }) gp)
      ⊎ ((base / 2 ^ 13 % 65536 ≢ 0)
          × (new base mask
              ≡ err (
                  base_has_general_purpose_bits base
                    (base / 2 ^ 13 % 65536 / 256)
                    (base / 2 ^ 13 % 65536 % 256))))
apply_gp_bits-new base mask gp hm hg = elim (ℕ_discrete (base / 2 ^ 13 % 65536) 0) [
  | yes clear ↦ inl (
    clear,
    new-ok base mask clear,
    apply_gp_bits-Rolls (record { base = base; gp_bits_mask = mask }) gp hm hg clear,
  )
  | no taken ↦ inr (taken, new-err base mask taken)
]

-- The Stratum mask of four bytes, laid over any base, allows exactly its own bits 13 to 28: as a
-- number the two bytes taken from it are these bits.
pub from_mask_bytes_value :
    (b : Bytes4)
    → IsBytes4 b
    → IsGpBits (from_mask_bytes b)
      × (gp_value (from_mask_bytes b) ≡ from_be_bytes b / 2 ^ 13 % 65536)
unfolding from_mask_bytes
from_mask_bytes_value b h = ((omega arith, omega arith), omega arith)
