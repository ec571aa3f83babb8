-- ===== src/JobSource/Version/Tests.antt =====
-- The examples of version.rs, and the theorems at concrete inputs.
use nano_mujina.Prelude.{◌/◌, ◌%◌, ◌^◌, ◌≡◌, refl, ◌≢◌, ◌⊎◌, arith, ok, err}
use nano_mujina.Prelude.Bytes.{bytes4}
use nano_mujina.JobSource.Version.{
  gp_bits, apply_to_version, from_mask_bytes, new, base_has_general_purpose_bits,
}
use nano_mujina.JobSource.Version.Rolling.{Rolls, apply_gp_bits-new}

doc_apply : apply_to_version (gp_bits 0x05 0xa2) 0x20000000 ≡ 0x20b44000
unfolding apply_to_version
doc_apply = refl

doc_mask : from_mask_bytes (bytes4 0x1f 0xff 0xe0 0x00) ≡ gp_bits 0xff 0xff
unfolding from_mask_bytes
doc_mask = refl

apply_gp_bits-new_example :
    ((0x20000000 / 2 ^ 13 % 65536 ≡ 0)
      × (new 0x20000000 (gp_bits 0xff 0xf0)
          ≡ ok (record { base = 0x20000000; gp_bits_mask = gp_bits 0xff 0xf0 }))
      × Rolls (record { base = 0x20000000; gp_bits_mask = gp_bits 0xff 0xf0 }) (gp_bits 0x05 0xa0))
    ⊎ ((0x20000000 / 2 ^ 13 % 65536 ≢ 0)
        × (new 0x20000000 (gp_bits 0xff 0xf0) ≡ err (base_has_general_purpose_bits 0x20000000 0 0)))
apply_gp_bits-new_example =
    apply_gp_bits-new 0x20000000 (gp_bits 0xff 0xf0) (gp_bits 0x05 0xa0) (omega arith) (omega arith)
