-- ===== src/Asic/Bm13xx/Protocol/Write.antt =====
-- Writing a register by its address and a number.
use nano_mujina.Prelude.{
  ℕ, ◌/◌, ◌%◌, ◌^◌, ◌≡◌, refl, ◌≢◌, ◌⊎◌, inl, inr, false, arith, Outcome, ok, err,
}
use nano_mujina.Prelude.Bytes.{IsU32, Bytes4, to_le_bytes, to_be_bytes}
use nano_mujina.Prelude.Bits.{bit_and_mask}
use nano_mujina.Asic.Bm13xx.Pll
use nano_mujina.Asic.Bm13xx.Fields.{
  strength_decode, strength_to_bytes, version_mask_decode, version_mask_to_bytes, baud_to_bytes,
}
use nano_mujina.Asic.Bm13xx.Register.{Register, encode_data, address}
use nano_mujina.Asic.Bm13xx.Register.RoundTrip.{nibble_lem, pack_lem, byte_mask}
use nano_mujina.Asic.Bm13xx.Register.Address.{RegisterAddress}
use nano_mujina.Asic.Bm13xx.Command.{write_register}
use nano_mujina.Asic.Bm13xx.Response.{ProtocolError, read_only_register}
use nano_mujina.Asic.Bm13xx.Protocol.{register_value, write_register_command}

-- The bytes that stand for a value in a register: big-endian in the core register.
abbrev pub value_bytes : RegisterAddress → ℕ → Bytes4
value_bytes RegisterAddress.core v = to_be_bytes v
value_bytes _ v = to_le_bytes v

-- The value reaches the chip unchanged.
abbrev pub Sends : RegisterAddress → ℕ → Outcome ProtocolError Register → Type 0
Sends a v result =
    (r : Register) × (result ≡ ok r) × (address r ≡ a) × (encode_data r ≡ value_bytes a v)

pll_bytes : (v : ℕ) → IsU32 v → Pll.to_bytes (Pll.from_raw v) ≡ to_le_bytes v
unfolding Pll.to_bytes Pll.from_raw
pll_bytes v h =
    ground
      (arith, byte_mask v, byte_mask (v / 2 ^ 8), byte_mask (v / 2 ^ 16), byte_mask (v / 2 ^ 24))

strength_bytes : (v : ℕ) → IsU32 v → strength_to_bytes (strength_decode v) ≡ to_le_bytes v
unfolding strength_to_bytes strength_decode
strength_bytes v h = simp nibble_lem (
    ground (
      arith,
      pack_lem (v / 1 % 16) (v / 16 % 16),
      pack_lem (v / 256 % 16) (v / 4096 % 16),
      pack_lem (v / 65536 % 16) (v / 1048576 % 16),
      pack_lem (v / 16777216 % 16) (v / 268435456 % 16),
    ))

version_bytes : (v : ℕ) → IsU32 v → version_mask_to_bytes (version_mask_decode v) ≡ to_le_bytes v
unfolding version_mask_to_bytes version_mask_decode
version_bytes v h = ground (arith, bit_and_mask 16 v)

register_value-Sends :
    (a : RegisterAddress) (v : ℕ)
    → IsU32 v
    → a ≢ RegisterAddress.chip_id
    → a ≢ RegisterAddress.ticket_mask
    → Sends a v (register_value a v)
unfolding register_value address encode_data
register_value-Sends RegisterAddress.chip_id v h c t = absurd (c refl)
register_value-Sends RegisterAddress.ticket_mask v h c t = absurd (t refl)
register_value-Sends RegisterAddress.pll_divider v h c t = (_, refl, refl, pll_bytes v h)
register_value-Sends RegisterAddress.io_driver_strength v h c t =
    (_, refl, refl, strength_bytes v h)
register_value-Sends RegisterAddress.version_mask v h c t = (_, refl, refl, version_bytes v h)
register_value-Sends RegisterAddress.uart_baud v h c t =
    (_, refl, refl, unfold baud_to_bytes in refl)
register_value-Sends _ v h c t = (_, refl, refl, refl)

-- Writing a u32 to a register by its address: the chip id is refused as read-only, and for any
-- other register but the ticket mask the command is a targeted write of a register with that
-- address whose four bytes are the value, big-endian for the core register and little-endian for
-- the others.
write_register_command-Sends :
    (chip : ℕ) (a : RegisterAddress) (v : ℕ)
    → IsU32 v
    → a ≢ RegisterAddress.ticket_mask
    → ((a ≡ RegisterAddress.chip_id)
        × (write_register_command chip a v ≡ err (read_only_register a)))
      ⊎ ((r : Register) × (write_register_command chip a v ≡ ok (write_register false chip r))
          × (address r ≡ a)
          × (encode_data r ≡ value_bytes a v))
unfolding write_register_command
write_register_command-Sends chip RegisterAddress.chip_id v h t =
    inl (refl, unfold register_value in refl)
write_register_command-Sends chip a v h t =
    let (r, made, at, bytes) = register_value-Sends a v h (λ e. cc) t in inr (r, rw made, at, bytes)
