-- ===== src/Asic/Bm13xx/Ticket.antt =====
-- protocol.rs: the ticket mask, which sets how many zero bits a reported nonce must have.
use nano_mujina.Prelude.{
  ℕ, zero, suc, ◌+◌, ◌-◌, ◌*◌, ◌/◌, ◌%◌, ◌^◌, ◌<◌, bit_and, bit_or, ◌≡◌, refl, ap, Bool, true, ◌==◌,
  if◌then◌else◌, ==_iff, all_below, all_below-holds,
}
use nano_mujina.Prelude.Bytes.{u8, Bytes4, bytes4}

-- `Log2Difficulty`: the exponent of a power of two.
pub record Log2Difficulty : Type 0 where
  pub exponent : ℕ

-- `from_difficulty`, from what it computes on the f64 of a difficulty: whether it is at least 1.0, and
-- the floor of its logarithm as a u8.
unfoldable pub from_difficulty : Bool → ℕ → Log2Difficulty
from_difficulty at_least_one log2 = record { exponent = if at_least_one then log2 else 0 }

pub record TicketMask : Type 0 where
  pub zero_bits : ℕ

unfoldable pub new : Log2Difficulty → TicketMask
new difficulty = record { zero_bits = difficulty.exponent }

-- One round of `reverse_bits`: `result = (result << 1) | (b & 1)` on a u8.
reverse_loop : ℕ → ℕ → ℕ → ℕ
reverse_loop zero result b = result
reverse_loop (suc rounds) result b =
    reverse_loop rounds (bit_or (u8 (result * 2)) (bit_and b 1)) (b / 2)

unfoldable pub reverse_bits : ℕ → ℕ
unfolding reverse_loop
reverse_bits byte = reverse_loop 8 0 byte

-- `(1u32 << zero_bits) - 1`, whose shift is taken modulo 32; byte 3 - i of the result is the
-- reversed byte i of the mask value.
unfoldable pub to_wire_bytes : TicketMask → Bytes4
to_wire_bytes mask =
    if mask.zero_bits == 0
    then bytes4 0 0 0 0
    else let mask_value : ℕ = 2 ^ (mask.zero_bits % 32) - 1 in
      bytes4 (reverse_bits (u8 (bit_and (mask_value / 2 ^ 24) 0xff)))
        (reverse_bits (u8 (bit_and (mask_value / 2 ^ 16) 0xff)))
        (reverse_bits (u8 (bit_and (mask_value / 2 ^ 8) 0xff)))
        (reverse_bits (u8 (bit_and mask_value 0xff)))

-- `decode_ticket_mask_bytes`: the or of the four reversed bytes, shifted into place.
unfoldable pub decode_ticket_mask_bytes : Bytes4 → ℕ
decode_ticket_mask_bytes b =
    bit_or
      (bit_or (bit_or (bit_or 0 (reverse_bits b.b3)) (reverse_bits b.b2 * 2 ^ 8))
        (reverse_bits b.b1 * 2 ^ 16))
      (reverse_bits b.b0 * 2 ^ 24)

-- `count_ones` of a u32.
ones : ℕ → ℕ → ℕ
ones zero n = 0
ones (suc bits) n = n % 2 + ones bits (n / 2)

unfoldable pub count_ones : ℕ → ℕ
unfolding ones
count_ones n = ones 32 n

-- The mask that the bytes of a register stand for, in `Register::decode` and `write_register`.
unfoldable pub from_wire_bytes : Bytes4 → TicketMask
from_wire_bytes b = record { zero_bits = u8 (count_ones (decode_ticket_mask_bytes b)) }

-- Whether a number of zero bits is read back.
round_trips : ℕ → Bool
round_trips z = (from_wire_bytes (to_wire_bytes (record { zero_bits = z }))).zero_bits == z

round_trip_table : all_below round_trips 32 ≡ true
unfolding all_below round_trips to_wire_bytes from_wire_bytes decode_ticket_mask_bytes count_ones
    reverse_bits
round_trip_table = refl

-- Every mask of at most 31 extra zero bits is read back from the bytes that it is sent as.
pub from_wire_bytes-to_wire_bytes :
    (mask : TicketMask) → mask.zero_bits < 32 → from_wire_bytes (to_wire_bytes mask) ≡ mask
unfolding round_trips
from_wire_bytes-to_wire_bytes mask h =
    ap (λ z. record { zero_bits = z })
      ((==_iff _ mask.zero_bits).0
        (all_below-holds round_trips 32 mask.zero_bits h round_trip_table))
