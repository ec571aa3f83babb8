-- ===== src/Asic/Bm13xx/Register.antt =====
-- protocol.rs: the registers of a chip, their addresses, and the coding of their contents.
pub mod Address
pub mod RoundTrip
mod Tests
use nano_mujina.Prelude.{ℕ}
use nano_mujina.Prelude.Bytes.{Bytes4, bytes4, to_le_bytes, to_be_bytes, from_le_bytes}
use nano_mujina.Asic.Bm13xx.Pll
use nano_mujina.Asic.Bm13xx.Pll.{PllConfig}
use nano_mujina.Asic.Bm13xx.Ticket.{TicketMask, from_wire_bytes, to_wire_bytes}
use nano_mujina.Asic.Bm13xx.Fields.{
  ChipType, id_bytes, chip_type_from, NonceRangeConfig, BaudRate, baud_to_bytes, baud_decode,
  IoDriverStrength, strength_to_bytes, strength_decode, VersionMask, version_mask_to_bytes,
  version_mask_decode,
}
use Address.{RegisterAddress}

pub data Register : Type 0 where
  chip_id : ChipType → ℕ → ℕ → Register
  pll_divider : PllConfig → Register
  nonce_range : NonceRangeConfig → Register
  ticket_mask : TicketMask → Register
  misc_control : ℕ → Register
  uart_baud : BaudRate → Register
  uart_relay : ℕ → Register
  core : ℕ → Register
  analog_mux : ℕ → Register
  io_driver_strength : IoDriverStrength → Register
  pll3_parameter : ℕ → Register
  version_mask : VersionMask → Register
  init_control : ℕ → Register
  misc_settings : ℕ → Register

unfoldable pub decode : RegisterAddress → Bytes4 → Register
decode RegisterAddress.chip_id b = chip_id (chip_type_from b.b0 b.b1) b.b2 b.b3
decode RegisterAddress.pll_divider b = pll_divider (Pll.from_raw (from_le_bytes b))
decode RegisterAddress.nonce_range b = nonce_range (record { bytes = b })
decode RegisterAddress.ticket_mask b = ticket_mask (from_wire_bytes b)
decode RegisterAddress.misc_control b = misc_control (from_le_bytes b)
decode RegisterAddress.uart_baud b = uart_baud (baud_decode (from_le_bytes b))
decode RegisterAddress.uart_relay b = uart_relay (from_le_bytes b)
decode RegisterAddress.core b = core (from_le_bytes b)
decode RegisterAddress.analog_mux b = analog_mux (from_le_bytes b)
decode RegisterAddress.io_driver_strength b = io_driver_strength (strength_decode (from_le_bytes b))
decode RegisterAddress.pll3_parameter b = pll3_parameter (from_le_bytes b)
decode RegisterAddress.version_mask b = version_mask (version_mask_decode (from_le_bytes b))
decode RegisterAddress.init_control b = init_control (from_le_bytes b)
decode RegisterAddress.misc_settings b = misc_settings (from_le_bytes b)

unfoldable pub address : Register → RegisterAddress
address (chip_id t c a) = RegisterAddress.chip_id
address (pll_divider c) = RegisterAddress.pll_divider
address (nonce_range c) = RegisterAddress.nonce_range
address (ticket_mask m) = RegisterAddress.ticket_mask
address (misc_control v) = RegisterAddress.misc_control
address (uart_baud b) = RegisterAddress.uart_baud
address (uart_relay v) = RegisterAddress.uart_relay
address (core v) = RegisterAddress.core
address (analog_mux v) = RegisterAddress.analog_mux
address (io_driver_strength s) = RegisterAddress.io_driver_strength
address (pll3_parameter v) = RegisterAddress.pll3_parameter
address (version_mask m) = RegisterAddress.version_mask
address (init_control v) = RegisterAddress.init_control
address (misc_settings v) = RegisterAddress.misc_settings

-- The four bytes that `encode_data` appends; `put_u32` is big-endian, `put_u32_le` little-endian.
unfoldable pub encode_data : Register → Bytes4
encode_data (chip_id chip_type core_count address) =
    bytes4 (id_bytes chip_type).0 (id_bytes chip_type).1 core_count address
encode_data (pll_divider config) = Pll.to_bytes config
encode_data (nonce_range config) = config.bytes
encode_data (ticket_mask mask) = to_wire_bytes mask
encode_data (uart_baud baud) = baud_to_bytes baud
encode_data (core raw_value) = to_be_bytes raw_value
encode_data (misc_control raw_value) = to_le_bytes raw_value
encode_data (uart_relay raw_value) = to_le_bytes raw_value
encode_data (analog_mux raw_value) = to_le_bytes raw_value
encode_data (pll3_parameter raw_value) = to_le_bytes raw_value
encode_data (init_control raw_value) = to_le_bytes raw_value
encode_data (misc_settings raw_value) = to_le_bytes raw_value
encode_data (io_driver_strength strength) = strength_to_bytes strength
encode_data (version_mask mask) = version_mask_to_bytes mask
