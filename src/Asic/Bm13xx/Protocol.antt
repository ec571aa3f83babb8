-- ===== src/Asic/Bm13xx/Protocol.antt =====
-- protocol.rs: `BM13xxProtocol`, which turns high-level operations into commands. Arithmetic on u8
-- and u32 wraps, as in a build without overflow checks.
pub mod Chain
pub mod Write
mod Tests
use nano_mujina.Prelude.{
  ℕ, zero, suc, ◌+◌, ◌-◌, ◌*◌, ◌/◌, ◌^◌, min, bit_or, true, false, not, List, [], ◌∷◌, ◌++◌, ◌==◌,
  if◌then◌else◌, Outcome, ok, err, panic, ◌>>=◌,
}
use nano_mujina.Prelude.Bytes.{u8, u32, to_le_bytes}
use nano_mujina.Asic.Bm13xx.Pll.{PllConfig, Float32, calculate_pll}
use nano_mujina.Asic.Bm13xx.Pll
use nano_mujina.Asic.Bm13xx.Ticket
use nano_mujina.Asic.Bm13xx.Ticket.{TicketMask, from_wire_bytes, from_difficulty}
use nano_mujina.Asic.Bm13xx.Fields.{
  BaudRate, custom, IoDriverStrength, normal, domain_boundary, strength_decode, VersionMask,
  full_rolling, version_mask_decode, multi_chip,
}
use nano_mujina.Asic.Bm13xx.Register.{Register}
use nano_mujina.Asic.Bm13xx.Register
use nano_mujina.Asic.Bm13xx.Register.Address.{RegisterAddress}
use nano_mujina.Asic.Bm13xx.Command.{
  Command, set_chip_address, chain_inactive, read_register, write_register,
}
use nano_mujina.Asic.Bm13xx.Response.{ProtocolError, read_only_register}

abbrev pub broadcast_write : Register → Command
broadcast_write register = write_register true 0x00 register

abbrev pub write_to : ℕ → Register → Command
write_to chip_address register = write_register false chip_address register

-- `Frequency` is its megahertz.
unfoldable pub single_chip_init : (f32 : Float32) → f32.F → List Command
single_chip_init f32 frequency =
    broadcast_write (Register.version_mask full_rolling)
    ∷ broadcast_write (Register.pll_divider (calculate_pll f32 frequency))
    ∷ []

unfoldable pub configure_nonce_ranges : ℕ → List Command
configure_nonce_ranges chain_length =
    broadcast_write (Register.nonce_range (multi_chip chain_length)) ∷ []

-- `(i as u8) * ADDRESS_INCREMENT`.
unfoldable pub chip_address : ℕ → ℕ
chip_address i = u8 (u8 i * 2)

-- The loop `for i in 0..chain_length`, `todo` rounds before its end.
unfoldable pub assign_addresses : ℕ → ℕ → List Command
assign_addresses zero i = []
assign_addresses (suc todo) i = set_chip_address (chip_address i) ∷ assign_addresses todo (i + 1)

-- The f64 of the difficulty 256 is 256.0, whose logarithm is 8.0.
unfoldable pub multi_chip_init : ℕ → List Command
multi_chip_init chain_length =
    broadcast_write (Register.version_mask full_rolling)
    ∷ broadcast_write (Register.init_control 0x00000700)
    ∷ broadcast_write (Register.misc_control 0x0000c1f0)
    ∷ chain_inactive
    ∷ (assign_addresses chain_length 0
        ++ (broadcast_write (Register.core 0x00008b80)
            ∷ broadcast_write (Register.core 0x0c800080)
            ∷ broadcast_write (Register.ticket_mask (Ticket.new (from_difficulty true 8)))
            ∷ broadcast_write (Register.io_driver_strength normal)
            ∷ configure_nonce_ranges chain_length))

-- `((domain + 1) * chips_per_domain - 1).min(chain_length - 1)`.
abbrev pub last_chip : ℕ → ℕ → ℕ → ℕ
last_chip chain_length chips_per_domain domain =
    min ((domain + 1) * chips_per_domain - 1) (chain_length - 1)

-- The first loop of `configure_domains`.
unfoldable pub boundary_strengths : ℕ → ℕ → ℕ → ℕ → List Command
boundary_strengths zero domain chain_length chips_per_domain = []
boundary_strengths (suc todo) domain chain_length chips_per_domain =
    write_to (chip_address (last_chip chain_length chips_per_domain domain))
      (Register.io_driver_strength domain_boundary)
    ∷ boundary_strengths todo (domain + 1) chain_length chips_per_domain

-- `UART_RELAY_BASE | (relay_offset << 8)`.
abbrev pub relay : ℕ → ℕ → Register
relay domain chips_per_domain =
    Register.uart_relay (bit_or 0x03000000 (u32 (u32 (domain * chips_per_domain) * 2 ^ 8)))

-- The second loop.
unfoldable pub uart_relays : ℕ → ℕ → ℕ → ℕ → List Command
uart_relays zero domain chain_length chips_per_domain = []
uart_relays (suc todo) domain chain_length chips_per_domain =
    let first : ℕ = domain * chips_per_domain in
    let last : ℕ = last_chip chain_length chips_per_domain domain in
    write_to (chip_address first) (relay domain chips_per_domain)
    ∷ ((if not (first == last)
          then write_to (chip_address last) (relay domain chips_per_domain) ∷ []
          else [])
        ++ uart_relays todo (domain + 1) chain_length chips_per_domain)

-- `div_ceil` panics if there are no chips in a domain; for an empty chain there are no domains.
unfoldable pub configure_domains : ℕ → ℕ → Outcome ⊥ (List Command)
unfolding boundary_strengths uart_relays
configure_domains chain_length chips_per_domain =
    if chips_per_domain == 0
    then panic
    else let num_domains : ℕ = (chain_length + (chips_per_domain - 1)) / chips_per_domain in
      ok (
        boundary_strengths num_domains 0 chain_length chips_per_domain
        ++ uart_relays num_domains 0 chain_length chips_per_domain)

unfoldable pub read_register_command : ℕ → RegisterAddress → Command
read_register_command chip_address register = read_register false chip_address register

unfoldable pub set_baudrate : BaudRate → Command
set_baudrate baudrate = write_register true 0x00 (Register.uart_baud baudrate)

unfoldable pub discover_chips : Command
discover_chips = read_register true 0 RegisterAddress.chip_id

-- The register that `write_register` makes of a u32.
unfoldable pub register_value : RegisterAddress → ℕ → Outcome ProtocolError Register
register_value RegisterAddress.chip_id value = err (read_only_register RegisterAddress.chip_id)
register_value RegisterAddress.pll_divider value = ok (Register.pll_divider (Pll.from_raw value))
register_value RegisterAddress.nonce_range value =
    ok (Register.nonce_range (record { bytes = to_le_bytes value }))
register_value RegisterAddress.ticket_mask value =
    ok (Register.ticket_mask (from_wire_bytes (to_le_bytes value)))
register_value RegisterAddress.misc_control value = ok (Register.misc_control value)
register_value RegisterAddress.uart_baud value = ok (Register.uart_baud (custom value))
register_value RegisterAddress.uart_relay value = ok (Register.uart_relay value)
register_value RegisterAddress.core value = ok (Register.core value)
register_value RegisterAddress.analog_mux value = ok (Register.analog_mux value)
register_value RegisterAddress.io_driver_strength value =
    ok (Register.io_driver_strength (strength_decode value))
register_value RegisterAddress.pll3_parameter value = ok (Register.pll3_parameter value)
register_value RegisterAddress.version_mask value =
    ok (Register.version_mask (version_mask_decode value))
register_value RegisterAddress.init_control value = ok (Register.init_control value)
register_value RegisterAddress.misc_settings value = ok (Register.misc_settings value)

unfoldable pub write_register_command : ℕ → RegisterAddress → ℕ → Outcome ProtocolError Command
write_register_command chip_address register value =
    register_value register value >>= λ r. ok (write_register false chip_address r)
