-- ===== src/MgmtProtocol/BitaxeRaw/Packet.antt =====
-- bitaxe_raw/mod.rs and version.rs: request packets, their pages and commands, and the version of
-- a device.
use nano_mujina.Prelude.{ℕ, ◌+◌, ◌/◌, ◌%◌, ◌^◌, bit_and, List, ◌∷◌, length}
use nano_mujina.Prelude.Bytes.{u8, u16}

pub data Page : Type 0 where
  i2c gpio adc led system : Page

unfoldable pub page_repr : Page → ℕ
page_repr i2c = 0x05
page_repr gpio = 0x06
page_repr adc = 0x07
page_repr led = 0x08
page_repr system = 0x09

pub data I2cCommand : Type 0 where
  set_frequency write read write_read : I2cCommand

unfoldable pub i2c_command_repr : I2cCommand → ℕ
i2c_command_repr set_frequency = 0x10
i2c_command_repr write = 0x20
i2c_command_repr read = 0x30
i2c_command_repr write_read = 0x40

pub record Packet : Type 0 where
  pub id : ℕ
  pub bus : ℕ
  pub page : Page
  pub command : ℕ
  pub payload : List ℕ

unfoldable pub new : Page → ℕ → List ℕ → Packet
new page command payload = record {
  id = 0;
  bus = 0x00;
  page = page;
  command = command;
  payload = payload;
}

-- `(6 + self.data.len()) as u16`, little-endian, and the fields.
unfoldable pub encode : Packet → List ℕ
encode p =
    let length : ℕ = u16 (6 + length p.payload) in
    (length % 256) ∷ (length / 256) ∷ p.id ∷ p.bus ∷ page_repr p.page ∷ p.command ∷ p.payload

pub record DeviceVersion : Type 0 where
  pub hardware : ℕ
  pub firmware_minor : ℕ
  pub firmware_patch : ℕ

unfoldable pub from_bcd : ℕ → DeviceVersion
from_bcd bcd = record {
  hardware = u8 (bcd / 2 ^ 8);
  firmware_minor = u8 (bit_and (bcd / 2 ^ 4) 0x0F);
  firmware_patch = u8 (bit_and bcd 0x0F);
}
