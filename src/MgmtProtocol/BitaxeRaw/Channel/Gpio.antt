-- ===== src/MgmtProtocol/BitaxeRaw/Channel/Gpio.antt =====
-- bitaxe_raw/gpio.rs: pins on the control channel. Each operation is given what the writer and the
-- reader do meanwhile, as `send_packet` is.
use nano_mujina.Prelude.{ℕ, List, [], ◌∷◌, ◌==◌, if◌then◌else◌, Outcome, ok, err, ◌>>=◌, length}
use nano_mujina.MgmtProtocol.BitaxeRaw.Packet.{Page, i2c, gpio, i2c_command_repr, Packet}
use nano_mujina.MgmtProtocol.BitaxeRaw.Packet
use nano_mujina.MgmtProtocol.BitaxeRaw.Channel.{Writer, Item, ControlChannelInner, send_packet}
use nano_mujina.MgmtProtocol.BitaxeRaw.Channel.HwError.{
  HwError, io, invalid_parameter, length_mismatch, map_err,
}

pub data PinValue : Type 0 where
  low high : PinValue

-- `if bool::from(value) { 0x01 } else { 0x00 }`.
unfoldable pub pin_byte : PinValue → ℕ
pin_byte low = 0x00
pin_byte high = 0x01

unfoldable pub write :
    ControlChannelInner
    → ℕ
    → PinValue
    → Writer
    → List Item
    → Outcome HwError (Unit {0}) × ControlChannelInner
write c number value writer arriving =
    let (result, after) =
      send_packet c (Packet.new gpio number (pin_byte value ∷ [])) writer arriving in
    (map_err io result >>= λ _. ok tt, after)

-- The check that the reply has one byte, and what the byte says.
unfoldable pub pin_value : List ℕ → Outcome HwError PinValue
pin_value (b ∷ []) = if b == 0 then ok low else ok high
pin_value payload = err (invalid_parameter (length_mismatch 1 (length payload)))

unfoldable pub read :
    ControlChannelInner → ℕ → Writer → List Item → Outcome HwError PinValue × ControlChannelInner
read c number writer arriving =
    let (result, after) = send_packet c (Packet.new gpio number []) writer arriving in
    (map_err io result >>= λ response. pin_value response.payload, after)
