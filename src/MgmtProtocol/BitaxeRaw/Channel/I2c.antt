-- ===== src/MgmtProtocol/BitaxeRaw/Channel/I2c.antt =====
-- bitaxe_raw/i2c.rs: the I2C bus on the control channel. Each operation is given what the writer
-- and the reader do meanwhile, as `send_packet` is; a buffer to read into is given by its length.
use nano_mujina.Prelude.{
  ℕ, List, [], ◌∷◌, ◌++◌, ◌==◌, if◌then◌else◌, Outcome, ok, err, ◌>>=◌, length,
}
use nano_mujina.Prelude.Bytes.{u8, Bytes4_to_list, to_le_bytes}
use nano_mujina.MgmtProtocol.BitaxeRaw.Packet.{Page, i2c, gpio, i2c_command_repr, Packet}
use nano_mujina.MgmtProtocol.BitaxeRaw.Packet
use nano_mujina.MgmtProtocol.BitaxeRaw.Response.{Response}
use nano_mujina.MgmtProtocol.BitaxeRaw.Channel.{Writer, Item, ControlChannelInner, send_packet}
use nano_mujina.MgmtProtocol.BitaxeRaw.Channel.HwError.{HwError, i2c_failed, i2c_length, map_err}

unfoldable pub write :
    ControlChannelInner
    → ℕ
    → List ℕ
    → Writer
    → List Item
    → Outcome HwError (Unit {0}) × ControlChannelInner
write c addr bytes writer arriving =
    let (result, after) =
      send_packet c (Packet.new i2c (i2c_command_repr Packet.write) (addr ∷ bytes)) writer
        arriving in
    (map_err i2c_failed result >>= λ _. ok tt, after)

-- The length check and the copy into the buffer.
unfoldable pub fill : ℕ → Response → Outcome HwError (List ℕ)
fill len response =
    if length response.payload == len
    then ok response.payload
    else err (i2c_length len (length response.payload))

unfoldable pub read :
    ControlChannelInner
    → ℕ
    → ℕ
    → Writer
    → List Item
    → Outcome HwError (List ℕ) × ControlChannelInner
read c addr len writer arriving =
    let (result, after) =
      send_packet c (Packet.new i2c (i2c_command_repr Packet.read) (addr ∷ u8 len ∷ [])) writer
        arriving in
    (map_err i2c_failed result >>= fill len, after)

unfoldable pub write_read :
    ControlChannelInner
    → ℕ
    → List ℕ
    → ℕ
    → Writer
    → List Item
    → Outcome HwError (List ℕ) × ControlChannelInner
write_read c addr bytes len writer arriving =
    let (result, after) =
      send_packet c
        (Packet.new i2c (i2c_command_repr Packet.write_read) (addr ∷ (bytes ++ (u8 len ∷ []))))
        writer arriving in
    (map_err i2c_failed result >>= fill len, after)

unfoldable pub set_frequency :
    ControlChannelInner → ℕ → Writer → List Item → Outcome HwError (Unit {0}) × ControlChannelInner
set_frequency c hz writer arriving =
    let (result, after) =
      send_packet c
        (Packet.new i2c (i2c_command_repr Packet.set_frequency) (Bytes4_to_list (to_le_bytes hz)))
        writer arriving in
    (map_err i2c_failed result >>= λ _. ok tt, after)
