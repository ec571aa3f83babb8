-- ===== src/MgmtProtocol/BitaxeRaw/Channel/System.antt =====
-- bitaxe_raw/system.rs: commands that the device does not answer.
use nano_mujina.Prelude.{List, [], ◌∷◌, Outcome}
use nano_mujina.MgmtProtocol.BitaxeRaw.Packet.{Packet, system}
use nano_mujina.MgmtProtocol.BitaxeRaw.Packet
use nano_mujina.MgmtProtocol.BitaxeRaw.Response.{IoError}
use nano_mujina.MgmtProtocol.BitaxeRaw.Channel.{
  Writer, Item, ControlChannelInner, send_packet_no_reply,
}

unfoldable pub reboot :
    ControlChannelInner → Writer → List Item → Outcome IoError (Unit {0}) × ControlChannelInner
reboot c writer arriving =
    send_packet_no_reply c (Packet.new system 0x01 (0xDE ∷ 0xAD ∷ 0xBE ∷ 0xEF ∷ [])) writer arriving

unfoldable pub reboot_to_bootloader :
    ControlChannelInner → Writer → List Item → Outcome IoError (Unit {0}) × ControlChannelInner
reboot_to_bootloader c writer arriving =
    send_packet_no_reply c (Packet.new system 0x02 (0xB0 ∷ 0x07 ∷ 0x10 ∷ 0xAD ∷ [])) writer arriving
