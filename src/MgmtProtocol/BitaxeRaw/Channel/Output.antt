-- ===== src/MgmtProtocol/BitaxeRaw/Channel/Output.antt =====
-- What the channel writes over a sequence of requests.
use nano_mujina.Prelude.{ℕ, ◌+◌, List, [], ◌∷◌, ◌++◌, length, ltb, if◌then◌else◌}
use nano_mujina.Prelude.Bytes.{u8}
use nano_mujina.MgmtProtocol.BitaxeRaw.Packet.{Packet}
use nano_mujina.MgmtProtocol.BitaxeRaw.Packet
use nano_mujina.MgmtProtocol.BitaxeRaw.Channel.{
  Writer, ready, not_ready, Item, ControlChannelInner, with_id, send_packet,
}

-- A request with what the writer and the reader do during it.
pub record Call : Type 0 where
  pub packet : Packet
  pub writer : Writer
  pub arriving : List Item

unfoldable pub calls : ControlChannelInner → List Call → ControlChannelInner
calls c [] = c
calls c (x ∷ xs) = calls (send_packet c x.packet x.writer x.arriving).1 xs

-- The bytes of a packet that a writer takes: none when it is not ready or the packet has more than
-- 4096 bytes.
abbrev pub taken : ℕ → Packet → Writer → List ℕ
taken id packet (not_ready e) = []
taken id packet (ready flushed) =
    if ltb 4096 (6 + length packet.payload) then [] else Packet.encode (with_id packet id)

-- The packets of the calls with ids that count up with every call, modulo 256.
unfoldable pub numbered : ℕ → List Call → List ℕ
numbered id [] = []
numbered id (x ∷ xs) = taken id x.packet x.writer ++ numbered (u8 (id + 1)) xs
