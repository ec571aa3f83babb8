-- ===== src/MgmtProtocol/BitaxeRaw/Channel/Reads.antt =====
-- What a read on the I2C bus returns.
use nano_mujina.Prelude.{
  ℕ, ◌≡◌, refl, none, List, [], ◌∷◌, ◌++◌, arith, ltb, if◌then◌else◌, Outcome, ok, err, panic,
  ◌>>=◌, length,
}
use nano_mujina.Prelude.Bytes.{u8}
use nano_mujina.MgmtProtocol.BitaxeRaw.Packet.{Page, i2c, i2c_command_repr, Packet}
use nano_mujina.MgmtProtocol.BitaxeRaw.Packet
use nano_mujina.MgmtProtocol.BitaxeRaw.Response.{Response, ResponseFormat, IoError}
use nano_mujina.MgmtProtocol.BitaxeRaw.Channel.{
  Writer, ready, Item, received, ControlChannelInner, send_packet, check_error,
}
use nano_mujina.MgmtProtocol.BitaxeRaw.Channel.HwError.{i2c_failed, i2c_length, map_err}
use nano_mujina.MgmtProtocol.BitaxeRaw.Channel.Matching.{
  channel, send_packet-ok, reply_to, ask_first, own_reply,
}
use nano_mujina.MgmtProtocol.BitaxeRaw.Channel.I2c.{fill, read, write_read}

fill-ok :
    (len : ℕ) (o : Outcome IoError Response) (bytes : List ℕ)
    → map_err i2c_failed o >>= fill len ≡ ok bytes
    → (r : Response) × (o ≡ ok r) × (r.payload ≡ bytes) × (length bytes ≡ len)
unfolding fill map_err
fill-ok len (ok r) bytes h = (r, refl, ground (arith, h), ground (arith, h))
fill-ok len (err e) bytes h = absurd (ground (arith, h))
fill-ok len panic bytes h = absurd (ground (arith, h))

-- A read that succeeds fills the whole buffer, with the data of the next response in the stream,
-- which has the id of the request and no error.
write_read-ok :
    (c : ControlChannelInner) (addr : ℕ) (written : List ℕ) (len : ℕ) (writer : Writer)
    (arriving : List Item) (bytes : List ℕ)
    → (write_read c addr written len writer arriving).0 ≡ ok bytes
    → (length bytes ≡ len)
      × ((r : Response) × (c.waiting ++ arriving
            ≡ received r ∷ (write_read c addr written len writer arriving).1.waiting)
          × (r.id ≡ c.next_id)
          × (r.error ≡ none)
          × (r.payload ≡ bytes))
unfolding write_read
write_read-ok c addr written len writer arriving bytes h =
    let packet : Packet =
      Packet.new i2c (i2c_command_repr Packet.write_read) (addr ∷ (written ++ (u8 len ∷ []))) in
    let (r, same, payload, filled) = fill-ok len (send_packet c packet writer arriving).0 bytes h in
    let (_, first, id, clean) = send_packet-ok c packet writer arriving r same in
    (filled, (r, first, id, clean, payload))

fill-asked :
    (len n : ℕ) (bytes : List ℕ)
    → length bytes ≡ u8 len
    → fill len (record { id = n; payload = bytes; error = none })
      ≡ (if ltb len 256 then ok bytes else err (i2c_length len (u8 len)))
unfolding fill
fill-asked len n bytes h = ground arith

-- A device that answers a read with as many bytes as the request asks for: reads of fewer than 256
-- bytes return the bytes, and a longer one always fails, since the request asks for its length
-- modulo 256.
pub read-asked :
    (f : ResponseFormat) (output : List ℕ) (n addr len : ℕ) (bytes : List ℕ)
    → length bytes ≡ u8 len
    → let reply : Response = record { id = n; payload = bytes; error = none } in
      (read (channel f output [] n) addr len (ready (ok tt)) (received reply ∷ [])).0
      ≡ (if ltb len 256 then ok bytes else err (i2c_length len (u8 len)))
unfolding read reply_to map_err check_error Packet.new
read-asked f output n addr len bytes h =
    let reply : Response = record { id = n; payload = bytes; error = none } in
    let packet : Packet = Packet.new i2c (i2c_command_repr Packet.read) (addr ∷ u8 len ∷ []) in
    rw (ask_first f output [] n packet (received reply) (omega arith), own_reply n reply)
      (fill-asked len n bytes h)
