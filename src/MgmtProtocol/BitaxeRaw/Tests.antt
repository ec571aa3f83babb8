-- ===== src/MgmtProtocol/BitaxeRaw/Tests.antt =====
-- The tests of bitaxe_raw/mod.rs, and the theorems at concrete inputs.
use nano_mujina.Prelude.{
  ℕ, ◌+◌, ◌≤◌, ◌≡◌, refl, ◌↔◌, none, some, List, [], ◌∷◌, ◌++◌, arith, ok, err, panic, length,
}
use nano_mujina.Prelude.Utf8.{one, two, nil, from_utf8_lossy, lossy_from, step, start}
use nano_mujina.MgmtProtocol.BitaxeRaw.Response.{parse_error, try_from, message_of}
use nano_mujina.MgmtProtocol.BitaxeRaw.Packet.{i2c, gpio, Packet}
use nano_mujina.MgmtProtocol.BitaxeRaw.Packet
use nano_mujina.MgmtProtocol.BitaxeRaw.Response.{
  v0, v1, custom, Response, write_failed, timed_out, parse_v0, parse_v1,
}
use nano_mujina.MgmtProtocol.BitaxeRaw.Codec.{new, encode, decode}
use nano_mujina.MgmtProtocol.BitaxeRaw.Codec.Frames.{
  body, frame, decode-frame, decode-panic_iff, IsTooShort, message_bytes, IsReply, IsMessage,
}
use nano_mujina.MgmtProtocol.BitaxeRaw.Channel.{
  ready, not_ready, received, with_id, send, send_packet, send_packet_no_reply, next_response,
  await_response, check_error,
}
use nano_mujina.MgmtProtocol.BitaxeRaw.Channel.HwError.{map_err}
use nano_mujina.MgmtProtocol.BitaxeRaw.Channel.Matching.{
  channel, send_packet-ok, Exchange, exchanges, own_replies, stale_replies, exchanges-own_replies,
  timed_out-stale_replies, reply_to,
}
use nano_mujina.MgmtProtocol.BitaxeRaw.Channel.Output.{Call}
use nano_mujina.MgmtProtocol.BitaxeRaw.Channel.I2c.{write_read, fill}

abbrev reply : ℕ → List ℕ → Response
reply id payload = record { id = id; payload = payload; error = none }

-- A reply with an error of the firmware, in two letters.
abbrev error_reply : Response
error_reply = record {
  id = 3;
  payload = [];
  error = some (record { code = custom; message = some (0x6e ∷ 0xc3 ∷ 0xa9 ∷ []) });
}

abbrev two_bytes : List ℕ
two_bytes = 1 ∷ 2 ∷ []

abbrev pin_write : Packet
pin_write = Packet.new gpio 2 (0x01 ∷ [])

pin_write-small : 6 + length pin_write.payload ≤ 4096
unfolding Packet.new
pin_write-small = omega arith

error_reply-IsReply : IsReply v1 error_reply
unfolding IsReply IsMessage
error_reply-IsReply = (
  refl,
  (
    omega arith,
    one 0x6e (0xc3 ∷ 0xa9 ∷ []) (omega arith)
        (two 0xc3 0xa9 [] (omega arith, omega arith) (omega arith, omega arith) nil),
  ),
)

-- A character that is broken off is one replacement, and a byte that begins none is one.
replaced_parts :
    parse_v1 (3 ∷ 0xff ∷ 0xe2 ∷ 0x82 ∷ 0x41 ∷ 0xff ∷ [])
    ≡ ok (record {
      id = 3;
      payload = [];
      error = some (record {
        code = custom;
        message = some (0xef ∷ 0xbf ∷ 0xbd ∷ 0x41 ∷ 0xef ∷ 0xbf ∷ 0xbd ∷ []);
      });
    })
unfolding parse_v1 parse_error try_from message_of from_utf8_lossy lossy_from step start
replaced_parts = refl

error_reply-small : 2 + length (body v1 error_reply) ≤ 4096
unfolding body message_bytes
error_reply-small = omega arith

pin_reply-small : 2 + length (body v0 (reply 7 (1 ∷ []))) ≡ 4
unfolding body
pin_reply-small = refl

v0_response_parsing :
    parse_v0 (0x42 ∷ 0xff ∷ 0x00 ∷ 0x00 ∷ []) ≡ ok (reply 0x42 (0xff ∷ 0x00 ∷ 0x00 ∷ []))
unfolding parse_v0
v0_response_parsing = refl

v1_response_parsing : parse_v1 (0x42 ∷ 0x00 ∷ 0x01 ∷ []) ≡ ok (reply 0x42 (0x01 ∷ []))
unfolding parse_v1
v1_response_parsing = refl

gpio_write_packet_encoding :
    Packet.encode pin_write ≡ 0x07 ∷ 0x00 ∷ 0x00 ∷ 0x00 ∷ 0x06 ∷ 0x02 ∷ 0x01 ∷ []
unfolding Packet.encode Packet.page_repr Packet.new
gpio_write_packet_encoding = refl

decode-frame_example :
    decode (new v1) (frame v1 (body v1 error_reply) ++ (0x05 ∷ []))
    ≡ (ok (some error_reply), 0x05 ∷ [])
decode-frame_example = decode-frame v1 error_reply (0x05 ∷ []) error_reply-IsReply error_reply-small

decode-panic_iff_example : ((decode (new v1) (1 ∷ 0 ∷ [])).0 ≡ panic) ↔ IsTooShort v1 (1 ∷ 0 ∷ [])
decode-panic_iff_example = decode-panic_iff v1 (1 ∷ 0 ∷ [])

pin_write-answered :
    (send_packet (channel v0 [] [] 7) pin_write (ready (ok tt)) (received (reply 7 []) ∷ [])).0
    ≡ ok (reply 7 [])
unfolding send_packet send_packet_no_reply send await_response next_response check_error
    Packet.encode Packet.new Packet.page_repr encode new
pin_write-answered = refl

two_bytes-answered :
    (write_read
      (channel v0 [] [] 7)
      0x4c
      (0xfe ∷ [])
      2
      (ready (ok tt))
      (received (reply 7 two_bytes) ∷ [])).0
    ≡ ok two_bytes
unfolding write_read send_packet send_packet_no_reply send await_response next_response check_error
    Packet.encode Packet.new Packet.page_repr Packet.i2c_command_repr encode new fill map_err
two_bytes-answered = refl

send_packet-ok_example :
    ((send (channel v0 [] [] 7) (with_id pin_write 7) (ready (ok tt))).0 ≡ ok tt)
    × (received (reply 7 []) ∷ []
        ≡ received (reply 7 [])
          ∷ (send_packet
              (channel v0 [] [] 7)
              pin_write
              (ready (ok tt))
              (received (reply 7 []) ∷ [])).1.waiting)
    × ((reply 7 []).id ≡ 7)
    × ((reply 7 []).error ≡ none)
send_packet-ok_example =
    send_packet-ok (channel v0 [] [] 7) pin_write (ready (ok tt)) (received (reply 7 []) ∷ [])
      (reply 7 []) pin_write-answered

abbrev writes : List Exchange
writes =
    record { packet = pin_write; reply = reply 0 [] }
    ∷ record { packet = pin_write; reply = error_reply }
    ∷ []

exchanges-own_replies_example : exchanges (channel v1 [] [] 255) writes ≡ own_replies 255 writes
exchanges-own_replies_example =
    exchanges-own_replies v1 [] 255 writes (pin_write-small, (pin_write-small, tt))

timed_out-stale_replies_example :
    let (result, after) = send_packet (channel v1 [] [] 255) pin_write (ready (ok tt)) [] in
    (result ≡ err timed_out)
    × (exchanges
          (channel v1 after.output
            (received (reply_to 255 (reply 0 [])) ∷ after.waiting)
            after.next_id)
          writes
        ≡ stale_replies 255 writes)
timed_out-stale_replies_example =
    timed_out-stale_replies v1 [] 255 (record { packet = pin_write; reply = reply 0 [] })
      (record { packet = pin_write; reply = reply 0 [] })
      (record { packet = pin_write; reply = error_reply } ∷ []) (omega arith)
      (pin_write-small, (pin_write-small, (pin_write-small, tt)))

abbrev failing_calls : List Call
failing_calls =
    record { packet = pin_write; writer = ready (err write_failed); arriving = [] }
    ∷ record { packet = pin_write; writer = not_ready write_failed; arriving = [] }
    ∷ record { packet = pin_write; writer = ready (ok tt); arriving = received (reply 0 []) ∷ [] }
    ∷ []
