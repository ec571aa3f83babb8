-- ===== src/MgmtProtocol/BitaxeRaw/Channel.antt =====
-- bitaxe_raw/channel.rs: the control channel. The lock around the channel makes each call one step on
-- its state. What the reader gives is an input: the items that are already waiting, and those that
-- arrive within the second of the timeout.
pub mod Matching
pub mod Output
pub mod HwError
pub mod Gpio
pub mod I2c
pub mod Reads
pub mod System
use nano_mujina.Prelude.{
  ℕ, ◌+◌, none, some, List, [], ◌∷◌, ◌++◌, ◌==◌, if◌then◌else◌, Outcome, ok, err, panic, ◌>>=◌,
}
use nano_mujina.Prelude.Bytes.{u8}
use nano_mujina.MgmtProtocol.BitaxeRaw.Packet.{
  i2c, gpio, set_frequency, write, read, write_read, i2c_command_repr, Packet,
}
use nano_mujina.MgmtProtocol.BitaxeRaw.Packet
use nano_mujina.MgmtProtocol.BitaxeRaw.Response.{
  ResponseFormat, Response, ResponseError, IoError, id_mismatch, protocol_error, unexpected_eof,
  timed_out,
}
use nano_mujina.MgmtProtocol.BitaxeRaw.Codec.{ControlCodec}
use nano_mujina.MgmtProtocol.BitaxeRaw.Codec

-- What the framed reader yields: `Some(Ok(…))`, `Some(Err(…))` or `None`.
pub data Item : Type 0 where
  received : Response → Item
  failed : IoError → Item
  closed : Item

-- `ControlChannelInner`: the bytes that its writer was given, the items that its reader has not
-- yielded yet, and the next id.
pub record ControlChannelInner : Type 0 where
  pub format : ResponseFormat
  pub output : List ℕ
  pub waiting : List Item
  pub next_id : ℕ

unfoldable pub new : ResponseFormat → ControlChannelInner
new format = record { format = format; output = []; waiting = []; next_id = 0 }

abbrev pub with_id : Packet → ℕ → Packet
with_id p id = record {
  id = id;
  bus = p.bus;
  page = p.page;
  command = p.command;
  payload = p.payload;
}

-- What the framed writer does during a `send`: it is not ready, since a flush of what earlier packets
-- left in it fails, or it takes the packet and its flush has a result.
pub data Writer : Type 0 where
  not_ready : IoError → Writer
  ready : Outcome IoError (Unit {0}) → Writer

-- The writer's `send`: when it is ready, encode the packet behind what the writer was given, and flush.
unfoldable pub send : ControlChannelInner → Packet → Writer → Outcome IoError (Unit {0}) × List ℕ
send c packet (not_ready e) = (err e, c.output)
send c packet (ready flushed) =
    let (encoded, output) = Codec.encode (Codec.new c.format) packet c.output in
    (encoded >>= λ _. flushed, output)

-- `send_packet_no_reply`, and the first half of `send_packet`: the id is used up even when the
-- writer fails.
unfoldable pub send_packet_no_reply :
    ControlChannelInner
    → Packet
    → Writer
    → List Item
    → Outcome IoError (Unit {0}) × ControlChannelInner
send_packet_no_reply c packet writer arriving =
    let (result, output) = send c (with_id packet c.next_id) writer in
    (
      result,
      record {
        format = c.format;
        output = output;
        waiting = c.waiting ++ arriving;
        next_id = u8 (c.next_id + 1);
      },
    )

-- The match on the reader's next item, inside the timeout.
unfoldable pub next_response : ℕ → List Item → Outcome IoError Response × List Item
next_response expected_id [] = (err timed_out, [])
next_response expected_id (received resp ∷ waiting) =
    if resp.id == expected_id
    then (ok resp, waiting)
    else (err (id_mismatch expected_id resp.id), waiting)
next_response expected_id (failed e ∷ waiting) = (err e, waiting)
next_response expected_id (closed ∷ waiting) = (err unexpected_eof, waiting)

-- `response.error()` at the end of `send_packet`.
unfoldable pub check_error : Response → Outcome IoError Response
check_error response = elim response.error [
  | none ↦ ok response
  | some error ↦ err (protocol_error error)
]

-- The second half of `send_packet`, with the result of the first.
unfoldable pub await_response :
    ℕ
    → Outcome IoError (Unit {0})
    → ControlChannelInner
    → Outcome IoError Response × ControlChannelInner
await_response expected_id (ok sent) c =
    let (response, waiting) = next_response expected_id c.waiting in
    (
      response >>= check_error,
      record { format = c.format; output = c.output; waiting = waiting; next_id = c.next_id },
    )
await_response expected_id (err e) c = (err e, c)
await_response expected_id panic c = (panic, c)

unfoldable pub send_packet :
    ControlChannelInner
    → Packet
    → Writer
    → List Item
    → Outcome IoError Response × ControlChannelInner
send_packet c packet writer arriving =
    let (result, after) = send_packet_no_reply c packet writer arriving in
    await_response c.next_id result after
