-- ===== src/MgmtProtocol/BitaxeRaw/Codec.antt =====
-- bitaxe_raw/mod.rs: `ControlCodec`. Each call returns its result and what it left in the buffer.
pub mod Frames
pub mod Requests
use nano_mujina.Prelude.{
  ℕ, ◌+◌, ◌*◌, Option, none, some, List, ◌∷◌, ◌++◌, ltb, if◌then◌else◌, Outcome, ok, err, panic,
  ◌>>=◌, length, take, drop,
}
use nano_mujina.MgmtProtocol.BitaxeRaw.Packet
use nano_mujina.MgmtProtocol.BitaxeRaw.Packet.{Packet}
use nano_mujina.MgmtProtocol.BitaxeRaw.Response.{
  ResponseFormat, v0, v1, Response, IoError, packet_too_large, parse,
}

pub record ControlCodec : Type 0 where
  pub format : ResponseFormat
  pub max_length : ℕ

unfoldable pub new : ResponseFormat → ControlCodec
new format = record { format = format; max_length = 4096 }

-- V0 counts the data alone, V1 the whole packet.
unfoldable pub total_size : ResponseFormat → ℕ → ℕ
total_size v0 length_field = 2 + 1 + length_field
total_size v1 length_field = length_field

-- `packet_data[2..]`, which panics on fewer than two bytes.
unfoldable pub from_two : List ℕ → Outcome IoError (List ℕ)
from_two (a ∷ b ∷ rest) = ok rest
from_two _ = panic

abbrev some_response : Outcome IoError Response → Outcome IoError (Option Response)
some_response r = r >>= λ x. ok (some x)

-- From the length check on, with the length field read.
unfoldable pub decode_sized : ControlCodec → ℕ → List ℕ → Outcome IoError (Option Response) × List ℕ
unfolding from_two
decode_sized c total src =
    if ltb c.max_length total
    then (err (packet_too_large total), src)
    else if ltb (length src) total
    then (ok none, src)
    else (some_response (from_two (take total src) >>= parse c.format), drop total src)

unfoldable pub decode : ControlCodec → List ℕ → Outcome IoError (Option Response) × List ℕ
unfolding decode_sized
decode c (a ∷ b ∷ rest) = decode_sized c (total_size c.format (a + b * 256)) (a ∷ b ∷ rest)
decode c src = (ok none, src)

unfoldable pub encode : ControlCodec → Packet → List ℕ → Outcome IoError (Unit {0}) × List ℕ
encode c item dst =
    let encoded : List ℕ = Packet.encode item in
    if ltb c.max_length (length encoded)
    then (err (packet_too_large (length encoded)), dst)
    else (ok tt, dst ++ encoded)
