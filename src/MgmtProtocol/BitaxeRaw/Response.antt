-- ===== src/MgmtProtocol/BitaxeRaw/Response.antt =====
-- bitaxe_raw/mod.rs: responses and their two formats. A message is a string, the list of its UTF-8 bytes.
use nano_mujina.Prelude.{
  ℕ, Option, none, some, List, [], ◌∷◌, ◌==◌, if◌then◌else◌, Outcome, ok, err, panic,
}
use nano_mujina.Prelude.Utf8.{from_utf8_lossy}

pub data ResponseFormat : Type 0 where
  v0 v1 : ResponseFormat

abbrev pub status_ok : ℕ
status_ok = 0x00

pub data ErrorCode : Type 0 where
  timeout invalid_command buffer_overflow custom : ErrorCode

unfoldable pub error_code_repr : ErrorCode → ℕ
error_code_repr timeout = 0x10
error_code_repr invalid_command = 0x11
error_code_repr buffer_overflow = 0x12
error_code_repr custom = 0xff

-- `ErrorCode::try_from(u8)`.
unfoldable pub try_from : ℕ → Outcome ℕ ErrorCode
try_from value =
    if value == 0x10
    then ok timeout
    else if value == 0x11
    then ok invalid_command
    else if value == 0x12
    then ok buffer_overflow
    else if value == 0xff
    then ok custom
    else err value

pub record ResponseError : Type 0 where
  pub code : ErrorCode
  pub message : Option (List ℕ)

pub record Response : Type 0 where
  pub id : ℕ
  pub payload : List ℕ
  pub error : Option ResponseError

-- The `io::Error`s of the module, and those of the stream below it.
pub data IoError : Type 0 where
  too_short : IoError
  v1_too_short : IoError
  unknown_error_code : ℕ → IoError
  packet_too_large : ℕ → IoError
  id_mismatch : ℕ → ℕ → IoError
  protocol_error : ResponseError → IoError
  unexpected_eof timed_out write_failed : IoError

unfoldable pub parse_v0 : List ℕ → Outcome IoError Response
parse_v0 [] = err too_short
parse_v0 (id ∷ payload) = ok (record { id = id; payload = payload; error = none })

-- The message of an error: for a custom error with a payload, the payload as a string.
unfoldable pub message_of : ErrorCode → List ℕ → Option (List ℕ)
message_of custom (b ∷ payload) = some (from_utf8_lossy (b ∷ payload))
message_of _ _ = none

-- What a status other than success makes of the response.
unfoldable pub parse_error : ℕ → List ℕ → Outcome ℕ ErrorCode → Outcome IoError Response
parse_error id payload (ok code) = ok (record {
  id = id;
  payload = [];
  error = some (record { code = code; message = message_of code payload });
})
parse_error id payload (err unknown) = err (unknown_error_code unknown)
parse_error id payload panic = panic

unfoldable pub parse_v1 : List ℕ → Outcome IoError Response
parse_v1 (id ∷ status ∷ payload) =
    if status == status_ok
    then ok (record { id = id; payload = payload; error = none })
    else parse_error id payload (try_from status)
parse_v1 _ = err v1_too_short

unfoldable pub parse : ResponseFormat → List ℕ → Outcome IoError Response
parse v0 bytes = parse_v0 bytes
parse v1 bytes = parse_v1 bytes
