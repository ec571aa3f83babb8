-- ===== src/Asic/Bm13xx/Response.antt =====
-- protocol.rs and error.rs: the responses of the chips, decoded from the bytes behind the preamble.
-- `split_to` and `get_u8` panic where the buffer is too short.
use nano_mujina.Prelude.{
  ℕ, ◌/◌, ◌^◌, bit_and, Option, none, some, List, [], ◌∷◌, ◌==◌, if◌then◌else◌, Outcome, ok, err,
  panic, ◌>>=◌,
}
use nano_mujina.Prelude.Bytes.{Bytes4, bytes4, from_le_bytes}
use nano_mujina.JobSource.Version.{GeneralPurposeBits, gp_bits}
use nano_mujina.Asic.Bm13xx.Register.{Register}
use nano_mujina.Asic.Bm13xx.Register
use nano_mujina.Asic.Bm13xx.Register.Address.{RegisterAddress, from_repr}

pub data ProtocolError : Type 0 where
  invalid_register_address : ℕ → ProtocolError
  invalid_response_type : ℕ → ProtocolError
  read_only_register : RegisterAddress → ProtocolError
  invalid_frame : ProtocolError
  buffer_too_small : ℕ → ℕ → ProtocolError
  invalid_frequency : ℕ → ProtocolError

pub data ResponseType : Type 0 where
  read_register_type nonce_type : ResponseType

-- `ResponseType::from_repr`.
unfoldable pub response_type : ℕ → Option ResponseType
response_type n =
    if n == 0 then some read_register_type else if n == 4 then some nonce_type else none

pub data Response : Type 0 where
  read_register : ℕ → Register → Response
  nonce : ℕ → ℕ → ℕ → GeneralPurposeBits → ℕ → Response

abbrev Step : Type 0 → Type 0
Step A = Outcome ProtocolError (A × List ℕ)

-- `bytes[bytes.len() - 1]`.
last_byte : List ℕ → Outcome ProtocolError ℕ
last_byte [] = panic
last_byte (b ∷ []) = ok b
last_byte (b ∷ c ∷ rest) = last_byte (c ∷ rest)

get_u8 : List ℕ → Step ℕ
get_u8 [] = panic
get_u8 (b ∷ rest) = ok (b, rest)

-- `split_to(4)`, as an array.
split_to_4 : List ℕ → Step Bytes4
split_to_4 (a ∷ b ∷ c ∷ d ∷ rest) = ok (bytes4 a b c d, rest)
split_to_4 _ = panic

-- The `if let` on the register address.
unfoldable pub read_as : Option RegisterAddress → ℕ → ℕ → Bytes4 → Outcome ProtocolError Response
read_as none register_address_repr chip_address value =
    err (invalid_register_address register_address_repr)
read_as (some register_address) register_address_repr chip_address value =
    ok (read_register chip_address (Register.decode register_address value))

unfoldable pub decode_read_register : List ℕ → Outcome ProtocolError Response
unfolding split_to_4 get_u8
decode_read_register bytes = do
  (value, rest) ← split_to_4 bytes
  (chip_address, rest') ← get_u8 rest
  (register_address_repr, _) ← get_u8 rest'
  read_as (from_repr register_address_repr) register_address_repr chip_address value

-- The arguments of a nonce: the nonce, the job, the midstate, the version bits, the subcore.
unfoldable pub decode_nonce : List ℕ → Outcome ProtocolError Response
unfolding split_to_4 get_u8
decode_nonce bytes = do
  (value, rest) ← split_to_4 bytes
  (midstate_num, rest') ← get_u8 rest
  (result_header, rest'') ← get_u8 rest'
  (version0, rest3) ← get_u8 rest''
  (version1, _) ← get_u8 rest3
  ok (
      nonce (from_le_bytes value) (bit_and (result_header / 2 ^ 4) 0x0f) midstate_num
        (gp_bits version0 version1) (bit_and result_header 0x0f))

-- The `match` on the type.
unfoldable pub decode_as : Option ResponseType → ℕ → List ℕ → Outcome ProtocolError Response
decode_as none type_repr bytes = err (invalid_response_type type_repr)
decode_as (some read_register_type) type_repr bytes = decode_read_register bytes
decode_as (some nonce_type) type_repr bytes = decode_nonce bytes

unfoldable pub decode : List ℕ → Outcome ProtocolError Response
unfolding last_byte
decode bytes = last_byte bytes >>= λ type_and_crc.
    decode_as (response_type (type_and_crc / 2 ^ 5)) (type_and_crc / 2 ^ 5) bytes
