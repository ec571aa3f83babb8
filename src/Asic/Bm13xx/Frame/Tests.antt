-- ===== src/Asic/Bm13xx/Frame/Tests.antt =====
-- A concrete checksum library, the captures of the source's tests, and the theorems about frames at
-- concrete inputs.
use nano_mujina.Prelude.{
  ℕ, zero, suc, ◌+◌, ◌-◌, ◌*◌, ◌/◌, ◌%◌, ◌^◌, bit_xor, ◌≡◌, refl, Bool, true, false, Option, none,
  some, List, [], ◌∷◌, ◌++◌, arith, ◌==◌, if◌then◌else◌, ok, length,
}
use nano_mujina.Prelude.Bytes.{Bytes4, bytes4}
use nano_mujina.JobSource.Version.{gp_bits}
use nano_mujina.Asic.Bm13xx.Crc.{CrcAlgo, CrcAll, crc5, crc5_is_valid}
use nano_mujina.Asic.Bm13xx.Fields.{bm1370, id_bytes}
use nano_mujina.Asic.Bm13xx.Hash.{Hash}
use nano_mujina.Asic.Bm13xx.Register.Address.{RegisterAddress, repr}
use nano_mujina.Asic.Bm13xx.Register
use nano_mujina.Asic.Bm13xx.Register.{Register, encode_data, address}
use nano_mujina.Asic.Bm13xx.Command.{Command, JobMidstateFormat, build_flags}
use nano_mujina.Asic.Bm13xx.Command
use nano_mujina.Asic.Bm13xx.Command.Shape.{length_byte}
use nano_mujina.Asic.Bm13xx.Response.{Response, read_register, nonce}
use nano_mujina.Asic.Bm13xx.Frame.{encode, decode}
use nano_mujina.Asic.Bm13xx.Frame.Encode.{check_bytes, encode-frame}
use nano_mujina.Asic.Bm13xx.Frame.Stream.{Progress, decode-Progress}
use nano_mujina.Asic.Bm13xx.Frame.Content.{NonceFields, nonce_bytes, decode-nonce_bytes}
use nano_mujina.Asic.Bm13xx.Frame.Resync.{poll, poll-garbage}

-- One byte, from its highest bit on, into a checksum of `width` bits, at least 5.
feed_bits : ℕ → ℕ → ℕ → ℕ → ℕ → ℕ
feed_bits zero poly width crc byte = crc
feed_bits (suc n) poly width crc byte =
    let top : ℕ = (crc / 2 ^ (width - 1) + byte / 2 ^ n) % 2 in
    let shifted : ℕ = crc * 2 % 2 ^ width in
    feed_bits n poly width (if top == 0 then shifted else bit_xor shifted poly) byte

feed : ℕ → ℕ → ℕ → List ℕ → ℕ
unfolding feed_bits
feed poly width crc [] = crc
feed poly width crc (b ∷ bs) = feed poly width (feed_bits 8 poly width crc b) bs

-- Checksums without reflection and with no final xor, cut to their width.
bitwise_new : ℕ → ℕ → ℕ → ℕ → Bool → CrcAlgo
unfolding feed
bitwise_new poly width init xorout reflect = record {
  update_crc = feed poly width;
  finish_crc = λ crc. crc % 2 ^ width;
}

bitwise : CrcAll
unfolding bitwise_new
bitwise = record { new = bitwise_new }

abbrev chip_id_request : Command
chip_id_request = Command.read_register true 0 RegisterAddress.chip_id

-- `command_tests::read_register` and `write_register_chip_address`.
capture_read :
    encode bitwise chip_id_request [] ≡ 0x55 ∷ 0xaa ∷ 0x52 ∷ 0x05 ∷ 0x00 ∷ 0x00 ∷ 0x0a ∷ []
unfolding encode Command.encode bitwise crc5 repr
capture_read = refl

capture_write :
    encode bitwise (Command.write_register false 1 (Register.chip_id bm1370 0 1)) []
    ≡ 0x55 ∷ 0xaa ∷ 0x41 ∷ 0x09 ∷ 0x01 ∷ 0x00 ∷ 0x13 ∷ 0x70 ∷ 0x00 ∷ 0x01 ∷ 0x0a ∷ []
unfolding encode Command.encode bitwise crc5 repr Register.encode_data Register.address id_bytes
capture_write = refl

abbrev captured_nonce : NonceFields
captured_nonce = record {
  value = bytes4 0x18 0x00 0xa6 0x40;
  midstate_num = 0x02;
  job_id = 9;
  subcore_id = 9;
  version0 = 0x22;
  version1 = 0xf9;
  crc = 0x11;
}

captured_nonce_valid : crc5_is_valid bitwise (nonce_bytes captured_nonce) ≡ true
unfolding crc5_is_valid bitwise
captured_nonce_valid = refl

decode-nonce_bytes_example :
    decode bitwise
      (0xaa ∷ 0x55 ∷ 0x18 ∷ 0x00 ∷ 0xa6 ∷ 0x40 ∷ 0x02 ∷ 0x99 ∷ 0x22 ∷ 0xf9 ∷ 0x91 ∷ 0xaa ∷ [])
    ≡ ok (some (nonce 0x40a60018 9 2 (gp_bits 0x22 0xf9) 9), 0xaa ∷ [])
decode-nonce_bytes_example =
    decode-nonce_bytes bitwise captured_nonce (0xaa ∷ []) (omega arith) (omega arith) (omega arith)
      captured_nonce_valid

abbrev captured_register : Register
captured_register = Register.chip_id bm1370 0 0

encode-frame_example :
    (encode bitwise chip_id_request []
      ≡ 0x55
        ∷ 0xaa
        ∷ (Command.encode chip_id_request
            ++ check_bytes bitwise chip_id_request (Command.encode chip_id_request)))
    × (length (encode bitwise chip_id_request [])
        ≡ 2 + length_byte (Command.encode chip_id_request))
encode-frame_example = encode-frame bitwise chip_id_request tt

decode-Progress_example :
    (o : Option Response) × (rest : List ℕ) × (decode bitwise (1 ∷ 2 ∷ 3 ∷ []) ≡ ok (o, rest))
    × Progress bitwise (1 ∷ 2 ∷ 3 ∷ []) o rest
decode-Progress_example = decode-Progress bitwise (1 ∷ 2 ∷ 3 ∷ [])

poll-garbage_example :
    poll bitwise 4 (
      1 ∷ 0x55 ∷ 3 ∷ 0xaa ∷ 0x55 ∷ 0x18 ∷ 0x00 ∷ 0xa6 ∷ 0x40 ∷ 0x02 ∷ 0x99 ∷ 0x22 ∷ 0xf9 ∷ 0x91
      ∷ 0xaa ∷ [])
    ≡ ok (some (nonce 0x40a60018 9 2 (gp_bits 0x22 0xf9) 9), 0xaa ∷ [])
poll-garbage_example =
    poll-garbage bitwise (1 ∷ 0x55 ∷ 3 ∷ [])
      (0xaa ∷ 0x55 ∷ 0x18 ∷ 0x00 ∷ 0xa6 ∷ 0x40 ∷ 0x02 ∷ 0x99 ∷ 0x22 ∷ 0xf9 ∷ 0x91 ∷ 0xaa ∷ [])
      (0xaa ∷ []) (nonce 0x40a60018 9 2 (gp_bits 0x22 0xf9) 9) (omega arith) (omega arith)
      decode-nonce_bytes_example

abbrev some_hash : Hash
some_hash =
    let w : Bytes4 = bytes4 1 2 3 4 in
    record { w0 = w; w1 = w; w2 = w; w3 = w; w4 = w; w5 = w; w6 = w; w7 = w }

abbrev two_midstates : JobMidstateFormat
two_midstates = record {
  job_id = 3;
  num_midstates = 2;
  starting_nonce = bytes4 0 0 0 0;
  nbits = bytes4 0 0 0 0;
  ntime = bytes4 0 0 0 0;
  merkle4 = bytes4 0 0 0 0;
  midstate0 = some_hash;
  midstate1 = some some_hash;
  midstate2 = none;
  midstate3 = none;
}

two_midstates_length : length_byte (Command.encode (Command.job_midstate two_midstates)) ≡ 86
unfolding Command.encode
two_midstates_length = refl
