-- ===== src/Asic/Bm13xx/Frame/Content.antt =====
-- What the decoder makes of a frame, and of a frame behind other bytes.
use nano_mujina.Prelude.{
  ℕ, ◌+◌, ◌*◌, ◌/◌, ◌^◌, ◌<◌, bit_and, ◌≡◌, refl, ap, true, false, some, List, [], ◌∷◌, ◌++◌, arith,
  ltb, ok, length, length-append, take-append, drop-append,
}
use nano_mujina.Prelude.Bytes.{Bytes4, from_le_bytes}
use nano_mujina.Prelude.Bits.{bit_and_mask}
use nano_mujina.JobSource.Version.{gp_bits}
use nano_mujina.Asic.Bm13xx.Crc.{CrcAll, crc5_is_valid}
use nano_mujina.Asic.Bm13xx.Register.Address.{RegisterAddress, repr}
use nano_mujina.Asic.Bm13xx.Register
use nano_mujina.Asic.Bm13xx.Register.{Register}
use nano_mujina.Asic.Bm13xx.Response.{Response, nonce, ProtocolError}
use nano_mujina.Asic.Bm13xx.Response
use nano_mujina.Asic.Bm13xx.Frame.{decode, decode_full, accept}

-- The nine bytes behind the preamble of a nonce response: the nonce, the midstate, the job in the
-- upper and the subcore in the lower half of the header, the version bits, and 4 in the upper three
-- bits of the last byte.
pub record NonceFields : Type 0 where
  pub value : Bytes4
  pub midstate_num : ℕ
  pub job_id : ℕ
  pub subcore_id : ℕ
  pub version0 : ℕ
  pub version1 : ℕ
  pub crc : ℕ

abbrev pub nonce_bytes : NonceFields → List ℕ
nonce_bytes f =
    f.value.b0
    ∷ f.value.b1
    ∷ f.value.b2
    ∷ f.value.b3
    ∷ f.midstate_num
    ∷ (f.job_id * 16 + f.subcore_id)
    ∷ f.version0
    ∷ f.version1
    ∷ (4 * 32 + f.crc)
    ∷ []

-- The nine bytes of a register response: the contents, the chip, the register, two bytes that are
-- not read, and 0 in the upper three bits of the last byte.
abbrev pub register_bytes : Bytes4 → ℕ → RegisterAddress → ℕ → ℕ → ℕ → List ℕ
register_bytes value chip_address a x y crc =
    value.b0 ∷ value.b1 ∷ value.b2 ∷ value.b3 ∷ chip_address ∷ repr a ∷ x ∷ y ∷ crc ∷ []

Response-decode_nonce :
    (f : NonceFields)
    → f.job_id < 16
    → f.subcore_id < 16
    → f.crc < 32
    → Response.decode (nonce_bytes f)
      ≡ ok (
          nonce
            (from_le_bytes f.value)
            f.job_id
            f.midstate_num
            (gp_bits f.version0 f.version1)
            f.subcore_id)
unfolding Response.decode Response.response_type Response.decode_nonce
Response-decode_nonce f hj hs hc =
    let kind : (4 * 32 + f.crc) / 2 ^ 5 ≡ 4 = omega arith in
    let upper : bit_and ((f.job_id * 16 + f.subcore_id) / 2 ^ 4) 0x0f ≡ f.job_id =
      omega (arith, bit_and_mask 4 ((f.job_id * 16 + f.subcore_id) / 2 ^ 4)) in
    let lower : bit_and (f.job_id * 16 + f.subcore_id) 0x0f ≡ f.subcore_id =
      omega (arith, bit_and_mask 4 (f.job_id * 16 + f.subcore_id)) in
    rw kind (unfold Response.decode_as in rw (upper, lower))

module _ (lib : CrcAll) where
  -- The decoder on a buffer that starts with a frame whose checksum is right.
  decode_valid :
      (bytes rest : List ℕ) (r : Response)
      → length bytes ≡ 9
      → crc5_is_valid lib bytes ≡ true
      → Response.decode bytes ≡ ok r
      → decode lib (0xaa ∷ 0x55 ∷ (bytes ++ rest)) ≡ ok (some r, rest)
  unfolding decode decode_full accept
  decode_valid bytes rest r nine valid content =
      let long : ltb (length (0xaa ∷ 0x55 ∷ (bytes ++ rest))) 11 ≡ false =
        ground (arith, length-append bytes rest) in
      rw long (
        rw (take-append 9 bytes rest nine, valid, content)
          (ap (λ t. ok (some r, t)) (drop-append 9 bytes rest nine)))

  -- A frame of a nonce response whose checksum is right, with any bytes behind it, is decoded to
  -- its nonce, read little-endian, its job and subcore, its midstate and its version bits, and
  -- exactly the frame is consumed.
  pub decode-nonce_bytes :
      (f : NonceFields) (rest : List ℕ)
      → f.job_id < 16
      → f.subcore_id < 16
      → f.crc < 32
      → crc5_is_valid lib (nonce_bytes f) ≡ true
      → decode lib (0xaa ∷ 0x55 ∷ (nonce_bytes f ++ rest))
        ≡ ok (
          some (
              nonce
                (from_le_bytes f.value)
                f.job_id
                f.midstate_num
                (gp_bits f.version0 f.version1)
                f.subcore_id),
          rest,
        )
  decode-nonce_bytes f rest hj hs hc valid =
      decode_valid (nonce_bytes f) rest _ refl valid (Response-decode_nonce f hj hs hc)
