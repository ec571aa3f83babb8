-- ===== src/Asic/Bm13xx/Frame.antt =====
-- protocol.rs: `FrameCodec`, the frames on the serial line. A `BytesMut` is the list of its bytes.
pub mod Encode
pub mod Stream
pub mod Content
pub mod Resync
mod Tests
use nano_mujina.Prelude.{
  ℕ, ◌/◌, ◌%◌, not, Option, none, some, List, [], ◌∷◌, ◌++◌, ltb, ◌==◌, if◌then◌else◌, Outcome, ok,
  err, panic, length, take, drop,
}
use nano_mujina.Asic.Bm13xx.Crc.{CrcAll, crc5, crc5_is_valid, crc16}
use nano_mujina.Asic.Bm13xx.Command.{Command, job_full, job_midstate}
use nano_mujina.Asic.Bm13xx.Command
use nano_mujina.Asic.Bm13xx.Response.{Response, ProtocolError}
use nano_mujina.Asic.Bm13xx.Response

module _ (lib : CrcAll) where
  -- The checksum that `encode` appends: for a job, over the bytes from `start_pos`; for any other
  -- command, over `dst[2..]`.
  checksum : Command → ℕ → List ℕ → List ℕ
  checksum (job_full j) start_pos dst =
      let crc : ℕ = crc16 lib (drop start_pos dst) in (crc / 256) ∷ (crc % 256) ∷ []
  checksum (job_midstate j) start_pos dst =
      let crc : ℕ = crc16 lib (drop start_pos dst) in (crc / 256) ∷ (crc % 256) ∷ []
  checksum _ start_pos dst = crc5 lib (drop 2 dst) ∷ []

  unfoldable pub encode : Command → List ℕ → List ℕ
  unfolding checksum
  encode c dst =
      let start : List ℕ = dst ++ (0x55 ∷ 0xaa ∷ []) in
      let body : List ℕ = start ++ Command.encode c in body ++ checksum c (length start) body

  -- A frame that passes the checks: consumed whole, or by one byte if its content is refused.
  accept : Outcome ProtocolError Response → List ℕ → Outcome ⊥ (Option Response × List ℕ)
  accept (ok response) src = ok (some response, drop 11 src)
  accept (err e) src = ok (none, drop 1 src)
  accept panic src = panic

  -- On a buffer of at least 11 bytes; a shorter one does not come here.
  decode_full : List ℕ → Outcome ⊥ (Option Response × List ℕ)
  unfolding accept
  decode_full (b0 ∷ b1 ∷ rest) =
      let src : List ℕ = b0 ∷ b1 ∷ rest in
      if not (b0 == 0xaa)
      then ok (none, b1 ∷ rest)
      else if not (b1 == 0x55)
      then ok (none, b1 ∷ rest)
      else if not (crc5_is_valid lib (take 9 rest))
      then ok (none, b1 ∷ rest)
      else accept (Response.decode (take 9 rest)) src
  decode_full _ = panic

  unfoldable pub decode : List ℕ → Outcome ⊥ (Option Response × List ℕ)
  unfolding decode_full
  decode src = if ltb (length src) 11 then ok (none, src) else decode_full src
