-- ===== src/Asic/Bm13xx/Frame/Encode.antt =====
-- The frame that carries a command.
use nano_mujina.Prelude.{
  ℕ, ◌+◌, ◌/◌, ◌%◌, ◌≡◌, refl, Bool, true, false, List, [], ◌∷◌, ◌++◌, append_assoc, arith,
  if◌then◌else◌, length, drop, length-append, drop-append,
}
use nano_mujina.Asic.Bm13xx.Crc.{CrcAll, crc5, crc16}
use nano_mujina.Asic.Bm13xx.Command.{
  Command, set_chip_address, chain_inactive, read_register, write_register, job_full, job_midstate,
}
use nano_mujina.Asic.Bm13xx.Command
use nano_mujina.Asic.Bm13xx.Command.Shape.{IsCounted, crc_length, length_byte, length_byte-encode}
use nano_mujina.Asic.Bm13xx.Frame.{encode, checksum}

module _ (lib : CrcAll) where
  -- The checksum of a command over some bytes: crc16 for jobs, the high byte first, else crc5.
  abbrev pub check_bytes : Command → List ℕ → List ℕ
  check_bytes (job_full j) bytes = (crc16 lib bytes / 256) ∷ (crc16 lib bytes % 256) ∷ []
  check_bytes (job_midstate j) bytes = (crc16 lib bytes / 256) ∷ (crc16 lib bytes % 256) ∷ []
  check_bytes _ bytes = crc5 lib bytes ∷ []

  -- A command whose checksum is a crc16.
  abbrev pub is_job : Command → Bool
  is_job (job_full j) = true
  is_job (job_midstate j) = true
  is_job _ = false

  checksum-start :
      (c : Command) (dst : List ℕ)
      → let start = dst ++ (0x55 ∷ 0xaa ∷ []) in
        checksum lib c (length start) (start ++ Command.encode c)
        ≡ check_bytes c (if is_job c then Command.encode c else drop 2 (start ++ Command.encode c))
  unfolding checksum
  checksum-start (job_full j) dst = rw (
      drop-append (length (dst ++ (0x55 ∷ 0xaa ∷ []))) (dst ++ (0x55 ∷ 0xaa ∷ []))
        (Command.encode (job_full j)) refl)
  checksum-start (job_midstate j) dst = rw (
      drop-append (length (dst ++ (0x55 ∷ 0xaa ∷ []))) (dst ++ (0x55 ∷ 0xaa ∷ []))
        (Command.encode (job_midstate j)) refl)
  checksum-start _ dst = refl

  checksum-empty :
      (c : Command) (bytes : List ℕ) → checksum lib c 2 (0x55 ∷ 0xaa ∷ bytes) ≡ check_bytes c bytes
  unfolding checksum
  checksum-empty (job_full j) bytes = refl
  checksum-empty (job_midstate j) bytes = refl
  checksum-empty _ bytes = refl

  length-check_bytes : (c : Command) (bytes : List ℕ) → length (check_bytes c bytes) ≡ crc_length c
  length-check_bytes (job_full j) bytes = refl
  length-check_bytes (job_midstate j) bytes = refl
  length-check_bytes _ bytes = refl

  -- Encoding into an empty buffer writes the preamble, the command, and the checksum of exactly the
  -- command's bytes; and the length byte is the number of the bytes behind the preamble, for a
  -- midstate job if its count of midstates is the number of those that it carries.
  pub encode-frame :
      (c : Command)
      → IsCounted c
      → (encode lib c [] ≡ 0x55 ∷ 0xaa ∷ (Command.encode c ++ check_bytes c (Command.encode c)))
        × (length (encode lib c []) ≡ 2 + length_byte (Command.encode c))
  unfolding encode
  encode-frame c h = (
    rw (checksum-empty c (Command.encode c)),
    rw (checksum-empty c (Command.encode c), length-append)
        (omega (arith, length-check_bytes c (Command.encode c), length_byte-encode c h)),
  )

  -- Encoding behind bytes that are still in the buffer: a job is appended as in an empty buffer,
  -- but the checksum of any other command then runs over everything from the third byte of the
  -- buffer on, the earlier frames and the preamble included.
  pub encode-append :
      (c : Command) (x y : ℕ) (dst : List ℕ)
      → encode lib c (x ∷ y ∷ dst)
        ≡ (x ∷ y ∷ dst)
          ++ (0x55
              ∷ 0xaa
              ∷ (Command.encode c
                  ++ check_bytes c (
                      if is_job c
                      then Command.encode c
                      else dst ++ (0x55 ∷ 0xaa ∷ Command.encode c))))
  unfolding encode
  encode-append c x y dst = rw (checksum-start c (x ∷ y ∷ dst)) (simp append_assoc)
