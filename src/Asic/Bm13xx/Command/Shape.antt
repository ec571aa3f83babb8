-- ===== src/Asic/Bm13xx/Command/Shape.antt =====
-- The shape of an encoded command.
use nano_mujina.Prelude.{
  ℕ, ◌+◌, ◌*◌, ◌≤◌, ◌≡◌, refl, Bool, Option, none, some, List, ◌∷◌, ◌++◌, arith, length,
  length-append,
}
use nano_mujina.Asic.Bm13xx.Hash.{Hash}
use nano_mujina.Asic.Bm13xx.Command.{
  Command, set_chip_address, chain_inactive, read_register, write_register, job_full, job_midstate,
  CommandFlagsType, CommandFlagsCmd, build_flags, midstate_bytes, encode,
}

-- The length of the checksum that goes with a command.
abbrev pub crc_length : Command → ℕ
crc_length (job_full j) = 2
crc_length (job_midstate j) = 2
crc_length _ = 1

abbrev pub given : Option Hash → ℕ
given none = 0
given (some m) = 1

-- A midstate job says how many midstates it has.
abbrev pub IsCounted : Command → Type 0
IsCounted (job_midstate j) =
    j.num_midstates ≡ 1 + given j.midstate1 + given j.midstate2 + given j.midstate3
IsCounted _ = Unit

length-midstate_bytes : (m : Option Hash) → length (midstate_bytes m) ≡ 32 * given m
length-midstate_bytes none = refl
length-midstate_bytes (some m) = refl

given-le : (m : Option Hash) → given m ≤ 1
given-le none = omega arith
given-le (some m) = omega arith

length-midstates :
    (m1 m2 m3 : Option Hash)
    → length (midstate_bytes m1 ++ (midstate_bytes m2 ++ midstate_bytes m3))
      ≡ 32 * (given m1 + given m2 + given m3)
length-midstates m1 m2 m3 = omega (
  arith,
  length-append (midstate_bytes m1) (midstate_bytes m2 ++ midstate_bytes m3),
  length-append (midstate_bytes m2) (midstate_bytes m3),
  length-midstate_bytes m1,
  length-midstate_bytes m2,
  length-midstate_bytes m3,
)

-- The second byte of a command.
abbrev pub length_byte : List ℕ → ℕ
length_byte (x ∷ y ∷ rest) = y
length_byte _ = 0

-- The length byte of a command is the number of its bytes together with its checksum, for a
-- midstate job if its count of midstates is the number of those that it carries.
pub length_byte-encode :
    (c : Command) → IsCounted c → length_byte (encode c) ≡ length (encode c) + crc_length c
unfolding encode
length_byte-encode (set_chip_address a) h = refl
length_byte-encode chain_inactive h = refl
length_byte-encode (read_register b a r) h = refl
length_byte-encode (write_register b a r) h = refl
length_byte-encode (job_full j) h = refl
length_byte-encode (job_midstate j) h = omega (
  arith,
  length-midstates j.midstate1 j.midstate2 j.midstate3,
  given-le j.midstate1,
  given-le j.midstate2,
  given-le j.midstate3,
)

-- A command is known by its first byte alone: the flags tell the type, the broadcast and the kind.
pub build_flags-injective :
    (t t' : CommandFlagsType) (b b' : Bool) (c c' : CommandFlagsCmd)
    → build_flags t b c ≡ build_flags t' b' c'
    → (t ≡ t') × (b ≡ b') × (c ≡ c')
unfolding build_flags
build_flags-injective t t' b b' c c' h = ground arith
