-- ===== src/Asic/Bm13xx/Command.antt =====
-- protocol.rs: the commands to the chips and the bytes of each, without preamble and checksum.
pub mod Shape
use nano_mujina.Prelude.{
  ℕ, ◌+◌, ◌*◌, ◌^◌, Bool, true, false, Option, none, some, List, [], ◌∷◌, ◌++◌,
}
use nano_mujina.Prelude.Bytes.{u8, Bytes4, Bytes4_to_list, to_le_bytes}
use nano_mujina.Asic.Bm13xx.Hash.{Hash, hash_to_wire_bytes, hash_to_list}
use nano_mujina.Asic.Bm13xx.Register.{Register, address, encode_data}
use nano_mujina.Asic.Bm13xx.Register.Address.{RegisterAddress, repr}

pub record JobFullFormat : Type 0 where
  pub job_id : ℕ
  pub num_midstates : ℕ
  pub starting_nonce : ℕ
  pub nbits : ℕ
  pub ntime : ℕ
  pub merkle_root : Hash
  pub prev_block_hash : Hash
  pub version : ℕ  -- the 32-bit pattern

pub record JobMidstateFormat : Type 0 where
  pub job_id : ℕ
  pub num_midstates : ℕ
  pub starting_nonce : Bytes4
  pub nbits : Bytes4
  pub ntime : Bytes4
  pub merkle4 : Bytes4
  pub midstate0 : Hash
  pub midstate1 : Option Hash
  pub midstate2 : Option Hash
  pub midstate3 : Option Hash

pub data Command : Type 0 where
  set_chip_address : ℕ → Command
  chain_inactive : Command
  read_register : Bool → ℕ → RegisterAddress → Command
  write_register : Bool → ℕ → Register → Command
  job_full : JobFullFormat → Command
  job_midstate : JobMidstateFormat → Command

pub data CommandFlagsType : Type 0 where
  job command : CommandFlagsType

pub data CommandFlagsCmd : Type 0 where
  set_chip_address_cmd write_register_or_job read_register_cmd chain_inactive_cmd : CommandFlagsCmd

abbrev pub type_repr : CommandFlagsType → ℕ
type_repr job = 1
type_repr command = 2

abbrev pub cmd_repr : CommandFlagsCmd → ℕ
cmd_repr set_chip_address_cmd = 0
cmd_repr write_register_or_job = 1
cmd_repr read_register_cmd = 2
cmd_repr chain_inactive_cmd = 3

abbrev pub bool_repr : Bool → ℕ
bool_repr true = 1
bool_repr false = 0

-- The type in bits 5 and 6, the broadcast flag in bit 4, the command in bits 0 to 3.
unfoldable pub build_flags : CommandFlagsType → Bool → CommandFlagsCmd → ℕ
build_flags typ broadcast cmd = type_repr typ * 2 ^ 5 + bool_repr broadcast * 2 ^ 4 + cmd_repr cmd

-- The bytes of a `&[u8; 32]` that is optional.
abbrev pub midstate_bytes : Option Hash → List ℕ
midstate_bytes none = []
midstate_bytes (some m) = hash_to_list m

-- What `encode` appends. The length byte counts the bytes from the flags to the checksum.
unfoldable pub encode : Command → List ℕ
unfolding build_flags
encode (set_chip_address chip_address) =
    build_flags command false set_chip_address_cmd ∷ (1 + 1 + 1 + 1 + 1) ∷ chip_address ∷ 0x00 ∷ []
encode chain_inactive =
    build_flags command true chain_inactive_cmd ∷ (1 + 1 + 1 + 1 + 1) ∷ 0x00 ∷ 0x00 ∷ []
encode (read_register broadcast chip_address register_address) =
    build_flags command broadcast read_register_cmd
    ∷ (1 + 1 + 1 + 1 + 1)
    ∷ chip_address
    ∷ repr register_address
    ∷ []
encode (write_register broadcast chip_address register) =
    build_flags command broadcast write_register_or_job
    ∷ (1 + 1 + 1 + 1 + 4 + 1)
    ∷ chip_address
    ∷ repr (address register)
    ∷ Bytes4_to_list (encode_data register)
encode (job_full j) =
    build_flags job false write_register_or_job
    ∷ (1 + 1 + 82 + 2)
    ∷ u8 (j.job_id * 2 ^ 3)
    ∷ j.num_midstates
    ∷ (Bytes4_to_list (to_le_bytes j.starting_nonce)
        ++ (Bytes4_to_list (to_le_bytes j.nbits)
            ++ (Bytes4_to_list (to_le_bytes j.ntime)
                ++ (hash_to_list (hash_to_wire_bytes j.merkle_root)
                    ++ (hash_to_list (hash_to_wire_bytes j.prev_block_hash)
                        ++ Bytes4_to_list (to_le_bytes j.version))))))
encode (job_midstate j) =
    build_flags job false write_register_or_job
    ∷ u8 (1 + 1 + u8 (18 + u8 (j.num_midstates * 32)) + 2)
    ∷ u8 (j.job_id * 2 ^ 3)
    ∷ j.num_midstates
    ∷ (Bytes4_to_list j.starting_nonce
        ++ (Bytes4_to_list j.nbits
            ++ (Bytes4_to_list j.ntime
                ++ (Bytes4_to_list j.merkle4
                    ++ (hash_to_list j.midstate0
                        ++ (midstate_bytes j.midstate1
                            ++ (midstate_bytes j.midstate2 ++ midstate_bytes j.midstate3)))))))
