-- ===== src/Types/Difficulty.antt =====
-- types/difficulty.rs and `Log2Difficulty::to_work`: a mining difficulty is kept as its target, the
-- largest target divided by it. The conversions of f64 are left out.
mod Order
use nano_mujina.Prelude.{ℕ, ◌^◌, ◌%◌, ◌==◌, if◌then◌else◌, List}
use nano_mujina.Prelude.Bytes.{from_le_list}
use Prim.Native.Nat.{compare, Ordering}
use nano_mujina.Asic.Bm13xx.Hash.{Hash, hash_to_list}
use nano_mujina.Asic.Bm13xx.Ticket.{Log2Difficulty}
use nano_mujina.Types.Bitcoin.{Bitcoin}
use nano_mujina.Types.HashrateEstimator.{Ruint}

pub record Difficulty : Type 0 where
  pub target : ℕ

pub max_difficulty : Difficulty
max_difficulty = record { target = 0 }

pub from_target : ℕ → Difficulty
from_target target = record { target = target }

pub to_target : Difficulty → ℕ
to_target d = d.target

-- `U256::from_le_bytes` of the hash.
pub from_hash : Hash → Difficulty
from_hash hash =
    let hash_u256 = from_le_list (hash_to_list hash) in
    if hash_u256 == 0 then max_difficulty else record { target = hash_u256 }

-- `Ord::cmp`: the smaller target is the greater difficulty.
pub cmp : Difficulty → Difficulty → Ordering
cmp self other = compare other.target self.target

module _ (bitcoin : Bitcoin) (ruint : Ruint) where
  -- `From<u64>`.
  pub from_u64 : ℕ → Difficulty
  from_u64 diff =
      if diff == 0
      then record { target = bitcoin.max_target }
      else record { target = ruint.div bitcoin.max_target diff }

  -- `Log2Difficulty::to_work`; the shift of a u64 takes its distance modulo 64.
  pub log2_to_work : Log2Difficulty → ℕ
  log2_to_work d = bitcoin.target_to_work (to_target (from_u64 (2 ^ (d.exponent % 64))))
