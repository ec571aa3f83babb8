-- ===== src/Types/Bitcoin.antt =====
-- The crate bitcoin, a parameter of the code that calls it. A hash is its 32 bytes; a target and an
-- amount of work are 256-bit numbers.
use nano_mujina.Prelude.{ℕ, Bool, Option, List}
use nano_mujina.Asic.Bm13xx.Hash.{Hash}

-- `bitcoin::block::Header`.
pub record BlockHeader : Type 0 where
  pub version : ℕ
  pub prev_blockhash : Hash
  pub merkle_root : Hash
  pub time : ℕ
  pub bits : ℕ
  pub nonce : ℕ

-- What the code uses of the crate bitcoin. `coinbase_txid` is `deserialize` of a `Transaction`,
-- which can fail, and then `compute_txid`.
pub record Bitcoin : Type 0 where
  pub coinbase_txid : List ℕ → Option Hash
  pub sha256d : List ℕ → Hash
  pub block_hash : BlockHeader → Hash
  pub target_from : ℕ → ℕ
  pub is_met_by : ℕ → Hash → Bool
  pub max_target : ℕ
  pub target_to_work : ℕ → ℕ
