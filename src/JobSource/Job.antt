-- ===== src/JobSource/Job.antt =====
-- job_source/job.rs and merkle.rs: the template of a mining job and the merkle root of its blocks.
-- A `CompactTarget` is the number that it wraps, a string is the list of its characters, and a
-- `Result` that no panic can replace is the sum of its error and its value.
pub mod Merkle
mod Tests
use nano_mujina.Prelude.{ℕ, Option, none, some, List, [], ◌∷◌, ◌++◌, ◌⊎◌, inl, inr}
use nano_mujina.Asic.Bm13xx.Hash.{Hash, hash_to_list}
use nano_mujina.Types.Bitcoin.{Bitcoin}
use nano_mujina.JobSource.Extranonce2.Value.{Extranonce2, to_vec}
use nano_mujina.JobSource.Extranonce2.Range.{Extranonce2Range}
use nano_mujina.JobSource.Version.{VersionTemplate}

pub record MerkleRootTemplate : Type 0 where
  pub coinbase1 : List ℕ
  pub extranonce1 : List ℕ
  pub extranonce2_range : Extranonce2Range
  pub coinbase2 : List ℕ
  pub merkle_branches : List Hash

pub data MerkleRootKind : Type 0 where
  fixed : Hash → MerkleRootKind
  computed : MerkleRootTemplate → MerkleRootKind

pub record JobTemplate : Type 0 where
  pub id : List ℕ
  pub prev_blockhash : Hash
  pub version : VersionTemplate
  pub bits : ℕ
  pub share_target : ℕ
  pub time : ℕ
  pub merkle_root : MerkleRootKind

-- A share as a source takes it.
pub record Share : Type 0 where
  pub job_id : List ℕ
  pub nonce : ℕ
  pub time : ℕ
  pub version : ℕ
  pub extranonce2 : Option Extranonce2

-- The errors that `anyhow` carries as text.
pub data MerkleError : Type 0 where
  deserialize_failed header_only_job : MerkleError

-- The bytes that `compute_merkle_root` concatenates.
unfoldable pub coinbase_bytes : MerkleRootTemplate → Extranonce2 → List ℕ
coinbase_bytes t extranonce2 = t.coinbase1 ++ (t.extranonce1 ++ (to_vec extranonce2 ++ t.coinbase2))

module _ (bitcoin : Bitcoin) where
  -- The loop over the branches.
  pub climb : Hash → List Hash → Hash
  climb current_hash [] = current_hash
  climb current_hash (branch ∷ rest) =
      climb (bitcoin.sha256d (hash_to_list current_hash ++ hash_to_list branch)) rest

  -- `coinbase_tx.compute_txid()`, unless the bytes are no transaction.
  unfoldable pub climb_from : Option Hash → List Hash → MerkleError ⊎ Hash
  climb_from none branches = inl deserialize_failed
  climb_from (some txid) branches = inr (climb txid branches)

  unfoldable pub template_merkle_root : MerkleRootTemplate → Extranonce2 → MerkleError ⊎ Hash
  unfolding climb_from
  template_merkle_root t extranonce2 =
      climb_from (bitcoin.coinbase_txid (coinbase_bytes t extranonce2)) t.merkle_branches

  unfoldable pub kind_merkle_root : MerkleRootKind → Extranonce2 → MerkleError ⊎ Hash
  kind_merkle_root (computed template) en2 = template_merkle_root template en2
  kind_merkle_root (fixed root) en2 = inl header_only_job

  -- `JobTemplate::compute_merkle_root`.
  unfoldable pub compute_merkle_root : JobTemplate → Extranonce2 → MerkleError ⊎ Hash
  unfolding kind_merkle_root
  compute_merkle_root t en2 = kind_merkle_root t.merkle_root en2

  -- `JobTemplate::target`.
  pub target : JobTemplate → ℕ
  target t = bitcoin.target_from t.bits
