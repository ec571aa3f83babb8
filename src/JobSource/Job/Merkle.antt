-- ===== src/JobSource/Job/Merkle.antt =====
-- The merkle root of a job is the root of the tree of its block's transactions.
use nano_mujina.Prelude.{ℕ, ◌≤◌, ◌≡◌, refl, ap, ap₂, ◌∙◌, some, List, [], ◌∷◌, ◌++◌, inl, inr}
use nano_mujina.Asic.Bm13xx.Hash.{Hash, hash_to_list}
use nano_mujina.Prelude.Bytes.{le_list, take-le_list}
use nano_mujina.JobSource.Extranonce2.Value.{Extranonce2, to_vec}
use nano_mujina.Types.Bitcoin.{Bitcoin}
use nano_mujina.JobSource.Job.{
  MerkleRootTemplate, coinbase_bytes, climb, climb_from, template_merkle_root, JobTemplate, fixed,
  compute_merkle_root, kind_merkle_root, header_only_job,
}

-- A merkle tree: the transactions' hashes at the leaves, the first of them the coinbase's.
pub data Tree : Type 0 where
  leaf : Hash → Tree
  node : Tree → Tree → Tree

-- The tree with another coinbase.
abbrev pub set_coinbase : Hash → Tree → Tree
set_coinbase h (leaf _) = leaf h
set_coinbase h (node l r) = node (set_coinbase h l) r

module _ (bitcoin : Bitcoin) where
  abbrev pub root : Tree → Hash
  root (leaf h) = h
  root (node l r) = bitcoin.sha256d (hash_to_list (root l) ++ hash_to_list (root r))

  -- The roots beside the path to the coinbase, the deepest first.
  abbrev pub branches : Tree → List Hash
  branches (leaf _) = []
  branches (node l r) = branches l ++ (root r ∷ [])

  climb-append :
      (h : Hash) (xs : List Hash) (y : Hash)
      → climb bitcoin h (xs ++ (y ∷ []))
        ≡ bitcoin.sha256d (hash_to_list (climb bitcoin h xs) ++ hash_to_list y)
  unfolding climb
  climb-append h [] y = refl
  climb-append h (x ∷ xs) y = climb-append (bitcoin.sha256d (hash_to_list h ++ hash_to_list x)) xs y

  pub climb-branches :
      (h : Hash) (tree : Tree) → climb bitcoin h (branches tree) ≡ root (set_coinbase h tree)
  unfolding climb
  climb-branches h (leaf _) = refl
  climb-branches h (node l r) =
      climb-append h (branches l) (root r)
      ∙ ap (λ x. bitcoin.sha256d (hash_to_list x ++ hash_to_list (root r))) (climb-branches h l)

-- A job with a fixed root has no root for an extranonce2.
pub compute_merkle_root-fixed :
    (bitcoin : Bitcoin) (t : JobTemplate) (en2 : Extranonce2) (r : Hash)
    → t.merkle_root ≡ fixed r
    → compute_merkle_root bitcoin t en2 ≡ inl header_only_job
unfolding compute_merkle_root kind_merkle_root
compute_merkle_root-fixed bitcoin t en2 r h = ap (λ k. kind_merkle_root bitcoin k en2) h

-- The bytes of the coinbase transaction for an extranonce2: the two parts with the extranonces between
-- them, the second as a little-endian number of its size.
abbrev pub coinbase : MerkleRootTemplate → Extranonce2 → List ℕ
coinbase t en2 = t.coinbase1 ++ (t.extranonce1 ++ (le_list en2.size en2.value ++ t.coinbase2))

coinbase_bytes-coinbase :
    (t : MerkleRootTemplate) (en2 : Extranonce2)
    → en2.size ≤ 8
    → coinbase_bytes t en2 ≡ coinbase t en2
unfolding coinbase_bytes to_vec
coinbase_bytes-coinbase t en2 fits = rw (take-le_list en2.size 8 en2.value fits) refl

-- When the branches of a template are those of a tree, and the first part of the coinbase, the first
-- extranonce, the second one of at most eight bytes, the lowest first, and the last part make the bytes
-- of a transaction with some hash, the merkle root for that second extranonce is the root of the tree
-- with the transaction's hash as its first leaf, however deep the tree and whatever the coinbase in it
-- was before.
pub template_merkle_root-tree :
    (bitcoin : Bitcoin) (t : MerkleRootTemplate) (en2 : Extranonce2) (tree : Tree) (txid : Hash)
    → en2.size ≤ 8
    → t.merkle_branches ≡ branches bitcoin tree
    → bitcoin.coinbase_txid (coinbase t en2) ≡ some txid
    → template_merkle_root bitcoin t en2 ≡ inr (root bitcoin (set_coinbase txid tree))
unfolding template_merkle_root climb_from
template_merkle_root-tree bitcoin t en2 tree txid fits siblings parsed =
    ap₂ (climb_from bitcoin)
      (ap bitcoin.coinbase_txid (coinbase_bytes-coinbase t en2 fits) ∙ parsed) siblings
    ∙ ap inr (climb-branches bitcoin txid tree)
