-- ===== src/JobSource/Job/Tests.antt =====
-- Runs of the job templates on concrete inputs.
use nano_mujina.Prelude.{◌≡◌, refl, inr, [], ◌∷◌, arith}
use nano_mujina.JobSource.Job.{MerkleRootTemplate, template_merkle_root}
use nano_mujina.JobSource.Job.Merkle.{
  Tree, leaf, node, root, set_coinbase, template_merkle_root-tree,
}
use nano_mujina.Fixtures.{word_hash, toy_bitcoin, range}

-- Four transactions.
abbrev four : Tree
four =
    node (node (leaf (word_hash 1)) (leaf (word_hash 2)))
      (node (leaf (word_hash 3)) (leaf (word_hash 4)))

abbrev root_template : MerkleRootTemplate
root_template = record {
  coinbase1 = 1 ∷ [];
  extranonce1 = 2 ∷ [];
  extranonce2_range = range;
  coinbase2 = 3 ∷ [];
  merkle_branches = word_hash 2 ∷ word_hash 8 ∷ [];
}

template_merkle_root-tree_example :
    template_merkle_root toy_bitcoin root_template (record { value = 3; size = 1 })
    ≡ inr (root toy_bitcoin (set_coinbase (word_hash 7) four))
template_merkle_root-tree_example =
    template_merkle_root-tree toy_bitcoin root_template (record { value = 3; size = 1 }) four
      (word_hash 7) (omega arith) refl refl
