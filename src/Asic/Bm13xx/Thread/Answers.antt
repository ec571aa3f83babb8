-- ===== src/Asic/Bm13xx/Thread/Answers.antt =====
-- thread.rs: a task in the table answers for the job that was made of it.
use nano_mujina.Prelude.{
  ℕ, ◌≡◌, refl, ap, ◌∙◌, Option, none, some, List, [], ◌∷◌, ◌⊎◌, inl, inr, if◌then◌else◌,
}
use nano_mujina.Asic.Bm13xx.Hash.{Hash}
use nano_mujina.Asic.Bm13xx.Command.{JobFullFormat}
use nano_mujina.Asic.Bm13xx.Response.{nonce}
use nano_mujina.JobSource.Version.{GeneralPurposeBits, apply_to_version}
use nano_mujina.JobSource.Extranonce2.Value.{Extranonce2}
use nano_mujina.JobSource.Job.{
  MerkleRootKind, fixed, computed, MerkleError, compute_merkle_root, JobTemplate,
}
use nano_mujina.JobSource.Job.Merkle.{compute_merkle_root-fixed}
use nano_mujina.Types.Bitcoin.{BlockHeader}
use nano_mujina.Asic.Bm13xx.Thread.{
  HashTask, task_merkle_root, full_job, en2_merkle_root, merkle_context, get,
}
use nano_mujina.Asic.Bm13xx.Thread.Actor.{
  Setup, Actor, Output, nonce_root, root_ok, share_of, check_nonce, nonce_for, on_response,
  share_sent,
}

-- The task whose job a nonce answers is in the table, and the nonce is judged by the header that the
-- chip built from the job.
abbrev pub chip_header : JobFullFormat → ℕ → GeneralPurposeBits → BlockHeader
chip_header j n version = record {
  version = apply_to_version version j.version;
  prev_blockhash = j.prev_block_hash;
  merkle_root = j.merkle_root;
  time = j.ntime;
  bits = j.nbits;
  nonce = n;
}

-- What a nonce should lead to: a share when the hash of the chip's header meets the task's target. A
-- job with a fixed merkle root never leads to one.
abbrev pub verdict :
    Setup → HashTask → MerkleRootKind → JobFullFormat → ℕ → GeneralPurposeBits → List Output
verdict u task (fixed _) j n version = []
verdict u task (computed _) j n version =
    let hash = u.bitcoin.block_hash (chip_header j n version) in
    if u.bitcoin.is_met_by task.share_target hash
    then share_sent task.share_tx (share_of u task hash n version) ∷ []
    else []

pub record IsAnswered (u : Setup) (s : Actor) (j : JobFullFormat) : Type 0 where
  pub task : HashTask
  pub held : get s.chip_jobs j.job_id ≡ some task
  pub answered :
      (n midstate_num subcore_id : ℕ) (version : GeneralPurposeBits)
      → on_response u s (nonce n j.job_id midstate_num version subcore_id)
        ≡ verdict u task task.template.merkle_root j n version

module _ (u : Setup) where
  nonce_root-fixed :
      (template : JobTemplate) (en2 : Option Extranonce2) (r : Hash)
      → template.merkle_root ≡ fixed r
      → nonce_root u template en2 ≡ none
  unfolding nonce_root root_ok
  nonce_root-fixed template none r h = refl
  nonce_root-fixed template (some en2) r h =
      ap root_ok (compute_merkle_root-fixed u.bitcoin template en2 r h)

  root_ok-context :
      (x : MerkleError ⊎ Hash) (root : Hash) → merkle_context x ≡ inr root → root_ok x ≡ some root
  unfolding root_ok merkle_context
  root_ok-context (inl e) root h = cc
  root_ok-context (inr x) root h = cc

  nonce_root-computed :
      (template : JobTemplate) (en2 : Option Extranonce2) (root : Hash)
      → en2_merkle_root u.bitcoin template en2 ≡ inr root
      → nonce_root u template en2 ≡ some root
  unfolding nonce_root en2_merkle_root
  nonce_root-computed template none root h = cc
  nonce_root-computed template (some en2) root h =
      root_ok-context (compute_merkle_root u.bitcoin template en2) root h

  nonce_root-kind :
      (task : HashTask) (kind : MerkleRootKind) (root : Hash) (id n : ℕ)
      (version : GeneralPurposeBits)
      → task.template.merkle_root ≡ kind
      → task_merkle_root u.bitcoin task kind ≡ inr root
      → check_nonce u task (nonce_root u task.template task.en2) n version
        ≡ verdict u task kind (full_job task id root) n version
  unfolding task_merkle_root check_nonce
  nonce_root-kind task (fixed r) root id n version k e =
      ap (λ x. check_nonce u task x n version) (nonce_root-fixed task.template task.en2 r k)
  nonce_root-kind task (computed t) root id n version k e =
      ap (λ x. check_nonce u task x n version) (nonce_root-computed task.template task.en2 root e)

  -- A task in the table answers for the job that was made of it.
  pub answers :
      (s : Actor) (task : HashTask) (id : ℕ) (root : Hash)
      → get s.chip_jobs id ≡ some task
      → task_merkle_root u.bitcoin task task.template.merkle_root ≡ inr root
      → IsAnswered u s (full_job task id root)
  unfolding on_response nonce_for
  answers s task id root held made = record {
    task = task;
    held = held;
    answered = λ n midstate_num subcore_id version.
        ap (λ x. nonce_for u x n version) held
        ∙ nonce_root-kind task task.template.merkle_root root id n version refl made;
  }
