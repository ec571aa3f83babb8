-- ===== src/Asic/Bm13xx/Thread.antt =====
-- asic/bm13xx/thread.rs and asic/hash_thread.rs: the tasks of a chain of chips, the table of the jobs
-- that the chips work on, and the conversion of a task to a job.
pub mod Tracker
pub mod Ramp
pub mod Search
pub mod Ladder
pub mod Init
pub mod Actor
pub mod Commands
pub mod Answers
pub mod Invariant
pub mod Jobs
pub mod Holds
pub mod Shares
pub mod Idle
pub mod FirstJob
mod Tests
use nano_mujina.Prelude.{ℕ, zero, suc, ◌+◌, ◌%◌, Option, none, some, List, [], ◌∷◌, ◌⊎◌, inl, inr}
use nano_mujina.Asic.Bm13xx.Hash.{Hash}
use nano_mujina.Asic.Bm13xx.Command.{JobFullFormat}
use nano_mujina.JobSource.Extranonce2.Value.{Extranonce2}
use nano_mujina.JobSource.Extranonce2.Range.{Extranonce2Range}
use nano_mujina.Types.Bitcoin.{Bitcoin}
use nano_mujina.JobSource.Job.{
  JobTemplate, MerkleRootKind, fixed, computed, MerkleError, compute_merkle_root,
}

-- `share_tx` is the number of the task's channel.
pub record HashTask : Type 0 where
  pub template : JobTemplate
  pub en2_range : Option Extranonce2Range
  pub en2 : Option Extranonce2
  pub share_target : ℕ
  pub ntime : ℕ
  pub share_tx : ℕ

pub record Share : Type 0 where
  pub nonce : ℕ
  pub hash : Hash
  pub version : ℕ
  pub ntime : ℕ
  pub extranonce2 : Option Extranonce2
  pub expected_work : ℕ

-- The sixteen slots, each with the snapshot of a task, and the id of the next job.
pub record ChipJobTracker : Type 0 where
  pub tasks : List (Option HashTask)
  pub next_id : ℕ

-- `Default::default()` of the array.
abbrev pub empty_tasks : List (Option HashTask)
empty_tasks =
    none ∷ none ∷ none ∷ none ∷ none ∷ none ∷ none ∷ none ∷ none ∷ none ∷ none ∷ none ∷ none ∷ none
    ∷ none ∷ none ∷ []

-- `tasks[i] = Some(task)`. Out of bounds, where the source panics, nothing is written; the ids of the
-- table stay in bounds by `insert_all-IsTracker`.
abbrev pub set_slot : List (Option HashTask) → ℕ → HashTask → List (Option HashTask)
set_slot [] i task = []
set_slot (slot ∷ rest) zero task = some task ∷ rest
set_slot (slot ∷ rest) (suc i) task = slot ∷ set_slot rest i task

-- `tasks.get(i).and_then(…)`.
abbrev pub get_slot : List (Option HashTask) → ℕ → Option HashTask
get_slot [] i = none
get_slot (slot ∷ rest) zero = slot
get_slot (slot ∷ rest) (suc i) = get_slot rest i

abbrev pub new_tracker : ChipJobTracker
new_tracker = record { tasks = empty_tasks; next_id = 0 }

-- The table after the insertion; the id that it returns is the `next_id` before.
pub insert : ChipJobTracker → HashTask → ChipJobTracker
insert t task = record { tasks = set_slot t.tasks t.next_id task; next_id = (t.next_id + 1) % 16 }

pub get : ChipJobTracker → ℕ → Option HashTask
get t chip_job_id = get_slot t.tasks chip_job_id

pub clear : ChipJobTracker → ChipJobTracker
clear t = record t { tasks = empty_tasks }

pub data TaskError : Type 0 where
  en2_required : TaskError
  merkle_root_failed : MerkleError → TaskError

-- `.context(…)` on a merkle root.
pub merkle_context : MerkleError ⊎ Hash → TaskError ⊎ Hash
merkle_context (inl e) = inl (merkle_root_failed e)
merkle_context (inr root) = inr root

-- The job of a task with a merkle root.
abbrev pub full_job : HashTask → ℕ → Hash → JobFullFormat
full_job task chip_job_id merkle_root = record {
  job_id = chip_job_id;
  num_midstates = 1;
  starting_nonce = 0;
  nbits = task.template.bits;
  ntime = task.ntime;
  merkle_root = merkle_root;
  prev_block_hash = task.template.prev_blockhash;
  version = task.template.version.base;
}

abbrev pub job_with_root : HashTask → ℕ → TaskError ⊎ Hash → TaskError ⊎ JobFullFormat
job_with_root task chip_job_id (inl e) = inl e
job_with_root task chip_job_id (inr merkle_root) = inr (full_job task chip_job_id merkle_root)

module _ (bitcoin : Bitcoin) where
  -- The root for the extranonce2 of the task, if it has one.
  pub en2_merkle_root : JobTemplate → Option Extranonce2 → TaskError ⊎ Hash
  unfolding merkle_context
  en2_merkle_root template none = inl en2_required
  en2_merkle_root template (some en2) = merkle_context (compute_merkle_root bitcoin template en2)

  -- The `match` on the kind of the template's merkle root.
  pub task_merkle_root : HashTask → MerkleRootKind → TaskError ⊎ Hash
  task_merkle_root task (computed _) = en2_merkle_root task.template task.en2
  task_merkle_root task (fixed merkle_root) = inr merkle_root

  pub task_to_job_full : HashTask → ℕ → TaskError ⊎ JobFullFormat
  task_to_job_full task chip_job_id =
      job_with_root task chip_job_id (task_merkle_root task task.template.merkle_root)
