-- ===== src/Asic/Bm13xx/Thread/Actor.antt =====
-- thread.rs: `bm13xx_thread_actor`, one function per arm of its `select!`. An event carries what the
-- surroundings answer to the sends that it leads to. Logging and the pauses are left out.
use nano_mujina.Prelude.{
  ℕ, ◌+◌, max, Bool, true, false, not, ◌&&◌, Option, none, some, List, [], ◌∷◌, ◌++◌, map, length,
  ◌⊎◌, inl, inr, if◌then◌else◌,
}
use nano_mujina.Prelude.Bytes.{u32}
use nano_mujina.Asic.Bm13xx.Hash.{Hash}
use nano_mujina.Asic.Bm13xx.Command.{Command, JobFullFormat, job_full}
use nano_mujina.Asic.Bm13xx.Response.{Response, read_register, nonce}
use nano_mujina.Asic.Bm13xx.Ticket.{Log2Difficulty}
use nano_mujina.JobSource.Version.{GeneralPurposeBits, apply_to_version}
use nano_mujina.JobSource.Extranonce2.Value.{Extranonce2}
use nano_mujina.Types.Bitcoin.{Bitcoin, BlockHeader}
use nano_mujina.Types.Difficulty.{log2_to_work}
use nano_mujina.Types.HashrateEstimator.{Ruint}
use nano_mujina.JobSource.Job.{JobTemplate, MerkleError, compute_merkle_root}
use nano_mujina.Asic.Bm13xx.Thread.{
  HashTask, Share, ChipJobTracker, new_tracker, insert, get, clear, TaskError, task_to_job_full,
}
use nano_mujina.Asic.Bm13xx.Thread.Ramp.{RampFloat}
use nano_mujina.Asic.Bm13xx.Thread.Init.{Io, InitError, initialize_chip}

-- What the actor is started with: the crates that it calls, the difficulty of the ASIC's ticket mask,
-- and whether the board can enable the ASIC.
pub record Setup : Type 1 where
  pub bitcoin : Bitcoin
  pub f32 : RampFloat
  pub asic_difficulty : Log2Difficulty
  pub ruint : Ruint
  pub has_asic_enable : Bool

-- The variables of the actor, and the flag of the status that it shares.
pub record Actor : Type 0 where
  pub chip_initialized : Bool
  pub current_task : Option HashTask
  pub chip_jobs : ChipJobTracker
  pub is_active : Bool

pub data ThreadRemovalSignal : Type 0 where
  running board_disconnected hardware_fault user_requested removal_shutdown : ThreadRemovalSignal

pub data ThreadError : Type 0 where
  init_error : InitError → ThreadError
  job_send_error : ThreadError
  task_error : TaskError → ThreadError

-- What the actor does to its surroundings. A command is one that the sink took; a share is one that
-- the actor puts on the channel with that number.
pub data Output : Type 0 where
  asic_enable expected_hash_rate : Output
  chip_command : Command → Output
  respond : ThreadError ⊎ Option HashTask → Output
  share_sent : ℕ → Share → Output

pub data Event : Type 0 where
  removal : ThreadRemovalSignal → Event
  configure go_idle shutdown serial_error ntime_tick : Event
  update_task replace_task : HashTask → Event
  chip_response : Response → Event

unfoldable pub new_actor : Actor
new_actor = record {
  chip_initialized = false;
  current_task = none;
  chip_jobs = new_tracker;
  is_active = false;
}

abbrev Step : Type 0
Step = Actor × List Output

-- Converts to a job and sends it, as the event's send number `n`.
unfoldable pub send_job : Io → ℕ → TaskError ⊎ JobFullFormat → List Output × Option ThreadError
send_job io n (inl e) = ([], some (task_error e))
send_job io n (inr job_data) =
    if io.send_fails n
    then ([], some job_send_error)
    else (chip_command (job_full job_data) ∷ [], none)

-- The response with the old task and the status, once the job is sent.
unfoldable pub finish : Actor → Option HashTask → List Output × Option ThreadError → Step
finish s old_task (sent, none) =
    (record s { is_active = true }, sent ++ (respond (inr old_task) ∷ []))
finish s old_task (sent, some e) = (s, sent ++ (respond (inl e) ∷ []))

-- `&& peripherals.asic_enable.is_some()`: what `initialize_chip` does first.
unfoldable pub enable_output : Bool → List Output
enable_output true = asic_enable ∷ []
enable_output false = []

-- The task with its ntime one second later, on a u32.
abbrev pub roll_ntime : HashTask → HashTask
roll_ntime task = record task { ntime = u32 (task.ntime + 1) }

-- `.ok()` on a merkle root.
unfoldable pub root_ok : MerkleError ⊎ Hash → Option Hash
root_ok (inl e) = none
root_ok (inr root) = some root

unfoldable pub on_removal : Actor → ThreadRemovalSignal → Actor
on_removal s running = s
on_removal s _ = record s { is_active = false }

-- The arms that `break`.
unfoldable pub leaves : Event → Bool
leaves (removal running) = false
leaves (removal _) = true
leaves shutdown = true
leaves _ = false

-- The header that a nonce completes.
abbrev pub nonce_header : HashTask → Hash → ℕ → GeneralPurposeBits → BlockHeader
nonce_header task merkle_root n version = record {
  version = apply_to_version version task.template.version.base;
  prev_blockhash = task.template.prev_blockhash;
  merkle_root = merkle_root;
  time = task.ntime;
  bits = task.template.bits;
  nonce = n;
}

unfoldable pub on_go_idle : Actor → Step
on_go_idle s =
    (record s { current_task = none; is_active = false }, respond (inr s.current_task) ∷ [])

module _ (u : Setup) where
  -- From `chip_jobs.insert` to the response, which the two assignments share.
  unfoldable pub start_task : Actor → HashTask → Io → ℕ → Step
  start_task s new_task io n =
      finish (record s { chip_jobs = insert s.chip_jobs new_task; current_task = some new_task })
        s.current_task (send_job io n (task_to_job_full u.bitcoin new_task s.chip_jobs.next_id))

  -- `if !chip_initialized`: what the sink took, and the error.
  unfoldable pub bring_up : Actor → Io → List Command × Option InitError
  bring_up s io =
      if s.chip_initialized
      then ([], none)
      else initialize_chip u.f32 u.asic_difficulty u.has_asic_enable io

  unfoldable pub bring_up_outputs : Actor → List Command → List Output
  bring_up_outputs s commands =
      enable_output (not s.chip_initialized && u.has_asic_enable) ++ map chip_command commands

  -- An assignment after the bring-up; `prepare` is what replacing does to the table of jobs.
  unfoldable pub assign :
      (ChipJobTracker → ChipJobTracker)
      → Actor
      → HashTask
      → Io
      → List Command × Option InitError
      → Step
  assign prepare s new_task io (commands, some e) =
      (s, bring_up_outputs s commands ++ (respond (inl (init_error e)) ∷ []))
  assign prepare s new_task io (commands, none) =
      let started =
        start_task (record s { chip_initialized = true; chip_jobs = prepare s.chip_jobs }) new_task
          io (length commands) in
      (started.0, bring_up_outputs s commands ++ started.1)

  unfoldable pub on_update_task : Actor → HashTask → Io → Step
  on_update_task s new_task io = assign (λ jobs. jobs) s new_task io (bring_up s io)

  unfoldable pub on_replace_task : Actor → HashTask → Io → Step
  on_replace_task s new_task io = assign clear s new_task io (bring_up s io)

  -- `.ok()` of the root, for a task that has an extranonce2.
  unfoldable pub nonce_root : JobTemplate → Option Extranonce2 → Option Hash
  nonce_root template none = none
  nonce_root template (some en2) = root_ok (compute_merkle_root u.bitcoin template en2)

  abbrev pub share_of : HashTask → Hash → ℕ → GeneralPurposeBits → Share
  share_of task hash n version = record {
    nonce = n;
    hash = hash;
    version = apply_to_version version task.template.version.base;
    ntime = task.ntime;
    extranonce2 = task.en2;
    expected_work =
        max (log2_to_work u.bitcoin u.ruint u.asic_difficulty)
          (u.bitcoin.target_to_work task.share_target);
  }

  -- The check of the hash against the task's target.
  unfoldable pub check_nonce : HashTask → Option Hash → ℕ → GeneralPurposeBits → List Output
  check_nonce task none n version = []
  check_nonce task (some merkle_root) n version =
      let hash = u.bitcoin.block_hash (nonce_header task merkle_root n version) in
      if u.bitcoin.is_met_by task.share_target hash
      then share_sent task.share_tx (share_of task hash n version) ∷ []
      else []

  unfoldable pub nonce_for : Option HashTask → ℕ → GeneralPurposeBits → List Output
  nonce_for none n version = []
  nonce_for (some task) n version = check_nonce task (nonce_root task.template task.en2) n version

  unfoldable pub on_response : Actor → Response → List Output
  on_response s (nonce n job_id midstate_num version subcore_id) =
      nonce_for (get s.chip_jobs job_id) n version
  on_response s (read_register chip_address register) = []

  -- The ticker's arm, which is disabled while there is no task.
  unfoldable pub on_tick : Actor → Option HashTask → Io → Step
  on_tick s none io = (s, [])
  on_tick s (some task) io = (
    record s {
      current_task = some (roll_ntime task);
      chip_jobs = insert s.chip_jobs (roll_ntime task);
    },
    (send_job io 0 (task_to_job_full u.bitcoin (roll_ntime task) s.chip_jobs.next_id)).0,
  )

  unfoldable pub step : Actor → Io → Event → Step
  step s io (removal signal) = (on_removal s signal, [])
  step s io configure = (s, expected_hash_rate ∷ [])
  step s io (update_task new_task) = on_update_task s new_task io
  step s io (replace_task new_task) = on_replace_task s new_task io
  step s io go_idle = on_go_idle s
  step s io shutdown = (s, [])
  step s io (chip_response response) = (s, on_response s response)
  step s io serial_error = (s, [])
  step s io ntime_tick = on_tick s s.current_task io

  -- The loop over the events that arrive: the last state, and all outputs.
  unfoldable pub run : Actor → List (Io × Event) → Step
  run s [] = (s, [])
  run s ((io, event) ∷ rest) =
      let now = step s io event in
      let later = run now.0 rest in if leaves event then now else (later.0, now.1 ++ later.1)
