-- ===== src/Asic/Bm13xx/Thread/Holds.antt =====
-- thread.rs: one event keeps a predicate on all tasks that the actor holds.
use nano_mujina.Prelude.{
  ℕ, zero, suc, Bool, true, false, not, ◌&&◌, ◌≡◌, refl, Option, none, some, List, [], ◌∷◌, map,
  length, ◌⊎◌, inl, inr, if-holds, All, All-append,
}
use nano_mujina.Asic.Bm13xx.Hash.{Hash}
use nano_mujina.Asic.Bm13xx.Command.{Command, JobFullFormat}
use nano_mujina.Asic.Bm13xx.Response.{Response, nonce}
use nano_mujina.JobSource.Version.{GeneralPurposeBits, apply_to_version}
use nano_mujina.Asic.Bm13xx.Thread.{
  HashTask, Share, ChipJobTracker, TaskError, task_to_job_full, insert, get,
}
use nano_mujina.Asic.Bm13xx.Thread.{set_slot, get_slot, empty_tasks}
use nano_mujina.Asic.Bm13xx.Thread.Init.{Io, InitError}
use nano_mujina.Asic.Bm13xx.Thread.Actor.{
  Setup, Actor, ThreadError, Output, chip_command, Event, update_task, replace_task, send_job,
  finish, enable_output, roll_ntime, start_task, bring_up_outputs, assign, nonce_root, nonce_header,
  check_nonce, nonce_for, on_response, on_tick, on_removal, ThreadRemovalSignal, running,
  board_disconnected, hardware_fault, user_requested, removal_shutdown, share_sent,
}

-- A share on a channel is a valid one of a task that satisfies the predicate: the channel, the
-- extranonce2 and the ntime are the task's, and the hash is that of the header with the root for that
-- extranonce2, and meets the task's target.
pub record IsShareOf (u : Setup) (A : HashTask → Type 0) (tx : ℕ) (share : Share) : Type 0 where
  pub task : HashTask
  pub satisfies : A task
  pub root : Hash
  pub rooted : nonce_root u task.template task.en2 ≡ some root
  pub bits : GeneralPurposeBits
  pub on_channel : tx ≡ task.share_tx
  pub its_extranonce2 : share.extranonce2 ≡ task.en2
  pub its_ntime : share.ntime ≡ task.ntime
  pub its_version : share.version ≡ apply_to_version bits task.template.version.base
  pub its_hash : share.hash ≡ u.bitcoin.block_hash (nonce_header task root share.nonce bits)
  pub is_met : u.bitcoin.is_met_by task.share_target share.hash ≡ true

abbrev pub OfShare : (u : Setup) → (HashTask → Type 0) → Output → Type 0
OfShare u A (share_sent tx share) = IsShareOf u A tx share
OfShare u A _ = Unit

-- The tasks that events assign.
abbrev pub Assigns : (HashTask → Type 0) → Io × Event → Type 0
Assigns A (io, update_task task) = A task
Assigns A (io, replace_task task) = A task
Assigns A _ = Unit

abbrev pub OfSome : (HashTask → Type 0) → Option HashTask → Type 0
OfSome A none = Unit
OfSome A (some task) = A task

-- Every task that the actor holds satisfies the predicate.
pub record Holds (A : HashTask → Type 0) (s : Actor) : Type 0 where
  pub current : OfSome A s.current_task
  pub slots : All (OfSome A) s.chip_jobs.tasks

module _ (u : Setup) (A : HashTask → Type 0)
    (rolls : (task : HashTask) → A task → A (roll_ntime task)) where
  set_slot-OfSome :
      (xs : List (Option HashTask)) (i : ℕ) (task : HashTask)
      → A task
      → All (OfSome A) xs
      → All (OfSome A) (set_slot xs i task)
  set_slot-OfSome [] i task a h = tt
  set_slot-OfSome (x ∷ xs) zero task a (_, h) = (a, h)
  set_slot-OfSome (x ∷ xs) (suc i) task a (o, h) = (o, set_slot-OfSome xs i task a h)

  get_slot-OfSome :
      (xs : List (Option HashTask)) (i : ℕ) → All (OfSome A) xs → OfSome A (get_slot xs i)
  get_slot-OfSome [] i h = tt
  get_slot-OfSome (x ∷ xs) zero (o, _) = o
  get_slot-OfSome (x ∷ xs) (suc i) (_, h) = get_slot-OfSome xs i h

  pub empty_tasks-OfSome : All (OfSome A) empty_tasks
  empty_tasks-OfSome = (
    tt,
    (tt, (tt, (tt, (tt, (tt, (tt, (tt, (tt, (tt, (tt, (tt, (tt, (tt, (tt, (tt, tt))))))))))))))),
  )

  check_nonce-OfShare :
      (task : HashTask) (root : Option Hash) (n : ℕ) (version : GeneralPurposeBits)
      → A task
      → nonce_root u task.template task.en2 ≡ root
      → All (OfShare u A) (check_nonce u task root n version)
  unfolding check_nonce
  check_nonce-OfShare task none n version a e = tt
  check_nonce-OfShare task (some root) n version a e =
      let hash = u.bitcoin.block_hash (nonce_header task root n version) in
      if-holds (All (OfShare u A)) (u.bitcoin.is_met_by task.share_target hash) _ []
        (λ met. (
          record {
            task = task;
            satisfies = a;
            root = root;
            rooted = e;
            bits = version;
            on_channel = refl;
            its_extranonce2 = refl;
            its_ntime = refl;
            its_version = refl;
            its_hash = refl;
            is_met = met;
          },
          tt,
        ))
        (λ _. tt)

  nonce_for-OfShare :
      (task : Option HashTask) (n : ℕ) (version : GeneralPurposeBits)
      → OfSome A task
      → All (OfShare u A) (nonce_for u task n version)
  unfolding nonce_for
  nonce_for-OfShare none n version a = tt
  nonce_for-OfShare (some task) n version a =
      check_nonce-OfShare task (nonce_root u task.template task.en2) n version a refl

  pub on_response-OfShare :
      (s : Actor) (r : Response) → Holds A s → All (OfShare u A) (on_response u s r)
  unfolding on_response get
  on_response-OfShare s (nonce n job_id m version c) h =
      nonce_for-OfShare (get_slot s.chip_jobs.tasks job_id) n version
        (get_slot-OfSome s.chip_jobs.tasks job_id h.slots)
  on_response-OfShare s (Response.read_register a r) h = tt

  commands-OfShare : (cs : List Command) → All (OfShare u A) (map chip_command cs)
  commands-OfShare [] = tt
  commands-OfShare (c ∷ cs) = (tt, commands-OfShare cs)

  enable_output-OfShare : (b : Bool) → All (OfShare u A) (enable_output b)
  unfolding enable_output
  enable_output-OfShare true = (tt, tt)
  enable_output-OfShare false = tt

  bring_up_outputs-OfShare :
      (s : Actor) (cs : List Command) → All (OfShare u A) (bring_up_outputs u s cs)
  unfolding bring_up_outputs
  bring_up_outputs-OfShare s cs =
      All-append (OfShare u A) (enable_output (not s.chip_initialized && u.has_asic_enable)) _
        (enable_output-OfShare (not s.chip_initialized && u.has_asic_enable)) (commands-OfShare cs)

  send_job-OfShare :
      (io : Io) (n : ℕ) (r : TaskError ⊎ JobFullFormat) → All (OfShare u A) (send_job io n r).0
  unfolding send_job
  send_job-OfShare io n (inl e) = tt
  send_job-OfShare io n (inr j) =
      if-holds (λ (r : List Output × Option ThreadError). All (OfShare u A) r.0) (io.send_fails n) _
        _ (λ _. tt) (λ _. (tt, tt))

  -- What a step keeps and what its outputs are.
  abbrev pub Kept : Actor × List Output → Type 0
  Kept r = Holds A r.0 × All (OfShare u A) r.1

  finish-Kept :
      (s : Actor) (old : Option HashTask) (sent : List Output × Option ThreadError)
      → Holds A s
      → All (OfShare u A) sent.0
      → Kept (finish s old sent)
  unfolding finish
  finish-Kept s old (outs, none) h o =
      (record { current = h.current; slots = h.slots }, All-append (OfShare u A) outs _ o (tt, tt))
  finish-Kept s old (outs, some e) h o = (h, All-append (OfShare u A) outs _ o (tt, tt))

  pub start_task-Kept :
      (s : Actor) (new_task : HashTask) (io : Io) (n : ℕ)
      → A new_task
      → All (OfSome A) s.chip_jobs.tasks
      → Kept (start_task u s new_task io n)
  unfolding start_task insert
  start_task-Kept s new_task io n a h =
      let r = task_to_job_full u.bitcoin new_task s.chip_jobs.next_id in
      finish-Kept _ s.current_task (send_job io n r)
        (record {
          current = a;
          slots = set_slot-OfSome s.chip_jobs.tasks s.chip_jobs.next_id new_task a h;
        })
        (send_job-OfShare io n r)

  pub assign-Kept :
      (prepare : ChipJobTracker → ChipJobTracker) (s : Actor) (new_task : HashTask) (io : Io)
      (r : List Command × Option InitError)
      → A new_task
      → Holds A s
      → All (OfSome A) (prepare s.chip_jobs).tasks
      → Kept (assign u prepare s new_task io r)
  unfolding assign
  assign-Kept prepare s new_task io (cs, some e) a h p = (
    h,
    All-append (OfShare u A) (bring_up_outputs u s cs) _ (bring_up_outputs-OfShare s cs) (tt, tt),
  )
  assign-Kept prepare s new_task io (cs, none) a h p =
      let ready : Actor = record s { chip_initialized = true; chip_jobs = prepare s.chip_jobs } in
      let started = start_task-Kept ready new_task io (length cs) a p in
      (
        started.0,
        All-append (OfShare u A) (bring_up_outputs u s cs) _ (bring_up_outputs-OfShare s cs)
            started.1,
      )

  pub on_tick-Kept :
      (s : Actor) (current : Option HashTask) (io : Io)
      → OfSome A current
      → Holds A s
      → Kept (on_tick u s current io)
  unfolding on_tick insert
  on_tick-Kept s none io a h = (h, tt)
  on_tick-Kept s (some task) io a h = (
    record {
      current = rolls task a;
      slots =
          set_slot-OfSome s.chip_jobs.tasks s.chip_jobs.next_id (roll_ntime task) (rolls task a)
            h.slots;
    },
    send_job-OfShare io 0 (task_to_job_full u.bitcoin (roll_ntime task) s.chip_jobs.next_id),
  )

  pub on_removal-Holds :
      (s : Actor) (signal : ThreadRemovalSignal) → Holds A s → Holds A (on_removal s signal)
  unfolding on_removal
  on_removal-Holds s running h = h
  on_removal-Holds s board_disconnected h = record { current = h.current; slots = h.slots }
  on_removal-Holds s hardware_fault h = record { current = h.current; slots = h.slots }
  on_removal-Holds s user_requested h = record { current = h.current; slots = h.slots }
  on_removal-Holds s removal_shutdown h = record { current = h.current; slots = h.slots }
