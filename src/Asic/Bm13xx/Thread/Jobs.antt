-- ===== src/Asic/Bm13xx/Thread/Jobs.antt =====
-- thread.rs: the jobs that reach the chips and the table of their tasks belong together.
use nano_mujina.Prelude.{
  ℕ, true, ◌≡◌, ap, ◌∙◌, Option, none, some, List, [], length, if-holds, All, All-append,
}
use nano_mujina.Asic.Bm13xx.Hash.{Hash}
use nano_mujina.Asic.Bm13xx.Command.{Command, JobFullFormat}
use nano_mujina.Asic.Bm13xx.Response.{Response, nonce}
use nano_mujina.JobSource.Version.{GeneralPurposeBits}
use nano_mujina.Asic.Bm13xx.Thread.{
  HashTask, ChipJobTracker, task_merkle_root, task_to_job_full, insert, get, clear,
}
use nano_mujina.Asic.Bm13xx.Thread.Tracker.{
  IsTracker, get-insert, clear-IsTracker, new_tracker-IsTracker,
}
use nano_mujina.Asic.Bm13xx.Thread.Init.{Io, InitError}
use nano_mujina.Asic.Bm13xx.Thread.Actor.{
  Setup, Actor, Event, update_task, replace_task, new_actor, roll_ntime, start_task, bring_up,
  bring_up_outputs, assign, on_update_task, on_replace_task, nonce_root, check_nonce, nonce_for,
  on_response, on_tick, on_go_idle, step, run, removal, configure, go_idle, shutdown, serial_error,
  ntime_tick, chip_response,
}
use nano_mujina.Asic.Bm13xx.Thread.Commands.{
  OfCommand, OfJob, bring_up-no_job, bring_up_outputs-no_job, send_job-All, finish-All,
}
use nano_mujina.Asic.Bm13xx.Thread.Answers.{IsAnswered, answers}
use nano_mujina.Asic.Bm13xx.Thread.Invariant.{start_task-chip_jobs, run-IsTracker}

module _ (u : Setup) where
  -- The slot of the next id, once the task is in it.
  inserted :
      (before after : ChipJobTracker) (task : HashTask)
      → IsTracker before
      → after ≡ insert before task
      → get after before.next_id ≡ some task
  inserted before after task h e = ap (λ jobs. get jobs before.next_id) e ∙ get-insert before task h

  start_task-answers :
      (s : Actor) (new_task : HashTask) (io : Io) (n : ℕ)
      → IsTracker s.chip_jobs
      → All (OfJob (IsAnswered u (start_task u s new_task io n).0)) (start_task u s new_task io n).1
  unfolding start_task task_to_job_full
  start_task-answers s new_task io n h =
      let after : Actor = (start_task u s new_task io n).0 in
      finish-All (IsAnswered u after) _ s.current_task _ (
        send_job-All (IsAnswered u after) io n new_task s.chip_jobs.next_id
          (task_merkle_root u.bitcoin new_task new_task.template.merkle_root)
          (λ root made.
            answers u after new_task s.chip_jobs.next_id root
              (inserted s.chip_jobs after.chip_jobs new_task h
                (start_task-chip_jobs u s new_task io n))
              made))

  assign-answers :
      (prepare : ChipJobTracker → ChipJobTracker) (s : Actor) (new_task : HashTask) (io : Io)
      (r : List Command × Option InitError)
      → IsTracker (prepare s.chip_jobs)
      → ((P : JobFullFormat → Type 0) → All (OfCommand P) r.0)
      → All
          (OfJob (IsAnswered u (assign u prepare s new_task io r).0))
          (assign u prepare s new_task io r).1
  unfolding assign
  assign-answers prepare s new_task io (cs, some e) h c =
      All-append (OfJob (IsAnswered u s)) (bring_up_outputs u s cs) _
        (bring_up_outputs-no_job (IsAnswered u s) u s cs (c (IsAnswered u s))) (tt, tt)
  assign-answers prepare s new_task io (cs, none) h c =
      let ready : Actor = record s { chip_initialized = true; chip_jobs = prepare s.chip_jobs } in
      let P : JobFullFormat → Type 0 =
        IsAnswered u (start_task u ready new_task io (length cs)).0 in
      All-append (OfJob P) (bring_up_outputs u s cs) _ (bring_up_outputs-no_job P u s cs (c P))
        (start_task-answers ready new_task io (length cs) h)

  on_tick-answers :
      (s : Actor) (current : Option HashTask) (io : Io)
      → IsTracker s.chip_jobs
      → All (OfJob (IsAnswered u (on_tick u s current io).0)) (on_tick u s current io).1
  unfolding on_tick task_to_job_full
  on_tick-answers s none io h = tt
  on_tick-answers s (some task) io h =
      let after : Actor = (on_tick u s (some task) io).0 in
      send_job-All (IsAnswered u after) io 0 (roll_ntime task) s.chip_jobs.next_id
        (task_merkle_root u.bitcoin (roll_ntime task) task.template.merkle_root)
        (λ root made.
          answers u after (roll_ntime task) s.chip_jobs.next_id root
            (get-insert s.chip_jobs (roll_ntime task) h) made)

  check_nonce-no_job :
      (P : JobFullFormat → Type 0) (task : HashTask) (root : Option Hash) (n : ℕ)
      (version : GeneralPurposeBits)
      → All (OfJob P) (check_nonce u task root n version)
  unfolding check_nonce
  check_nonce-no_job P task none n version = tt
  check_nonce-no_job P task (some root) n version =
      if-holds (All (OfJob P)) (u.bitcoin.is_met_by task.share_target _) _ [] (λ _. (tt, tt))
        (λ _. tt)

  nonce_for-no_job :
      (P : JobFullFormat → Type 0) (task : Option HashTask) (n : ℕ) (version : GeneralPurposeBits)
      → All (OfJob P) (nonce_for u task n version)
  unfolding nonce_for
  nonce_for-no_job P none n version = tt
  nonce_for-no_job P (some task) n version =
      check_nonce-no_job P task (nonce_root u task.template task.en2) n version

  pub on_response-no_job :
      (P : JobFullFormat → Type 0) (s : Actor) (r : Response) → All (OfJob P) (on_response u s r)
  unfolding on_response
  on_response-no_job P s (nonce n job_id m version c) =
      nonce_for-no_job P (get s.chip_jobs job_id) n version
  on_response-no_job P s (Response.read_register a r) = tt

  step-answers :
      (s : Actor) (io : Io) (event : Event)
      → IsTracker s.chip_jobs
      → All (OfJob (IsAnswered u (step u s io event).0)) (step u s io event).1
  unfolding step on_update_task on_replace_task on_go_idle
  step-answers s io (removal signal) h = tt
  step-answers s io configure h = (tt, tt)
  step-answers s io go_idle h = (tt, tt)
  step-answers s io shutdown h = tt
  step-answers s io serial_error h = tt
  step-answers s io (chip_response r) h = on_response-no_job (IsAnswered u s) s r
  step-answers s io ntime_tick h = on_tick-answers s s.current_task io h
  step-answers s io (update_task new_task) h =
      assign-answers (λ jobs. jobs) s new_task io (bring_up u s io) h
        (λ P. bring_up-no_job P u s io)
  step-answers s io (replace_task new_task) h =
      assign-answers clear s new_task io (bring_up u s io) (clear-IsTracker s.chip_jobs h)
        (λ P. bring_up-no_job P u s io)

  -- After any events, failures of the sink and of the chips' bring-up included, every job that the next
  -- event sends to the chips has a task in the table under its id, and every nonce that the chips
  -- then report for it leads to a share exactly when the hash of the header that the chips were given,
  -- completed with the nonce and the rolled version, meets that task's target; except that jobs of a
  -- fixed merkle root never lead to one.
  pub run-step_answers :
      (events : List (Io × Event)) (io : Io) (event : Event)
      → All
          (OfJob (IsAnswered u (step u (run u new_actor events).0 io event).0))
          (step u (run u new_actor events).0 io event).1
  unfolding new_actor
  run-step_answers events io event =
      step-answers (run u new_actor events).0 io event
        (run-IsTracker u new_actor events new_tracker-IsTracker)
