-- ===== src/Asic/Bm13xx/Thread/Invariant.antt =====
-- thread.rs: the table of jobs stays in order, whatever happens.
use nano_mujina.Prelude.{
  ℕ, true, ◌≡◌, refl, sym, subst, Option, none, some, List, [], ◌∷◌, length, if-holds,
}
use nano_mujina.Asic.Bm13xx.Command.{Command}
use nano_mujina.Asic.Bm13xx.Thread.{HashTask, ChipJobTracker, task_to_job_full, insert, clear}
use nano_mujina.Asic.Bm13xx.Thread.Tracker.{IsTracker, insert-IsTracker, clear-IsTracker}
use nano_mujina.Asic.Bm13xx.Thread.Init.{Io, InitError}
use nano_mujina.Asic.Bm13xx.Thread.Actor.{
  Setup, Actor, ThreadError, Output, Event, update_task, replace_task, send_job, finish, roll_ntime,
  start_task, bring_up, assign, on_update_task, on_replace_task, on_tick, on_removal,
  ThreadRemovalSignal, running, board_disconnected, hardware_fault, user_requested,
  removal_shutdown, on_go_idle, step, leaves, run, removal, configure, go_idle, shutdown,
  serial_error, ntime_tick, chip_response,
}

module _ (u : Setup) where
  finish-chip_jobs :
      (s : Actor) (old : Option HashTask) (sent : List Output × Option ThreadError)
      → (finish s old sent).0.chip_jobs ≡ s.chip_jobs
  unfolding finish
  finish-chip_jobs s old (outs, none) = refl
  finish-chip_jobs s old (outs, some e) = refl

  pub start_task-chip_jobs :
      (s : Actor) (new_task : HashTask) (io : Io) (n : ℕ)
      → (start_task u s new_task io n).0.chip_jobs ≡ insert s.chip_jobs new_task
  unfolding start_task
  start_task-chip_jobs s new_task io n =
      finish-chip_jobs
        (record s { chip_jobs = insert s.chip_jobs new_task; current_task = some new_task })
        s.current_task (send_job io n (task_to_job_full u.bitcoin new_task s.chip_jobs.next_id))

  assign-IsTracker :
      (prepare : ChipJobTracker → ChipJobTracker) (s : Actor) (new_task : HashTask) (io : Io)
      (r : List Command × Option InitError)
      → IsTracker s.chip_jobs
      → IsTracker (prepare s.chip_jobs)
      → IsTracker (assign u prepare s new_task io r).0.chip_jobs
  unfolding assign
  assign-IsTracker prepare s new_task io (cs, some e) h p = h
  assign-IsTracker prepare s new_task io (cs, none) h p =
      subst IsTracker
        (sym (
          start_task-chip_jobs
            (record s { chip_initialized = true; chip_jobs = prepare s.chip_jobs }) new_task io
            (length cs)))
        (insert-IsTracker (prepare s.chip_jobs) new_task p)

  on_tick-IsTracker :
      (s : Actor) (current : Option HashTask) (io : Io)
      → IsTracker s.chip_jobs
      → IsTracker (on_tick u s current io).0.chip_jobs
  unfolding on_tick
  on_tick-IsTracker s none io h = h
  on_tick-IsTracker s (some task) io h = insert-IsTracker s.chip_jobs (roll_ntime task) h

  on_removal-chip_jobs :
      (s : Actor) (signal : ThreadRemovalSignal) → (on_removal s signal).chip_jobs ≡ s.chip_jobs
  unfolding on_removal
  on_removal-chip_jobs s running = refl
  on_removal-chip_jobs s board_disconnected = refl
  on_removal-chip_jobs s hardware_fault = refl
  on_removal-chip_jobs s user_requested = refl
  on_removal-chip_jobs s removal_shutdown = refl

  step-IsTracker :
      (s : Actor) (io : Io) (event : Event)
      → IsTracker s.chip_jobs
      → IsTracker (step u s io event).0.chip_jobs
  unfolding step on_update_task on_replace_task on_go_idle
  step-IsTracker s io (removal signal) h = subst IsTracker (sym (on_removal-chip_jobs s signal)) h
  step-IsTracker s io configure h = h
  step-IsTracker s io go_idle h = h
  step-IsTracker s io shutdown h = h
  step-IsTracker s io serial_error h = h
  step-IsTracker s io (chip_response r) h = h
  step-IsTracker s io ntime_tick h = on_tick-IsTracker s s.current_task io h
  step-IsTracker s io (update_task new_task) h =
      assign-IsTracker (λ jobs. jobs) s new_task io (bring_up u s io) h h
  step-IsTracker s io (replace_task new_task) h =
      assign-IsTracker clear s new_task io (bring_up u s io) h (clear-IsTracker s.chip_jobs h)

  pub run-IsTracker :
      (s : Actor) (events : List (Io × Event))
      → IsTracker s.chip_jobs
      → IsTracker (run u s events).0.chip_jobs
  unfolding run
  run-IsTracker s [] h = h
  run-IsTracker s ((io, event) ∷ rest) h =
      if-holds (λ (r : Actor × List Output). IsTracker r.0.chip_jobs) (leaves event) _ _
        (λ _. step-IsTracker s io event h)
        (λ _. run-IsTracker (step u s io event).0 rest (step-IsTracker s io event h))
