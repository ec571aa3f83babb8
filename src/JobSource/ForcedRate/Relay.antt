-- ===== src/JobSource/ForcedRate/Relay.antt =====
-- job_source/forced_rate.rs: what the wrapper sends on, by what it has received.
use nano_mujina.Prelude.{
  ℕ, zero, suc, true, false, Option, none, some, List, [], ◌∷◌, ◌++◌, ◌≡◌, refl, length, get_elem?,
  All, ap, arith, ◌==◌, if◌then◌else◌,
}
use nano_mujina.JobSource.Job.{JobTemplate}
use nano_mujina.Scheduler.{Host, update_hash_rate, submit_share, rate_target}
use nano_mujina.Scheduler.Handlers.{update_job, replace_job, clear_jobs}
use nano_mujina.JobSource.ForcedRate.{
  ForcedRateConfig, Input, inner_event, outer_command, cancelled, Message, to_scheduler, to_inner,
  new, note, send, modify_job, modify_event, step, run,
}

-- An input with a message that finds a receiver.
abbrev pub IsForwarded : Input → Type 0
IsForwarded (inner_event (some event) true) = Unit
IsForwarded (inner_event (some event) false) = ⊥
IsForwarded (inner_event none received) = ⊥
IsForwarded (outer_command (some cmd) true) = Unit
IsForwarded (outer_command (some cmd) false) = ⊥
IsForwarded (outer_command none received) = ⊥
IsForwarded cancelled = ⊥

-- The last rate among the commands, or the given one.
abbrev pub latest : ℕ → List Input → ℕ
latest rate [] = rate
latest rate (outer_command (some (update_hash_rate hr)) received ∷ rest) = latest hr rest
latest rate (outer_command (some (submit_share share)) received ∷ rest) = latest rate rest
latest rate (outer_command none received ∷ rest) = latest rate rest
latest rate (inner_event event received ∷ rest) = latest rate rest
latest rate (cancelled ∷ rest) = latest rate rest

module _ (host : Host) (interval : ℕ) where
  -- The target of a job that the source gave one, at a hashrate.
  abbrev pub forced_target : ℕ → ℕ → ℕ
  forced_target zero own = own
  forced_target (suc r) own = rate_target host interval (suc r)

  abbrev pub forced : ℕ → JobTemplate → JobTemplate
  forced rate job = record job { share_target = forced_target rate job.share_target }

  -- What becomes of an input at a hashrate.
  abbrev pub relayed : ℕ → Input → Option Message
  relayed rate (inner_event (some (update_job job)) true) =
      some (to_scheduler (update_job (forced rate job)))
  relayed rate (inner_event (some (replace_job job)) true) =
      some (to_scheduler (replace_job (forced rate job)))
  relayed rate (inner_event (some clear_jobs) true) = some (to_scheduler clear_jobs)
  relayed rate (inner_event (some event) false) = none
  relayed rate (inner_event none received) = none
  relayed rate (outer_command (some cmd) true) = some (to_inner cmd)
  relayed rate (outer_command (some cmd) false) = none
  relayed rate (outer_command none received) = none
  relayed rate cancelled = none

  modify_job-forced :
      (rate : ℕ) (job : JobTemplate)
      → modify_job host (record { target_rate = interval; hashrate = rate }) job ≡ forced rate job
  unfolding modify_job
  modify_job-forced zero job = refl
  modify_job-forced (suc r) job =
      (let positive : (suc r == 0) ≡ false = ground arith in
        ap (λ b. if b then job else record job { share_target = rate_target host interval (suc r) })
          positive)

  run-first :
      (rate : ℕ) (input : Input) (after : List Input)
      → get_elem?
          ((run host (record { target_rate = interval; hashrate = rate }) (input ∷ after)).0)
          0
        ≡ relayed rate input
  unfolding run step send note modify_event
  run-first rate (inner_event (some (update_job job)) true) after = rw (modify_job-forced rate job)
  run-first rate (inner_event (some (replace_job job)) true) after = rw (modify_job-forced rate job)
  run-first rate (inner_event (some clear_jobs) true) after = refl
  run-first rate (inner_event (some event) false) after = refl
  run-first rate (inner_event none received) after = refl
  run-first rate (outer_command (some cmd) true) after = refl
  run-first rate (outer_command (some cmd) false) after = refl
  run-first rate (outer_command none received) after = refl
  run-first rate cancelled after = refl

  run-from :
      (rate : ℕ) (before : List Input) (input : Input) (after : List Input)
      → All IsForwarded before
      → get_elem?
          ((run host
            (record { target_rate = interval; hashrate = rate })
            (before ++ input ∷ after)).0)
          (length before)
        ≡ relayed (latest rate before) input
  unfolding run step send note modify_event
  run-from rate [] input after live = run-first rate input after
  run-from rate (inner_event (some event) true ∷ rest) input after (first, live) =
      run-from rate rest input after live
  run-from rate (inner_event (some event) false ∷ rest) input after (first, live) = absurd first
  run-from rate (inner_event none received ∷ rest) input after (first, live) = absurd first
  run-from rate (outer_command (some (update_hash_rate hr)) true ∷ rest) input after (first, live) =
      run-from hr rest input after live
  run-from rate (outer_command (some (submit_share share)) true ∷ rest) input after (first, live) =
      run-from rate rest input after live
  run-from rate (outer_command (some cmd) false ∷ rest) input after (first, live) = absurd first
  run-from rate (outer_command none received ∷ rest) input after (first, live) = absurd first
  run-from rate (cancelled ∷ rest) input after (first, live) = absurd first

-- The n-th message that a new wrapper sends is the n-th that it receives, as long as all before it
-- were messages that found a receiver, in whichever order events and commands come: commands and the
-- clearing of jobs unchanged, and a job with the target that the forced rate has at the last hashrate
-- that the scheduler had sent by then, or with its own target before the first and at rate zero, and
-- with nothing else changed. An end of a channel, a failed send and the shutdown send nothing.
pub run-relayed :
    (host : Host) (config : ForcedRateConfig) (before : List Input) (input : Input)
    (after : List Input)
    → All IsForwarded before
    → get_elem? ((run host (new config) (before ++ input ∷ after)).0) (length before)
      ≡ relayed host config.target_rate (latest 0 before) input
unfolding new
run-relayed host config before input after live =
    run-from host config.target_rate 0 before input after live
