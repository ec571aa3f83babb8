-- ===== src/Scheduler/Tests.antt =====
-- scheduler.rs: runs of the scheduler on concrete inputs.
use nano_mujina.Prelude.{
  ℕ, ◌+◌, ◌≡◌, refl, Bool, true, false, none, some, List, [], ◌∷◌, arith, All, ok, length,
}
use nano_mujina.Asic.Bm13xx.Thread.{HashTask, Share}
use nano_mujina.JobSource.Extranonce2.Range.{Extranonce2Range}
use nano_mujina.JobSource.Extranonce2.Range.Split.{Tiles}
use nano_mujina.JobSource.Job.{JobTemplate, MerkleRootTemplate, computed}
use nano_mujina.Types.DebouncedAlarm
use nano_mujina.Scheduler.{ThreadEntry, Scheduler, update, replace, Output, eligible, new_scheduler}
use nano_mujina.Scheduler.Assign.{assign_job_to_threads}
use nano_mujina.Scheduler.Handlers.{
  on_share, handle_clear_jobs, on_channel, handle_share, handle_task_share, submit, handle, round,
  handle_thread_event, handle_expected, handle_thread_disconnections, thread_event,
  expected_hash_rate, share_arrived,
}
use nano_mujina.Scheduler.Slots.{get}
use nano_mujina.JobSource.Extranonce2.Value.{max_for_size}
use nano_mujina.Scheduler.Slices.{handed, pair_up, assign_job-Tiles}
use nano_mujina.Scheduler.Submit.{OfSubmit, IsNotFrom, IsFresh, replace_job-IsFresh}
use nano_mujina.Scheduler.Cleared.Rounds.{Round, rounds, rounds-no_submit}
use nano_mujina.Scheduler.Opening.{
  registered, reported, enumerated, gate_after, was_ready, gate_after-was_ready,
}
use nano_mujina.Fixtures.{word_hash, toy_host, range, template}

-- A thread that has declared a rate, and one that has not.
abbrev reporting : ThreadEntry
reporting = record {
  hashrate = record {
    window = 300000000000;
    min_samples = 10;
    max_samples = 10000;
    samples = [];
    total_work = 0;
  };
  expected = some 1000;
  hardware_hashrate = none;
}

abbrev silent : ThreadEntry
silent = record reporting { expected = none }

abbrev root : MerkleRootTemplate
root = record {
  coinbase1 = 1 ∷ [];
  extranonce1 = 2 ∷ [];
  extranonce2_range = range;
  coinbase2 = 3 ∷ [];
  merkle_branches = [];
}

abbrev job : JobTemplate
job = template (computed root)

-- A source, two threads that have reported and one that has not, and a task of the source.
abbrev busy : Scheduler
busy = record new_scheduler {
  sources = record {
    entries =
        (
          0,
          record {
            name = [];
            url = none;
            last_job = some job;
            difficulty_alarm = record { debounce = 30; state = DebouncedAlarm.State.idle };
          },
        )
        ∷ [];
    next_key = 1;
  };
  threads = record { entries = (0, reporting) ∷ (1, silent) ∷ (2, reporting) ∷ []; next_key = 3 };
  tasks = record {
    entries = (0, record { source_id = 0; template = job; thread_id = 0 }) ∷ [];
    next_key = 1;
  };
  share_channels = (0, 5) ∷ [];
  next_channel = 6;
}

abbrev everyone : ℕ → HashTask → Bool
everyone thread_id task = true

abbrev found : Share
found = record {
  nonce = 42;
  hash = word_hash 42;
  version = 0;
  ntime = 1000;
  extranonce2 = none;
  expected_work = 9;
}

assign_job-Tiles_example :
    (rs : List Extranonce2Range) × (s' : Scheduler) × (outs : List Output) × (assign_job_to_threads
        toy_host everyone 7 update 0 job busy
      ≡ ok (s', outs))
    × (handed outs ≡ pair_up job (eligible busy.threads.entries) rs)
    × (length rs ≡ length (eligible busy.threads.entries))
    × Tiles 0 (255 + 1) rs
unfolding max_for_size
assign_job-Tiles_example =
    assign_job-Tiles toy_host everyone 7 update 0 job root busy refl
      (record {
        size_pos = omega arith;
        size_le = omega arith;
        ordered = omega arith;
        fits = omega arith;
      })
      (omega arith) (omega arith) (omega arith)

-- A thread that reports, which is when it gets the cached jobs, and the share of an old task.
abbrev later_rounds : List Round
later_rounds =
    record {
      accepts = everyone;
      now = 7;
      ended = λ id. false;
      event = thread_event 1 (expected_hash_rate 500);
    }
    ∷ record { accepts = everyone; now = 9; ended = λ id. false; event = share_arrived 5 found }
    ∷ []

ran :
    (s' : Scheduler) × (outs : List Output) × (rounds toy_host later_rounds
        (handle_clear_jobs 0 busy)
      ≡ ok (s', outs))
unfolding rounds round handle handle_thread_event handle_expected handle_thread_disconnections
    handle_clear_jobs on_share on_channel handle_share get
ran = (_, _, refl)

rounds-no_submit_example : All (OfSubmit (IsNotFrom 0)) ran.1
rounds-no_submit_example =
    rounds-no_submit toy_host 0 busy ran.0 later_rounds ran.1 (tt, tt) (tt, (tt, tt)) ran.2

-- The replacement of the source's jobs, which every thread accepts.
replaced :
    (rs : List Extranonce2Range) × (s' : Scheduler) × (outs : List Output) × (assign_job_to_threads
        toy_host everyone 7 replace 0 job busy
      ≡ ok (s', outs))
    × (handed outs ≡ pair_up job (eligible busy.threads.entries) rs)
    × (length rs ≡ length (eligible busy.threads.entries))
    × Tiles 0 (255 + 1) rs
unfolding max_for_size
replaced =
    assign_job-Tiles toy_host everyone 7 replace 0 job root busy refl
      (record {
        size_pos = omega arith;
        size_le = omega arith;
        ordered = omega arith;
        fits = omega arith;
      })
      (omega arith) (omega arith) (omega arith)

replace_job-IsFresh_example :
    All (OfSubmit (IsFresh 0 (1 ∷ []))) (on_share toy_host 9 5 found replaced.1).1
replace_job-IsFresh_example =
    replace_job-IsFresh toy_host everyone 7 0 job root busy replaced.1 replaced.2 refl (omega arith)
      replaced.3 9 5 found

gate_after-was_ready_example :
    (gate_after (reported ∷ enumerated ∷ registered ∷ [])).is_open
    ≡ was_ready (reported ∷ enumerated ∷ registered ∷ [])
gate_after-was_ready_example = gate_after-was_ready (reported ∷ enumerated ∷ registered ∷ [])

-- The share of the task reaches its source before the jobs are cleared.
share_before : length (on_share toy_host 9 5 found busy).1 ≡ 1
unfolding on_share on_channel handle_share handle_task_share submit get
share_before = refl
