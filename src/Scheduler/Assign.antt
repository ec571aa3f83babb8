-- ===== src/Scheduler/Assign.antt =====
-- scheduler.rs: `assign_job_to_threads` and `assign_cached_jobs_to_thread`. The surroundings say which
-- threads accept which task; `now` is the time of the call.
use nano_mujina.Prelude.{
  ℕ, ◌+◌, Bool, true, not, Option, none, some, List, [], ◌∷◌, ◌++◌, length, ◌==◌, if◌then◌else◌,
  Outcome, ok, panic, ◌>>=◌,
}
use nano_mujina.Asic.Bm13xx.Thread.{HashTask}
use nano_mujina.JobSource.Extranonce2.Range.{Extranonce2Range, split}
use nano_mujina.JobSource.Extranonce2.Iter.{iter, next}
use nano_mujina.JobSource.Job.{JobTemplate, MerkleRootKind, fixed, computed}
use nano_mujina.Types.DebouncedAlarm
use nano_mujina.Types.DebouncedAlarm.{DebouncedAlarm}
use nano_mujina.Types.HashrateEstimator.{HashrateEstimator, settled_hashrate_at}
use nano_mujina.Scheduler.{
  Host, TaskEntry, SourceEntry, ThreadEntry, Scheduler, AssignMode, update, replace, Output,
  assign_task, expected_hashrate, eligible, compute_scheduler_target, is_difficulty_too_high,
}
use nano_mujina.Scheduler.Slots
use nano_mujina.Scheduler.Slots.{Store, retain_in, retain, insert, modify, get}

abbrev Step : Type 0
Step = Scheduler × List Output

-- The keys of the tasks that are left.
abbrev pub without_channels : List (ℕ × ℕ) → List (ℕ × TaskEntry) → List (ℕ × ℕ)
without_channels channels tasks =
    retain (λ task_id _. Slots.has_key (Slots.keys tasks) task_id) channels

-- The tasks that match the predicate go, and their channels with them.
unfoldable pub remove_tasks_where : (TaskEntry → Bool) → Scheduler → Scheduler
remove_tasks_where matches s =
    let left : Store TaskEntry = retain_in (λ _ entry. not (matches entry)) s.tasks in
    record s { tasks = left; share_channels = without_channels s.share_channels left.entries }

-- `prev_target != Some(template.share_target)`.
abbrev pub target_changed : Option JobTemplate → JobTemplate → Bool
target_changed none template = true
target_changed (some last) template = not (last.share_target == template.share_target)

unfoldable pub cache_job : JobTemplate → SourceEntry → SourceEntry
cache_job template source = record source {
  difficulty_alarm =
      if target_changed source.last_job template
      then DebouncedAlarm.reset source.difficulty_alarm
      else source.difficulty_alarm;
  last_job = some template;
}

-- The alarm's check; its status is only logged.
unfoldable pub check_difficulty : ℕ → Bool → SourceEntry → SourceEntry
check_difficulty now too_high source = record source {
  difficulty_alarm = (DebouncedAlarm.check source.difficulty_alarm now too_high).1;
}

-- `.settled_hashrate().or(entry.expected).unwrap_or_default()`.
abbrev pub rate_or : Option ℕ → Option ℕ → ℕ
rate_or (some settled) expected = settled
rate_or none (some expected) = expected
rate_or none none = 0

module _ (host : Host) where
  -- The task for a thread with a rate, on the next channel.
  unfoldable pub make_task : JobTemplate → Extranonce2Range → ℕ → ℕ → HashTask
  make_task template range rate channel = record {
    template = template;
    en2_range = some range;
    en2 = (next (iter range)).0;
    share_target = compute_scheduler_target host rate template.share_target;
    ntime = template.time;
    share_tx = channel;
  }

  -- The call of the thread, and the entry and channel of the task when the thread accepts it.
  unfoldable pub give_task :
      (ℕ → HashTask → Bool) → AssignMode → ℕ → ℕ → HashTask → Scheduler → Step
  give_task accepts mode source_id thread_id task s =
      let called : Scheduler = record s { next_channel = s.next_channel + 1 } in
      (
        if accepts thread_id task
            then record called {
              tasks = insert s.tasks (record {
                source_id = source_id;
                template = task.template;
                thread_id = thread_id;
              });
              share_channels = s.share_channels ++ ((s.tasks.next_key, task.share_tx) ∷ []);
            }
            else called,
        assign_task thread_id mode task ∷ [],
      )

  -- A slice for a thread, whose estimator has returned its settled rate and its new state.
  unfoldable pub give_slice :
      (ℕ → HashTask → Bool)
      → AssignMode
      → ℕ
      → JobTemplate
      → ℕ
      → Extranonce2Range
      → Option ℕ
      → Option ℕ × HashrateEstimator
      → Scheduler
      → Step
  give_slice accepts mode source_id template thread_id range expected measured s =
      give_task accepts mode source_id thread_id
        (make_task template range (rate_or measured.0 expected) s.next_channel)
        (record s {
          threads = modify s.threads thread_id (λ e. record e { hashrate = measured.1 });
        })

  -- One round of the assignment loop, with the entry of its thread; `expect` finds every eligible one.
  unfoldable pub assign_slice :
      (ℕ → HashTask → Bool)
      → ℕ
      → AssignMode
      → ℕ
      → JobTemplate
      → ℕ
      → Extranonce2Range
      → Option ThreadEntry
      → Scheduler
      → Outcome ⊥ Step
  assign_slice accepts now mode source_id template thread_id range none s = panic
  assign_slice accepts now mode source_id template thread_id range (some entry) s = ok (
      give_slice accepts mode source_id template thread_id range entry.expected
        (settled_hashrate_at host.ruint entry.hashrate now) s)

  -- The loop over the eligible threads and the slices.
  unfoldable pub assign_slices :
      (ℕ → HashTask → Bool)
      → ℕ
      → AssignMode
      → ℕ
      → JobTemplate
      → List ℕ
      → List Extranonce2Range
      → Scheduler
      → Outcome ⊥ Step
  assign_slices accepts now mode source_id template [] slices s = ok (s, [])
  assign_slices accepts now mode source_id template (t ∷ ts) [] s = ok (s, [])
  assign_slices accepts now mode source_id template (t ∷ ts) (range ∷ slices) s = do
    (s1, outs) ← assign_slice accepts now mode source_id template t range (get s.threads t) s
    (s2, more) ← assign_slices accepts now mode source_id template ts slices s1
    ok (s2, outs ++ more)

  -- `.split(eligible.len()).expect(…)` and the loop.
  unfoldable pub assign_split :
      (ℕ → HashTask → Bool)
      → ℕ
      → AssignMode
      → ℕ
      → JobTemplate
      → List ℕ
      → Outcome ⊥ (Option (List Extranonce2Range))
      → Scheduler
      → Outcome ⊥ Step
  assign_split accepts now mode source_id template threads (ok (some slices)) s =
      assign_slices accepts now mode source_id template threads slices s
  assign_split accepts now mode source_id template threads _ s = panic

  -- `if matches!(mode, AssignMode::Replace)`.
  unfoldable pub invalidate : AssignMode → ℕ → Scheduler → Scheduler
  invalidate replace source_id s = remove_tasks_where (λ e. e.source_id == source_id) s
  invalidate update source_id s = s

  -- From `if eligible.is_empty()` on.
  unfoldable pub assign_eligible :
      (ℕ → HashTask → Bool)
      → ℕ
      → AssignMode
      → ℕ
      → JobTemplate
      → Extranonce2Range
      → List ℕ
      → Scheduler
      → Outcome ⊥ Step
  assign_eligible accepts now mode source_id template range threads s =
      if length threads == 0
      then ok (s, [])
      else assign_split accepts now mode source_id template threads (split range (length threads)) s

  -- From the check of the difficulty on.
  unfoldable pub assign_range :
      (ℕ → HashTask → Bool)
      → ℕ
      → AssignMode
      → ℕ
      → JobTemplate
      → Extranonce2Range
      → Scheduler
      → Outcome ⊥ Step
  assign_range accepts now mode source_id template range s =
      let too_high = is_difficulty_too_high host template (expected_hashrate s) in
      let checked : Scheduler = record s {
        sources = modify s.sources source_id (check_difficulty now too_high);
      } in
      let ready : Scheduler = invalidate mode source_id checked in
      assign_eligible accepts now mode source_id template range (eligible ready.threads.entries)
        ready

  -- `assign_job_to_threads`, by the kind of the job's merkle root.
  unfoldable pub assign_kind :
      (ℕ → HashTask → Bool)
      → ℕ
      → AssignMode
      → ℕ
      → JobTemplate
      → MerkleRootKind
      → Scheduler
      → Outcome ⊥ Step
  assign_kind accepts now mode source_id template (fixed _) s = ok (s, [])
  assign_kind accepts now mode source_id template (computed root) s =
      let cached : Scheduler = record s {
        sources = modify s.sources source_id (cache_job template);
      } in
      let work = assign_range accepts now mode source_id template root.extranonce2_range cached in
      if length s.threads.entries == 0 then ok (cached, []) else work

  unfoldable pub assign_job_to_threads :
      (ℕ → HashTask → Bool) → ℕ → AssignMode → ℕ → JobTemplate → Scheduler → Outcome ⊥ Step
  assign_job_to_threads accepts now mode source_id template s =
      assign_kind accepts now mode source_id template template.merkle_root s

  -- A cached job for a thread, unless it is header-only.
  unfoldable pub assign_cached_kind :
      (ℕ → HashTask → Bool) → ℕ → ℕ → ℕ → JobTemplate → MerkleRootKind → Scheduler → Step
  assign_cached_kind accepts rate source_id thread_id template (fixed _) s = (s, [])
  assign_cached_kind accepts rate source_id thread_id template (computed root) s =
      give_task accepts update source_id thread_id
        (make_task template root.extranonce2_range rate s.next_channel) s

  -- A source's cached job for a thread, if it has one.
  unfoldable pub assign_cached :
      (ℕ → HashTask → Bool) → ℕ → ℕ → ℕ → Option JobTemplate → Scheduler → Step
  assign_cached accepts rate source_id thread_id none s = (s, [])
  assign_cached accepts rate source_id thread_id (some template) s =
      assign_cached_kind accepts rate source_id thread_id template template.merkle_root s

  -- The loop over the sources.
  unfoldable pub assign_cached_jobs :
      (ℕ → HashTask → Bool) → ℕ → ℕ → List (ℕ × SourceEntry) → Scheduler → Step
  assign_cached_jobs accepts rate thread_id [] s = (s, [])
  assign_cached_jobs accepts rate thread_id ((source_id, source) ∷ rest) s =
      let now = assign_cached accepts rate source_id thread_id source.last_job s in
      let later = assign_cached_jobs accepts rate thread_id rest now.0 in
      (later.0, now.1 ++ later.1)

  -- `assign_cached_jobs_to_thread`, with the thread's entry.
  unfoldable pub assign_cached_jobs_to_thread :
      (ℕ → HashTask → Bool) → ℕ → ℕ → ThreadEntry → Scheduler → Step
  assign_cached_jobs_to_thread accepts now thread_id entry s =
      let (settled, estimator) = settled_hashrate_at host.ruint entry.hashrate now in
      let measured : Scheduler = record s {
        threads = modify s.threads thread_id (λ e. record e { hashrate = estimator });
      } in
      assign_cached_jobs accepts (rate_or settled entry.expected) thread_id s.sources.entries
        measured
