-- ===== src/Scheduler/Cleared.antt =====
-- scheduler.rs: once a source has cleared its jobs, it gets no shares until it has a new job. This
-- module has the assignment of jobs, Sources the handlers that change sources, Rounds the loop.
pub mod Sources
pub mod Rounds
use nano_mujina.Prelude.{
  ℕ, Bool, true, false, not, ◌≡◌, ◌≢◌, refl, sym, ap, ◌∙◌, subst, ◌⊎◌, inl, inr, Option, none, some,
  List, [], ◌∷◌, ◌++◌, length, ◌==◌, if-holds, Outcome, ok, err, panic, ◌>>=◌, All, All-append,
  arith,
}
use nano_mujina.Asic.Bm13xx.Thread.{HashTask, Share}
use nano_mujina.JobSource.Extranonce2.Range.{Extranonce2Range, split}
use nano_mujina.JobSource.Job.{JobTemplate, MerkleRootKind, fixed, computed}
use nano_mujina.Types.HashrateEstimator.{HashrateEstimator, settled_hashrate_at}
use nano_mujina.Scheduler.{
  Host, TaskEntry, SourceEntry, ThreadEntry, Scheduler, AssignMode, update, replace, Output,
  to_source, configure_thread, publish, assign_task, is_difficulty_too_high, expected_hashrate,
}
use nano_mujina.Scheduler.Slots
use nano_mujina.Scheduler.Slots.{Store, retain_in, retain, insert, modify, get}
use nano_mujina.Scheduler.Assign.{
  remove_tasks_where, cache_job, check_difficulty, rate_or, give_task, give_slice, assign_slice,
  make_task, assign_slices, assign_split, invalidate, assign_eligible, assign_range, assign_kind,
  assign_job_to_threads, assign_cached_kind, assign_cached, assign_cached_jobs,
  assign_cached_jobs_to_thread,
}
use nano_mujina.Scheduler.Submit.{OfSubmit, OfTask, IsNotFrom, retain-IsNotFrom}

abbrev pub Step : Type 0
Step = Scheduler × List Output

-- A source with another key, or without a job.
abbrev pub HasNoJob : ℕ → ℕ × SourceEntry → Type 0
HasNoJob id (k, source) = (k ≢ id) ⊎ (source.last_job ≡ none)

-- The source has no task and no job.
abbrev pub IsIdle : ℕ → Scheduler → Type 0
IsIdle id s = All (OfTask (IsNotFrom id)) s.tasks.entries × All (HasNoJob id) s.sources.entries

-- A step that leaves it so and submits nothing to it.
abbrev pub LeavesIdle : ℕ → Step → Type 0
LeavesIdle id r = IsIdle id r.0 × All (OfSubmit (IsNotFrom id)) r.1

abbrev pub ResultIdle : ℕ → Outcome ⊥ Step → Type 0
ResultIdle id (ok r) = LeavesIdle id r
ResultIdle id (err e) = Unit
ResultIdle id panic = Unit

retain-All :
    {V : Type 0}
    → (P : ℕ × V → Type 0) (test : ℕ → V → Bool) (xs : List (ℕ × V)) → All P xs
    → All P (retain test xs)
retain-All P test [] h = tt
retain-All P test ((k, v) ∷ rest) (h, hs) =
    if-holds (All P) (test k v) _ _ (λ _. (h, retain-All P test rest hs))
      (λ _. retain-All P test rest hs)

pub remove_tasks_where-IsIdle :
    (id : ℕ) (matches : TaskEntry → Bool) (s : Scheduler)
    → IsIdle id s
    → IsIdle id (remove_tasks_where matches s)
unfolding remove_tasks_where retain_in
remove_tasks_where-IsIdle id matches s (tasks, sources) = (
  retain-All (OfTask (IsNotFrom id)) (λ _ entry. not (matches entry)) s.tasks.entries tasks,
  sources,
)

equal : (a b : ℕ) → (a == b) ≡ true → a ≡ b
equal a b h = ground arith

-- An update of a source that gives the one with the key no job.
update-HasNoJob :
    (id key : ℕ) (f : SourceEntry → SourceEntry) (xs : List (ℕ × SourceEntry))
    → ((k : ℕ) (source : SourceEntry)
        → k ≡ key
        → HasNoJob id (k, source)
        → HasNoJob id (k, f source))
    → All (HasNoJob id) xs
    → All (HasNoJob id) (Slots.update xs key f)
update-HasNoJob id key f [] keeps h = tt
update-HasNoJob id key f ((k, v) ∷ rest) keeps (h, hs) =
    if-holds (All (HasNoJob id)) (k == key) _ _ (λ same. (keeps k v (equal k key same) h, hs))
      (λ _. (h, update-HasNoJob id key f rest keeps hs))

module _ (host : Host) (accepts : ℕ → HashTask → Bool) (id : ℕ) where
  give_task-LeavesIdle :
      (mode : AssignMode) (other thread_id : ℕ) (task : HashTask) (s : Scheduler)
      → other ≢ id
      → IsIdle id s
      → LeavesIdle id (give_task host accepts mode other thread_id task s)
  unfolding give_task insert
  give_task-LeavesIdle mode other thread_id task s differs (tasks, sources) = (
    if-holds (IsIdle id) (accepts thread_id task) _ _
        (λ _. (All-append (OfTask (IsNotFrom id)) s.tasks.entries _ tasks (differs, tt), sources))
        (λ _. (tasks, sources)),
    (tt, tt),
  )

  -- The outputs of two steps.
  add_outputs-ResultIdle :
      (outs : List Output) (r : Outcome ⊥ Step)
      → All (OfSubmit (IsNotFrom id)) outs
      → ResultIdle id r
      → ResultIdle id (r >>= λ (s2, more). ok (s2, outs ++ more))
  add_outputs-ResultIdle outs (ok (s2, more)) h (idle, hs) =
      (idle, All-append (OfSubmit (IsNotFrom id)) outs more h hs)
  add_outputs-ResultIdle outs (err e) h k = absurd e
  add_outputs-ResultIdle outs panic h k = tt

  pub then-ResultIdle :
      (first : Outcome ⊥ Step) (second : Scheduler → Outcome ⊥ Step)
      → ResultIdle id first
      → ((s1 : Scheduler) → IsIdle id s1 → ResultIdle id (second s1))
      → ResultIdle id (first >>= λ (s1, outs). (second s1 >>= λ (s2, more). ok (s2, outs ++ more)))
  then-ResultIdle (ok (s1, outs)) second (idle, h) k =
      add_outputs-ResultIdle outs (second s1) h (k s1 idle)
  then-ResultIdle (err e) second h k = absurd e
  then-ResultIdle panic second h k = tt

  module _ (now : ℕ) (mode : AssignMode) (other : ℕ) (differs : other ≢ id)
      (template : JobTemplate) where
    assign_slice-ResultIdle :
        (thread_id : ℕ) (range : Extranonce2Range) (entry : Option ThreadEntry) (s : Scheduler)
        → IsIdle id s
        → ResultIdle id (assign_slice host accepts now mode other template thread_id range entry s)
    unfolding assign_slice give_slice
    assign_slice-ResultIdle thread_id range none s h = tt
    assign_slice-ResultIdle thread_id range (some entry) s h =
        give_task-LeavesIdle mode other thread_id _ _ differs h

    assign_slices-ResultIdle :
        (threads : List ℕ) (slices : List Extranonce2Range) (s : Scheduler)
        → IsIdle id s
        → ResultIdle id (assign_slices host accepts now mode other template threads slices s)
    unfolding assign_slices
    assign_slices-ResultIdle [] slices s h = (h, tt)
    assign_slices-ResultIdle (t ∷ ts) [] s h = (h, tt)
    assign_slices-ResultIdle (t ∷ ts) (range ∷ slices) s h =
        then-ResultIdle
          (assign_slice host accepts now mode other template t range (get s.threads t) s)
          (λ s1. assign_slices host accepts now mode other template ts slices s1)
          (assign_slice-ResultIdle t range (get s.threads t) s h)
          (λ s1 h1. assign_slices-ResultIdle ts slices s1 h1)

    assign_split-ResultIdle :
        (threads : List ℕ) (slices : Outcome ⊥ (Option (List Extranonce2Range))) (s : Scheduler)
        → IsIdle id s
        → ResultIdle id (assign_split host accepts now mode other template threads slices s)
    unfolding assign_split
    assign_split-ResultIdle threads (ok (some slices)) s h =
        assign_slices-ResultIdle threads slices s h
    assign_split-ResultIdle threads (ok none) s h = tt
    assign_split-ResultIdle threads (err e) s h = absurd e
    assign_split-ResultIdle threads panic s h = tt

    assign_eligible-ResultIdle :
        (range : Extranonce2Range) (threads : List ℕ) (s : Scheduler)
        → IsIdle id s
        → ResultIdle id (assign_eligible host accepts now mode other template range threads s)
    unfolding assign_eligible
    assign_eligible-ResultIdle range threads s h =
        if-holds (ResultIdle id) (length threads == 0) _ _ (λ _. (h, tt))
          (λ _. assign_split-ResultIdle threads (split range (length threads)) s h)

    assign_range-ResultIdle :
        (range : Extranonce2Range) (s : Scheduler)
        → IsIdle id s
        → ResultIdle id (assign_range host accepts now mode other template range s)
    unfolding assign_range check_difficulty modify
    assign_range-ResultIdle range s (tasks, sources) = assign_eligible-ResultIdle range _ _ (
        invalidate-IsIdle mode _ (
          tasks,
          update-HasNoJob id other
              (check_difficulty now (is_difficulty_too_high host template (expected_hashrate s)))
              s.sources.entries (λ _ _ _ h. h) sources,
        ))
      where
        invalidate-IsIdle :
            (m : AssignMode) (s1 : Scheduler)
            → IsIdle id s1
            → IsIdle id (invalidate host m other s1)
        invalidate-IsIdle update s1 h = unfold invalidate in h
        invalidate-IsIdle replace s1 h =
            unfold invalidate in remove_tasks_where-IsIdle id (λ e. e.source_id == other) s1 h

    assign_kind-ResultIdle :
        (kind : MerkleRootKind) (s : Scheduler)
        → IsIdle id s
        → ResultIdle id (assign_kind host accepts now mode other template kind s)
    unfolding assign_kind modify
    assign_kind-ResultIdle (fixed _) s h = (h, tt)
    assign_kind-ResultIdle (computed root) s (tasks, sources) =
        let cached : All (HasNoJob id) (Slots.update s.sources.entries other (cache_job template)) =
          update-HasNoJob id other (cache_job template) s.sources.entries
            (λ k _ same _. inl (subst (λ x. x ≢ id) (sym same) differs)) sources in
        if-holds (ResultIdle id) (length s.threads.entries == 0) _ _ (λ _. ((tasks, cached), tt))
          (λ _. assign_range-ResultIdle root.extranonce2_range _ (tasks, cached))

    pub assign_job_to_threads-ResultIdle :
        (s : Scheduler)
        → IsIdle id s
        → ResultIdle id (assign_job_to_threads host accepts now mode other template s)
    unfolding assign_job_to_threads
    assign_job_to_threads-ResultIdle s h = assign_kind-ResultIdle template.merkle_root s h

  assign_cached_kind-LeavesIdle :
      (rate other thread_id : ℕ) (template : JobTemplate) (kind : MerkleRootKind) (s : Scheduler)
      → other ≢ id
      → IsIdle id s
      → LeavesIdle id (assign_cached_kind host accepts rate other thread_id template kind s)
  unfolding assign_cached_kind
  assign_cached_kind-LeavesIdle rate other thread_id template (fixed _) s differs h = (h, tt)
  assign_cached_kind-LeavesIdle rate other thread_id template (computed root) s differs h =
      give_task-LeavesIdle update other thread_id _ s differs h

  assign_cached-LeavesIdle :
      (rate key thread_id : ℕ) (last_job : Option JobTemplate) (s : Scheduler)
      → (key ≢ id) ⊎ (last_job ≡ none)
      → IsIdle id s
      → LeavesIdle id (assign_cached host accepts rate key thread_id last_job s)
  unfolding assign_cached
  assign_cached-LeavesIdle rate key thread_id none s other h = (h, tt)
  assign_cached-LeavesIdle rate key thread_id (some template) s (inl differs) h =
      assign_cached_kind-LeavesIdle rate key thread_id template template.merkle_root s differs h
  assign_cached-LeavesIdle rate key thread_id (some template) s (inr missing) h =
      absurd (ground (arith, missing))

  assign_cached_jobs-LeavesIdle :
      (rate thread_id : ℕ) (sources : List (ℕ × SourceEntry)) (s : Scheduler)
      → All (HasNoJob id) sources
      → IsIdle id s
      → LeavesIdle id (assign_cached_jobs host accepts rate thread_id sources s)
  unfolding assign_cached_jobs
  assign_cached_jobs-LeavesIdle rate thread_id [] s jobs h = (h, tt)
  assign_cached_jobs-LeavesIdle rate thread_id ((key, source) ∷ rest) s (job, jobs) h =
      let (idle, outs) = assign_cached-LeavesIdle rate key thread_id source.last_job s job h in
      let (idle2, more) = assign_cached_jobs-LeavesIdle rate thread_id rest _ jobs idle in
      (idle2, All-append (OfSubmit (IsNotFrom id)) _ _ outs more)

  pub assign_cached_jobs_to_thread-LeavesIdle :
      (now thread_id : ℕ) (entry : ThreadEntry) (s : Scheduler)
      → IsIdle id s
      → LeavesIdle id (assign_cached_jobs_to_thread host accepts now thread_id entry s)
  unfolding assign_cached_jobs_to_thread
  assign_cached_jobs_to_thread-LeavesIdle now thread_id entry s (tasks, sources) =
      assign_cached_jobs-LeavesIdle _ thread_id s.sources.entries _ sources (tasks, sources)
