-- ===== src/Scheduler/Submit.antt =====
-- scheduler.rs: which shares reach a source after its jobs are cleared or replaced.
use nano_mujina.Prelude.{
  ℕ, ◌≤◌, Bool, true, not, ◌≡◌, ◌≢◌, refl, sym, ap, ◌∙◌, subst, ◌⊎◌, inl, inr, Option, none, some,
  List, [], ◌∷◌, ◌++◌, length, ◌==◌, if-holds, Outcome, ok, err, panic, ◌>>=◌, All, All-append,
  arith,
}
use nano_mujina.Asic.Bm13xx.Thread.{HashTask, Share}
use nano_mujina.JobSource.Extranonce2.Range.{Extranonce2Range, split}
use nano_mujina.JobSource.Job.{JobTemplate, computed, MerkleRootTemplate}
use nano_mujina.Types.HashrateEstimator.{HashrateEstimator, settled_hashrate_at}
use nano_mujina.Scheduler.{
  Host, TaskEntry, SourceEntry, ThreadEntry, Scheduler, replace, submit_share, update_hash_rate,
  Output, to_source, configure_thread, publish, assign_task,
}
use nano_mujina.Scheduler.Slots.{retain_in, retain, lookup, insert, modify, get}
use nano_mujina.Scheduler.Assign.{
  remove_tasks_where, make_task, give_slice, rate_or, give_task, assign_slice, assign_slices,
  assign_split, invalidate, assign_eligible, assign_range, assign_kind, assign_job_to_threads,
}
use nano_mujina.Scheduler.Handlers.{
  submit, handle_task_share, handle_share, on_channel, on_share, source_share,
}

-- What holds of the source and the job id of a submitted share.
abbrev pub OfSubmit : (ℕ → List ℕ → Type 0) → Output → Type 0
OfSubmit P (to_source source_id (submit_share share)) = P source_id share.job_id
OfSubmit P (to_source source_id (update_hash_rate rate)) = Unit
OfSubmit P (configure_thread id) = Unit
OfSubmit P (publish telemetry) = Unit
OfSubmit P (assign_task id mode task) = Unit

module _ (P : ℕ → List ℕ → Type 0) where
  -- The task's source and job satisfy the predicate.
  abbrev pub OfTask : ℕ × TaskEntry → Type 0
  OfTask (k, t) = P t.source_id t.template.id

  abbrev OfFound : Option TaskEntry → Type 0
  OfFound none = Unit
  OfFound (some t) = P t.source_id t.template.id

  lookup-OfTask :
      (entries : List (ℕ × TaskEntry)) (key : ℕ) → All OfTask entries → OfFound (lookup entries key)
  lookup-OfTask [] key h = tt
  lookup-OfTask ((k, t) ∷ rest) key (h, hs) =
      if-holds OfFound (k == key) _ _ (λ _. h) (λ _. lookup-OfTask rest key hs)

  submit-OfSubmit :
      (source : Option SourceEntry) (share : Share) (source_id : ℕ) (job_id : List ℕ)
      → P source_id job_id
      → All (OfSubmit P) (submit source source_id (source_share share job_id))
  unfolding submit
  submit-OfSubmit none share source_id job_id h = tt
  submit-OfSubmit (some source) share source_id job_id h = (h, tt)

  handle_share-OfSubmit :
      (host : Host) (now : ℕ) (share : Share) (task : Option TaskEntry) (s : Scheduler)
      → OfFound task
      → All (OfSubmit P) (handle_share host now share task s).1
  unfolding handle_share handle_task_share
  handle_share-OfSubmit host now share none s h = tt
  handle_share-OfSubmit host now share (some t) s h =
      if-holds (λ (r : Scheduler × List Output). All (OfSubmit P) r.1)
        (host.bitcoin.is_met_by t.template.share_target share.hash) _ _
        (λ _. submit-OfSubmit (get s.sources t.source_id) share t.source_id t.template.id h)
        (λ _. tt)

  on_channel-OfSubmit :
      (host : Host) (now channel : ℕ) (share : Share) (task_id : Option ℕ) (s : Scheduler)
      → All OfTask s.tasks.entries
      → All (OfSubmit P) (on_channel host now channel share task_id s).1
  unfolding on_channel get
  on_channel-OfSubmit host now channel share none s h = tt
  on_channel-OfSubmit host now channel share (some task_id) s h =
      handle_share-OfSubmit host now share (lookup s.tasks.entries task_id) s
        (lookup-OfTask s.tasks.entries task_id h)

  -- When all tasks satisfy the predicate, so does every share that is submitted.
  pub on_share-OfSubmit :
      (host : Host) (now channel : ℕ) (share : Share) (s : Scheduler)
      → All OfTask s.tasks.entries
      → All (OfSubmit P) (on_share host now channel share s).1
  unfolding on_share
  on_share-OfSubmit host now channel share s h = on_channel-OfSubmit host now channel share _ s h

-- A task of another source.
abbrev pub IsNotFrom : ℕ → ℕ → List ℕ → Type 0
IsNotFrom source_id other job_id = other ≢ source_id

differs : (a b : ℕ) → not (a == b) ≡ true → a ≢ b
differs a b h e = ground arith

pub retain-IsNotFrom :
    (source_id : ℕ) (entries : List (ℕ × TaskEntry))
    → All
        (OfTask (IsNotFrom source_id))
        (retain (λ _ (e : TaskEntry). not (e.source_id == source_id)) entries)
retain-IsNotFrom source_id [] = tt
retain-IsNotFrom source_id ((k, t) ∷ rest) =
    if-holds (All (OfTask (IsNotFrom source_id))) (not (t.source_id == source_id)) _ _
      (λ other. (differs t.source_id source_id other, retain-IsNotFrom source_id rest))
      (λ _. retain-IsNotFrom source_id rest)

-- A task of another source, or of the job.
abbrev pub IsFresh : ℕ → List ℕ → ℕ → List ℕ → Type 0
IsFresh source_id job_id other other_job = (other ≢ source_id) ⊎ (other_job ≡ job_id)

module _ (host : Host) (accepts : ℕ → HashTask → Bool) (now source_id : ℕ)
    (template : JobTemplate) where
  abbrev Fresh : Scheduler → Type 0
  Fresh s = All (OfTask (IsFresh source_id template.id)) s.tasks.entries

  give_task-Fresh :
      (thread_id : ℕ) (task : HashTask) (s : Scheduler)
      → task.template ≡ template
      → Fresh s
      → Fresh (give_task host accepts replace source_id thread_id task s).0
  unfolding give_task insert
  give_task-Fresh thread_id task s same h =
      if-holds Fresh (accepts thread_id task) _ _
        (λ _.
          All-append (OfTask (IsFresh source_id template.id)) s.tasks.entries _ h
            (inr (ap (λ t. t.id) same), tt))
        (λ _. h)

  -- The state of a result, if there is one.
  abbrev FreshResult : Outcome ⊥ (Scheduler × List Output) → Type 0
  FreshResult (ok r) = Fresh r.0
  FreshResult (err e) = Unit
  FreshResult panic = Unit

  -- The outcome of two steps, when the second keeps the state fresh.
  add_outputs-Fresh :
      (outs : List Output) (r : Outcome ⊥ (Scheduler × List Output))
      → FreshResult r
      → FreshResult (r >>= λ (s2, more). ok (s2, outs ++ more))
  add_outputs-Fresh outs (ok r) h = h
  add_outputs-Fresh outs (err e) h = absurd e
  add_outputs-Fresh outs panic h = tt

  then-Fresh :
      (first : Outcome ⊥ (Scheduler × List Output))
      (second : Scheduler → Outcome ⊥ (Scheduler × List Output))
      → FreshResult first
      → ((s1 : Scheduler) → Fresh s1 → FreshResult (second s1))
      → FreshResult (first >>= λ (s1, outs). (second s1 >>= λ (s2, more). ok (s2, outs ++ more)))
  then-Fresh (ok (s1, outs)) second h k = add_outputs-Fresh outs (second s1) (k s1 h)
  then-Fresh (err e) second h k = absurd e
  then-Fresh panic second h k = tt

  give_slice-Fresh :
      (thread_id : ℕ) (range : Extranonce2Range) (expected : Option ℕ)
      (measured : Option ℕ × HashrateEstimator) (s : Scheduler)
      → Fresh s
      → Fresh
          (give_slice host accepts replace source_id template thread_id range expected measured s).0
  unfolding give_slice make_task
  give_slice-Fresh thread_id range expected measured s h =
      give_task-Fresh thread_id
        (make_task host template range (rate_or measured.0 expected) s.next_channel)
        (record s {
          threads = modify s.threads thread_id (λ e. record e { hashrate = measured.1 });
        })
        refl h

  assign_slice-Fresh :
      (thread_id : ℕ) (range : Extranonce2Range) (entry : Option ThreadEntry) (s : Scheduler)
      → Fresh s
      → FreshResult
          (assign_slice host accepts now replace source_id template thread_id range entry s)
  unfolding assign_slice
  assign_slice-Fresh thread_id range none s h = tt
  assign_slice-Fresh thread_id range (some entry) s h =
      give_slice-Fresh thread_id range entry.expected
        (settled_hashrate_at host.ruint entry.hashrate now) s h

  assign_slices-Fresh :
      (threads : List ℕ) (slices : List Extranonce2Range) (s : Scheduler)
      → Fresh s
      → FreshResult (assign_slices host accepts now replace source_id template threads slices s)
  unfolding assign_slices
  assign_slices-Fresh [] slices s h = h
  assign_slices-Fresh (t ∷ ts) [] s h = h
  assign_slices-Fresh (t ∷ ts) (range ∷ slices) s h =
      then-Fresh
        (assign_slice host accepts now replace source_id template t range (get s.threads t) s)
        (λ s1. assign_slices host accepts now replace source_id template ts slices s1)
        (assign_slice-Fresh t range (get s.threads t) s h)
        (λ s1 h1. assign_slices-Fresh ts slices s1 h1)

  assign_split-Fresh :
      (threads : List ℕ) (slices : Outcome ⊥ (Option (List Extranonce2Range))) (s : Scheduler)
      → Fresh s
      → FreshResult (assign_split host accepts now replace source_id template threads slices s)
  unfolding assign_split
  assign_split-Fresh threads (ok (some slices)) s h = assign_slices-Fresh threads slices s h
  assign_split-Fresh threads (ok none) s h = tt
  assign_split-Fresh threads (err e) s h = absurd e
  assign_split-Fresh threads panic s h = tt

  cleared-Fresh :
      (entries : List (ℕ × TaskEntry))
      → All (OfTask (IsNotFrom source_id)) entries
      → All (OfTask (IsFresh source_id template.id)) entries
  cleared-Fresh [] h = tt
  cleared-Fresh (e ∷ rest) (h, hs) = (inl h, cleared-Fresh rest hs)

  invalidate-Fresh : (s : Scheduler) → Fresh (invalidate host replace source_id s)
  unfolding invalidate remove_tasks_where retain_in
  invalidate-Fresh s = cleared-Fresh _ (retain-IsNotFrom source_id s.tasks.entries)

  assign_eligible-Fresh :
      (range : Extranonce2Range) (threads : List ℕ) (s : Scheduler)
      → Fresh s
      → FreshResult (assign_eligible host accepts now replace source_id template range threads s)
  unfolding assign_eligible
  assign_eligible-Fresh range threads s h =
      if-holds FreshResult (length threads == 0) _ _ (λ _. h)
        (λ _. assign_split-Fresh threads (split range (length threads)) s h)

  assign_range-Fresh :
      (range : Extranonce2Range) (s : Scheduler)
      → FreshResult (assign_range host accepts now replace source_id template range s)
  unfolding assign_range
  assign_range-Fresh range s = assign_eligible-Fresh range _ _ (invalidate-Fresh _)

  assign_kind-Fresh :
      (root : MerkleRootTemplate) (s : Scheduler)
      → 1 ≤ length s.threads.entries
      → FreshResult (assign_kind host accepts now replace source_id template (computed root) s)
  unfolding assign_kind
  assign_kind-Fresh root s some_thread =
      if-holds FreshResult (length s.threads.entries == 0) _ _ (λ empty. absurd (ground arith))
        (λ _. assign_range-Fresh root.extranonce2_range _)

-- After a source replaced its jobs by one whose merkle root is computed, while there are threads, every
-- share that arrives, on a channel of whatever task, and that is submitted to that source carries the
-- id of the new job, whichever threads accepted the new tasks.
pub replace_job-IsFresh :
    (host : Host) (accepts : ℕ → HashTask → Bool) (now source_id : ℕ) (template : JobTemplate)
    (root : MerkleRootTemplate) (s s' : Scheduler) (outs : List Output)
    → template.merkle_root ≡ computed root
    → 1 ≤ length s.threads.entries
    → assign_job_to_threads host accepts now replace source_id template s ≡ ok (s', outs)
    → (later channel : ℕ) (share : Share)
    → All (OfSubmit (IsFresh source_id template.id)) (on_share host later channel share s').1
unfolding assign_job_to_threads
replace_job-IsFresh host accepts now source_id template root s s' outs kind some_thread done later
      channel share =
    on_share-OfSubmit (IsFresh source_id template.id) host later channel share s' (
      subst (FreshResult host accepts now source_id template)
        (ap (λ k. assign_kind host accepts now replace source_id template k s) (sym kind) ∙ done)
        (assign_kind-Fresh host accepts now source_id template root s some_thread))
