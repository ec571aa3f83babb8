-- ===== src/Scheduler/Slices.antt =====
-- scheduler.rs: a job is divided among the eligible threads without gaps and overlaps.
mod Entries
use nano_mujina.Prelude.{
  ℕ, ◌+◌, ◌-◌, ◌^◌, ◌≤◌, ◌<◌, Bool, ◌≡◌, refl, sym, ap, ◌∙◌, subst, Option, none, some, List, [],
  ◌∷◌, ◌++◌, length, ◌==◌, if◌then◌else◌, if-holds, Outcome, ok, ◌>>=◌, All, arith,
}
use nano_mujina.Asic.Bm13xx.Thread.{HashTask}
use nano_mujina.JobSource.Extranonce2.Value.{Extranonce2}
use nano_mujina.JobSource.Extranonce2.Value
use nano_mujina.JobSource.Extranonce2.Iter.{iter, next}
use nano_mujina.JobSource.Extranonce2.Range.{Extranonce2Range, split}
use nano_mujina.JobSource.Extranonce2.Range.Split.{IsValid, Tiles, split-Tiles}
use nano_mujina.JobSource.Job.{JobTemplate, computed, MerkleRootTemplate}
use nano_mujina.Types.HashrateEstimator.{HashrateEstimator, settled_hashrate_at}
use nano_mujina.Scheduler.{
  Host, ThreadEntry, Scheduler, AssignMode, update, replace, Output, to_source, publish,
  configure_thread, assign_task, eligible, if_reported,
}
use nano_mujina.Scheduler.Slots
use nano_mujina.Scheduler.Slots.{Store, lookup, insert, modify, get}
use nano_mujina.Scheduler.Assign.{
  remove_tasks_where, make_task, rate_or, give_task, give_slice, assign_slice, assign_slices,
  assign_split, invalidate, assign_eligible, assign_range, assign_kind, assign_job_to_threads,
}
use Entries.{HasEntry, all_update-HasEntry, eligible-HasEntry}

-- A thread with the search that its task is for: the job, the time, the range and the extranonce2 that
-- it starts with.
pub record Search : Type 0 where
  pub thread_id : ℕ
  pub job : JobTemplate
  pub ntime : ℕ
  pub range : Option Extranonce2Range
  pub start : Option Extranonce2

-- The searches that threads are given, in order.
abbrev pub handed : List Output → List Search
handed [] = []
handed (assign_task thread_id mode task ∷ rest) =
    record {
      thread_id = thread_id;
      job = task.template;
      ntime = task.ntime;
      range = task.en2_range;
      start = task.en2;
    }
    ∷ handed rest
handed (to_source source_id command ∷ rest) = handed rest
handed (configure_thread thread_id ∷ rest) = handed rest
handed (publish telemetry ∷ rest) = handed rest

-- The search of a range of a job, from the range's first value.
abbrev pub search_of : JobTemplate → ℕ → Extranonce2Range → Search
search_of template t r = record {
  thread_id = t;
  job = template;
  ntime = template.time;
  range = some r;
  start = some (record { value = r.min; size = r.size });
}

-- Threads with a range each.
abbrev pub pair_up : JobTemplate → List ℕ → List Extranonce2Range → List Search
pair_up template [] rs = []
pair_up template (t ∷ ts) [] = []
pair_up template (t ∷ ts) (r ∷ rs) = search_of template t r ∷ pair_up template ts rs

-- The iterator of a valid range starts with its first value.
next-iter :
    (r : Extranonce2Range)
    → IsValid r
    → (next (iter r)).0 ≡ some (record { value = r.min; size = r.size })
unfolding next iter Value.new
next-iter r valid = ground (arith, valid.size_pos, valid.size_le, valid.ordered, valid.fits)

Tiles-All : (lo hi : ℕ) (rs : List Extranonce2Range) → Tiles lo hi rs → All IsValid rs
Tiles-All lo hi [] h = tt
Tiles-All lo hi (r ∷ rs) (_, valid, h) = (valid, Tiles-All (r.max + 1) hi rs h)

module _ (host : Host) (accepts : ℕ → HashTask → Bool) (now : ℕ) (mode : AssignMode) (source_id : ℕ)
    (template : JobTemplate) where
  give_slice-threads :
      (t : ℕ) (range : Extranonce2Range) (expected : Option ℕ)
      (measured : Option ℕ × HashrateEstimator) (s : Scheduler)
      → (give_slice host accepts mode source_id template t range expected measured
          s).0.threads.entries
        ≡ Slots.update s.threads.entries t (λ e. record e { hashrate = measured.1 })
  unfolding give_slice give_task modify
  give_slice-threads t range expected measured s =
      if-holds
        (λ (x : Scheduler).
          x.threads.entries
          ≡ Slots.update s.threads.entries t (λ e. record e { hashrate = measured.1 }))
        (accepts t (make_task host template range (rate_or measured.0 expected) s.next_channel)) _ _
        (λ _. refl) (λ _. refl)

  give_slice-handed :
      (t : ℕ) (range : Extranonce2Range) (expected : Option ℕ)
      (measured : Option ℕ × HashrateEstimator) (s : Scheduler) (outs : List Output)
      → IsValid range
      → handed
          ((give_slice host accepts mode source_id template t range expected measured s).1 ++ outs)
        ≡ search_of template t range ∷ handed outs
  unfolding give_slice give_task make_task
  give_slice-handed t range expected measured s outs valid =
      ap (λ start. record (search_of template t range) { start = start } ∷ handed outs)
        (next-iter range valid)

  -- The loop gives every thread its slice.
  assign_slices-handed :
      (ts : List ℕ) (rs : List Extranonce2Range) (s : Scheduler)
      → length rs ≡ length ts
      → All IsValid rs
      → All (HasEntry s.threads.entries) ts
      → (s' : Scheduler) × (outs : List Output) × (assign_slices host accepts now mode source_id
            template ts rs s
          ≡ ok (s', outs))
        × (handed outs ≡ pair_up template ts rs)
  unfolding assign_slices assign_slice get
  assign_slices-handed [] rs s len vs h = (s, [], refl, refl)
  assign_slices-handed (t ∷ ts) [] s len vs h = absurd (omega arith)
  assign_slices-handed (t ∷ ts) (r ∷ rs) s len (valid, vs) ((e, found), hs) =
      let measured = settled_hashrate_at host.ruint e.hashrate now in
      let given : Scheduler × List Output =
        give_slice host accepts mode source_id template t r e.expected measured s in
      let (s', outs, done, all_handed) = assign_slices-handed ts rs given.0 (omega arith) vs (
        subst (λ xs. All (HasEntry xs) ts) (sym (give_slice-threads t r e.expected measured s))
          (all_update-HasEntry s.threads.entries t ts _ hs)) in
      (
        s',
        given.1 ++ outs,
        ap
              (λ x. assign_slice host accepts now mode source_id template t r x s >>= λ (s1, outs1).
                (assign_slices host accepts now mode source_id template ts rs s1 >>= λ (s2, more).
                ok (s2, outs1 ++ more)))
              found
            ∙ ap (λ x. x >>= λ (s2, more). ok (s2, given.1 ++ more)) done,
        give_slice-handed t r e.expected measured s outs valid
            ∙ ap (◌∷◌ (search_of template t r)) all_handed,
      )

  invalidate-threads : (s : Scheduler) → (invalidate host mode source_id s).threads ≡ s.threads
  unfolding invalidate remove_tasks_where
  invalidate-threads s = by_mode mode
    where
      by_mode : (m : AssignMode) → (invalidate host m source_id s).threads ≡ s.threads
      by_mode update = refl
      by_mode replace = refl

  -- What an assignment to threads with a range each comes to.
  abbrev Hands : List ℕ → List Extranonce2Range → Outcome ⊥ (Scheduler × List Output) → Type 0
  Hands ts rs result =
      (s' : Scheduler) × (outs : List Output) × (result ≡ ok (s', outs))
      × (handed outs ≡ pair_up template ts rs)

  -- Once the split succeeds, so does the assignment.
  assign_eligible-handed :
      (range : Extranonce2Range) (ts : List ℕ) (rs : List Extranonce2Range) (s : Scheduler)
      → 1 ≤ length ts
      → split range (length ts) ≡ ok (some rs)
      → length rs ≡ length ts
      → All IsValid rs
      → All (HasEntry s.threads.entries) ts
      → Hands ts rs (assign_eligible host accepts now mode source_id template range ts s)
  unfolding assign_eligible assign_split
  assign_eligible-handed range ts rs s some_thread parted len vs h =
      let (s', outs, done, all_handed) = assign_slices-handed ts rs s len vs h in
      if-holds (Hands ts rs) (length ts == 0) _ _ (λ empty. absurd (ground arith))
        (λ _. (
          s',
          outs,
          ap (λ x. assign_split host accepts now mode source_id template ts x s) parted ∙ done,
          all_handed,
        ))

  -- The same from a state with the same threads.
  same_threads-handed :
      (range : Extranonce2Range) (rs : List Extranonce2Range) (ts : List ℕ) (s : Scheduler)
      → eligible s.threads.entries ≡ ts
      → 1 ≤ length ts
      → split range (length ts) ≡ ok (some rs)
      → length rs ≡ length ts
      → All IsValid rs
      → Hands ts rs (
          assign_eligible host accepts now mode source_id template range
            (eligible s.threads.entries)
            s)
  same_threads-handed range rs ts s same some_thread parted len vs =
      subst
        (λ xs. Hands ts rs (assign_eligible host accepts now mode source_id template range xs s))
        (sym same)
        (assign_eligible-handed range ts rs s some_thread parted len vs (
          subst (λ xs. All (HasEntry s.threads.entries) xs) same
            (eligible-HasEntry s.threads.entries)))

  assign_range-handed :
      (range : Extranonce2Range) (rs : List Extranonce2Range) (s : Scheduler)
      → 1 ≤ length (eligible s.threads.entries)
      → split range (length (eligible s.threads.entries)) ≡ ok (some rs)
      → length rs ≡ length (eligible s.threads.entries)
      → All IsValid rs
      → Hands
          (eligible s.threads.entries)
          rs
          (assign_range host accepts now mode source_id template range s)
  unfolding assign_range
  assign_range-handed range rs s some_thread parted len vs =
      same_threads-handed range rs (eligible s.threads.entries) _
        (ap (λ (th : Store ThreadEntry). eligible th.entries) (invalidate-threads _)) some_thread
        parted len vs

  no_thread_is_eligible :
      (entries : List (ℕ × ThreadEntry)) → length entries ≡ 0 → length (eligible entries) ≡ 0
  no_thread_is_eligible [] h = refl
  no_thread_is_eligible (e ∷ rest) h = absurd (omega arith)

  assign_kind-handed :
      (root : MerkleRootTemplate) (rs : List Extranonce2Range) (s : Scheduler)
      → 1 ≤ length (eligible s.threads.entries)
      → split root.extranonce2_range (length (eligible s.threads.entries)) ≡ ok (some rs)
      → length rs ≡ length (eligible s.threads.entries)
      → All IsValid rs
      → Hands
          (eligible s.threads.entries)
          rs
          (assign_kind host accepts now mode source_id template (computed root) s)
  unfolding assign_kind
  assign_kind-handed root rs s some_thread parted len vs =
      if-holds (Hands (eligible s.threads.entries) rs) (length s.threads.entries == 0) _ _
        (λ empty.
          let none_left : length (eligible s.threads.entries) ≡ 0 =
            no_thread_is_eligible s.threads.entries (ground arith) in
          absurd (omega arith))
        (λ _. assign_range-handed root.extranonce2_range rs _ some_thread parted len vs)

-- A job with a computed merkle root, whose extranonce2 range is valid and has at least one value for
-- each eligible thread and fewer than 2 ^ 64, is assigned without a panic, whether it updates or
-- replaces: every eligible thread gets exactly one task, in order, for the job and its time; the ranges
-- in the tasks stand side by side and cover exactly the job's range, and each task starts with the
-- first value of its own range, so that no two threads start with or are given the same value.
pub assign_job-Tiles :
    (host : Host) (accepts : ℕ → HashTask → Bool) (now : ℕ) (mode : AssignMode) (source_id : ℕ)
    (template : JobTemplate) (root : MerkleRootTemplate) (s : Scheduler)
    → template.merkle_root ≡ computed root
    → IsValid root.extranonce2_range
    → 1 ≤ length (eligible s.threads.entries)
    → length (eligible s.threads.entries)
      ≤ root.extranonce2_range.max + 1 - root.extranonce2_range.min
    → root.extranonce2_range.max + 1 - root.extranonce2_range.min < 2 ^ 64
    → (rs : List Extranonce2Range) × (s' : Scheduler) × (outs : List Output)
      × (assign_job_to_threads host accepts now mode source_id template s ≡ ok (s', outs))
      × (handed outs ≡ pair_up template (eligible s.threads.entries) rs)
      × (length rs ≡ length (eligible s.threads.entries))
      × Tiles root.extranonce2_range.min (root.extranonce2_range.max + 1) rs
unfolding assign_job_to_threads
assign_job-Tiles host accepts now mode source_id template root s kind valid some_thread enough
      small =
    let (rs, parted, len, tiles, sizes) =
      split-Tiles root.extranonce2_range (length (eligible s.threads.entries)) valid some_thread
        enough small in
    let (s', outs, done, all_handed) =
      assign_kind-handed host accepts now mode source_id template root rs s some_thread parted len
        (Tiles-All _ _ rs tiles) in
    (
      rs,
      s',
      outs,
      ap (λ k. assign_kind host accepts now mode source_id template k s) kind ∙ done,
      all_handed,
      len,
      tiles,
    )
