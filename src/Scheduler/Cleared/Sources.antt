-- ===== src/Scheduler/Cleared/Sources.antt =====
-- scheduler.rs: the handlers that change sources, around a source without jobs.
use nano_mujina.Prelude.{
  ℕ, not, ◌≡◌, ◌≢◌, refl, subst, inl, inr, Option, none, List, [], ◌∷◌, length, ◌==◌, if-holds, All,
  All-append, arith,
}
use nano_mujina.Scheduler.{SourceEntry, Scheduler, expected_hashrate}
use nano_mujina.Scheduler.Gate.{is_holding}
use nano_mujina.Scheduler.Slots
use nano_mujina.Scheduler.Slots.{retain_in, insert, modify, get}
use nano_mujina.Scheduler.Assign.{remove_tasks_where}
use nano_mujina.Scheduler.Handlers.{
  reset_alarms, hashrate_updates, broadcast_hashrate_change, broadcast_unless_holding,
  handle_source_registration, handle_clear_jobs, handle_thread_disconnections,
}
use nano_mujina.Scheduler.Submit.{OfSubmit, IsNotFrom, retain-IsNotFrom}
use nano_mujina.Scheduler.Cleared.{
  HasNoJob, IsIdle, LeavesIdle, remove_tasks_where-IsIdle, update-HasNoJob,
}

reset_alarms-HasNoJob :
    (id : ℕ) (xs : List (ℕ × SourceEntry))
    → All (HasNoJob id) xs
    → All (HasNoJob id) (reset_alarms xs)
reset_alarms-HasNoJob id [] h = tt
reset_alarms-HasNoJob id ((k, source) ∷ rest) (h, hs) = (h, reset_alarms-HasNoJob id rest hs)

hashrate_updates-OfSubmit :
    (id rate : ℕ) (xs : List (ℕ × SourceEntry))
    → All (OfSubmit (IsNotFrom id)) (hashrate_updates rate xs)
hashrate_updates-OfSubmit id rate [] = tt
hashrate_updates-OfSubmit id rate ((k, source) ∷ rest) =
    (tt, hashrate_updates-OfSubmit id rate rest)

pub broadcast_hashrate_change-LeavesIdle :
    (id : ℕ) (s : Scheduler) → IsIdle id s → LeavesIdle id (broadcast_hashrate_change s)
unfolding broadcast_hashrate_change
broadcast_hashrate_change-LeavesIdle id s (tasks, sources) = (
  (tasks, reset_alarms-HasNoJob id s.sources.entries sources),
  hashrate_updates-OfSubmit id (expected_hashrate s) s.sources.entries,
)

pub broadcast_unless_holding-LeavesIdle :
    (id : ℕ) (s : Scheduler) → IsIdle id s → LeavesIdle id (broadcast_unless_holding s)
unfolding broadcast_unless_holding
broadcast_unless_holding-LeavesIdle id s h =
    if-holds (LeavesIdle id) (not (is_holding s.startup_gate)) _ _
      (λ _. broadcast_hashrate_change-LeavesIdle id s h) (λ _. (h, tt))

pub handle_source_registration-LeavesIdle :
    (id : ℕ) (name : List ℕ) (url : Option (List ℕ)) (s : Scheduler)
    → IsIdle id s
    → LeavesIdle id (handle_source_registration name url s)
unfolding handle_source_registration insert
handle_source_registration-LeavesIdle id name url s (tasks, sources) =
    broadcast_unless_holding-LeavesIdle id _
      (tasks, All-append (HasNoJob id) s.sources.entries _ sources (inr refl, tt))

pub handle_thread_disconnections-LeavesIdle :
    (id : ℕ) (s : Scheduler) → IsIdle id s → LeavesIdle id (handle_thread_disconnections s)
unfolding handle_thread_disconnections
handle_thread_disconnections-LeavesIdle id s h =
    if-holds (LeavesIdle id) (length s.thread_events == s.last_thread_count) _ _ (λ _. (h, tt))
      (λ _.
        broadcast_hashrate_change-LeavesIdle id _
          (remove_tasks_where-IsIdle id (λ e. not (Slots.has_key s.thread_events e.thread_id)) _ h))

-- No two sources have the same key.
abbrev pub IsDistinct : List (ℕ × SourceEntry) → Type 0
IsDistinct [] = Unit
IsDistinct ((k, source) ∷ rest) = All (λ (e : ℕ × SourceEntry). e.0 ≢ k) rest × IsDistinct rest

others-HasNoJob :
    (id k : ℕ) (xs : List (ℕ × SourceEntry))
    → k ≡ id
    → All (λ (e : ℕ × SourceEntry). e.0 ≢ k) xs
    → All (HasNoJob id) xs
others-HasNoJob id k [] same h = tt
others-HasNoJob id k ((other, source) ∷ rest) same (h, hs) =
    (inl (subst (λ x. other ≢ x) same h), others-HasNoJob id k rest same hs)

cleared-HasNoJob :
    (id : ℕ) (xs : List (ℕ × SourceEntry))
    → IsDistinct xs
    → All (HasNoJob id) (Slots.update xs id (λ source. record source { last_job = none }))
cleared-HasNoJob id [] h = tt
cleared-HasNoJob id ((k, source) ∷ rest) (others, h) =
    if-holds (All (HasNoJob id)) (k == id) _ _
      (λ same. (inr refl, others-HasNoJob id k rest (ground arith) others))
      (λ differs. (inl (ground arith), cleared-HasNoJob id rest h))

pub handle_clear_jobs-IsIdle :
    (id : ℕ) (s : Scheduler) → IsDistinct s.sources.entries → IsIdle id (handle_clear_jobs id s)
unfolding handle_clear_jobs remove_tasks_where retain_in modify
handle_clear_jobs-IsIdle id s distinct =
    (retain-IsNotFrom id s.tasks.entries, cleared-HasNoJob id s.sources.entries distinct)

pub clear_other-IsIdle :
    (id other : ℕ) (s : Scheduler) → IsIdle id s → IsIdle id (handle_clear_jobs other s)
unfolding handle_clear_jobs modify
clear_other-IsIdle id other s (tasks, sources) =
    remove_tasks_where-IsIdle id (λ e. e.source_id == other) _
      (
        tasks,
        update-HasNoJob id other (λ source. record source { last_job = none }) s.sources.entries
            (λ _ _ _ _. inr refl) sources,
      )
