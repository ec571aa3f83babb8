-- ===== src/Scheduler/Cleared/Rounds.antt =====
-- scheduler.rs: the rounds of the loop after a source has cleared its jobs.
use nano_mujina.Prelude.{
  ℕ, Bool, not, ◌≡◌, ◌≢◌, subst, Option, none, some, List, [], ◌∷◌, ◌++◌, ◌==◌, if-holds, Outcome,
  ok, err, panic, ◌>>=◌, All, All-append,
}
use nano_mujina.Asic.Bm13xx.Thread.{HashTask, Share}
use nano_mujina.Scheduler.{Host, TaskEntry, ThreadEntry, Scheduler, update, replace, Output}
use nano_mujina.Scheduler.Gate.{is_holding}
use nano_mujina.Scheduler.Slots.{modify, get}
use nano_mujina.Scheduler.Handlers.{
  update_job, replace_job, clear_jobs, HashThreadEvent, work_depletion_warning, work_exhausted,
  status_update, expected_hash_rate, Event, source_registered, source_event, share_arrived,
  thread_event, thread_registered, enumeration_complete, gate_timeout, pause_mining, resume_mining,
  status_tick, telemetry_tick, handle_clear_jobs, handle_new_thread, handle_thread_disconnections,
  measured_hashrate, compute_miner_telemetry, publish_telemetry, handle_task_share, handle_share,
  on_channel, on_share, handle_expected, handle_thread_event, handle, round,
}
use nano_mujina.Scheduler.Submit.{OfSubmit, IsNotFrom, on_share-OfSubmit}
use nano_mujina.Scheduler.Cleared.{
  Step, IsIdle, LeavesIdle, ResultIdle, then-ResultIdle, assign_job_to_threads-ResultIdle,
  assign_cached_jobs_to_thread-LeavesIdle,
}
use nano_mujina.Scheduler.Cleared.Sources.{
  broadcast_hashrate_change-LeavesIdle, broadcast_unless_holding-LeavesIdle,
  handle_source_registration-LeavesIdle, handle_thread_disconnections-LeavesIdle, IsDistinct,
  handle_clear_jobs-IsIdle, clear_other-IsIdle,
}

-- The event is no new job of the source.
abbrev pub IsNoJob : ℕ → Event → Type 0
IsNoJob id (source_event other (update_job template)) = other ≢ id
IsNoJob id (source_event other (replace_job template)) = other ≢ id
IsNoJob id (source_event other clear_jobs) = Unit
IsNoJob id (source_registered name url) = Unit
IsNoJob id (share_arrived channel share) = Unit
IsNoJob id (thread_event thread_id event) = Unit
IsNoJob id thread_registered = Unit
IsNoJob id enumeration_complete = Unit
IsNoJob id gate_timeout = Unit
IsNoJob id pause_mining = Unit
IsNoJob id resume_mining = Unit
IsNoJob id status_tick = Unit
IsNoJob id telemetry_tick = Unit

module _ (host : Host) (id : ℕ) where
  handle_share-IsIdle :
      (now : ℕ) (share : Share) (task : Option TaskEntry) (s : Scheduler)
      → IsIdle id s
      → IsIdle id (handle_share host now share task s).0
  unfolding handle_share handle_task_share
  handle_share-IsIdle now share none s h = h
  handle_share-IsIdle now share (some task) s h =
      if-holds (λ (r : Step). IsIdle id r.0)
        (host.bitcoin.is_met_by task.template.share_target share.hash) _ _ (λ _. h) (λ _. h)

  on_channel-IsIdle :
      (now channel : ℕ) (share : Share) (task_id : Option ℕ) (s : Scheduler)
      → IsIdle id s
      → IsIdle id (on_channel host now channel share task_id s).0
  unfolding on_channel
  on_channel-IsIdle now channel share none s h = h
  on_channel-IsIdle now channel share (some task_id) s h =
      handle_share-IsIdle now share (get s.tasks task_id) s h

  on_share-LeavesIdle :
      (now channel : ℕ) (share : Share) (s : Scheduler)
      → IsIdle id s
      → LeavesIdle id (on_share host now channel share s)
  on_share-LeavesIdle now channel share s (tasks, sources) = (
    unfold on_share in on_channel-IsIdle now channel share _ s (tasks, sources),
    on_share-OfSubmit (IsNotFrom id) host now channel share s tasks,
  )

  module _ (accepts : ℕ → HashTask → Bool) (now : ℕ) where
    handle_expected-LeavesIdle :
        (thread_id rate : ℕ) (entry : ThreadEntry) (before : Option ℕ) (s : Scheduler)
        → IsIdle id s
        → LeavesIdle id (handle_expected host accepts now thread_id rate entry before s)
    unfolding handle_expected modify
    handle_expected-LeavesIdle thread_id rate entry (some before) s h =
        broadcast_unless_holding-LeavesIdle id _ h
    handle_expected-LeavesIdle thread_id rate entry none s h =
        let (idle, outs) =
          assign_cached_jobs_to_thread-LeavesIdle host accepts id now thread_id
            (record entry { expected = some rate })
            (record s {
              threads = modify s.threads thread_id (λ e. record e { expected = some rate });
            })
            h in
        let (idle2, more) = broadcast_unless_holding-LeavesIdle id _ idle in
        (idle2, All-append (OfSubmit (IsNotFrom id)) _ _ outs more)

    handle_thread_event-LeavesIdle :
        (thread_id : ℕ) (event : HashThreadEvent) (entry : Option ThreadEntry) (s : Scheduler)
        → IsIdle id s
        → LeavesIdle id (handle_thread_event host accepts now thread_id event entry s)
    unfolding handle_thread_event
    handle_thread_event-LeavesIdle thread_id (work_exhausted n) entry s h = (h, tt)
    handle_thread_event-LeavesIdle thread_id (work_depletion_warning n) entry s h = (h, tt)
    handle_thread_event-LeavesIdle thread_id (status_update rate) entry s h =
        (if-holds (IsIdle id) (not (rate == 0)) _ _ (λ _. h) (λ _. h), tt)
    handle_thread_event-LeavesIdle thread_id (expected_hash_rate rate) none s h = (h, tt)
    handle_thread_event-LeavesIdle thread_id (expected_hash_rate rate) (some entry) s h =
        handle_expected-LeavesIdle thread_id rate entry entry.expected s h

    handle-ResultIdle :
        (event : Event) (s : Scheduler)
        → IsNoJob id event
        → IsIdle id s
        → ResultIdle id (handle host accepts now event s)
    unfolding handle handle_new_thread publish_telemetry compute_miner_telemetry measured_hashrate
    handle-ResultIdle (source_registered name url) s job h =
        handle_source_registration-LeavesIdle id name url s h
    handle-ResultIdle (source_event other (update_job template)) s job h =
        assign_job_to_threads-ResultIdle host accepts id now update other job template s h
    handle-ResultIdle (source_event other (replace_job template)) s job h =
        assign_job_to_threads-ResultIdle host accepts id now replace other job template s h
    handle-ResultIdle (source_event other clear_jobs) s job h =
        (clear_other-IsIdle id other s h, tt)
    handle-ResultIdle (share_arrived channel share) s job h =
        on_share-LeavesIdle now channel share s h
    handle-ResultIdle (thread_event thread_id event) s job h =
        handle_thread_event-LeavesIdle thread_id event (get s.threads thread_id) s h
    handle-ResultIdle thread_registered s job h = (h, (tt, tt))
    handle-ResultIdle enumeration_complete s job h = broadcast_unless_holding-LeavesIdle id _ h
    handle-ResultIdle gate_timeout s job h =
        if-holds (LeavesIdle id) (is_holding s.startup_gate) _ _
          (λ _. broadcast_hashrate_change-LeavesIdle id _ h) (λ _. (h, tt))
    handle-ResultIdle pause_mining s job h = (h, (tt, tt))
    handle-ResultIdle resume_mining s job h = (h, (tt, tt))
    handle-ResultIdle telemetry_tick s job h = (h, (tt, tt))
    handle-ResultIdle status_tick s job h =
        (if-holds (IsIdle id) s.first_status_tick _ _ (λ _. h) (λ _. h), tt)

    cleaned-ResultIdle :
        (r : Outcome ⊥ Step)
        → ResultIdle id r
        → ResultIdle id (
            r >>= λ (s1, outs).
            ok ((handle_thread_disconnections s1).0, outs ++ (handle_thread_disconnections s1).1))
    cleaned-ResultIdle (ok (s1, outs)) (idle, h) =
        let (idle2, more) = handle_thread_disconnections-LeavesIdle id s1 idle in
        (idle2, All-append (OfSubmit (IsNotFrom id)) _ _ h more)
    cleaned-ResultIdle (err e) h = absurd e
    cleaned-ResultIdle panic h = tt

    pub round-ResultIdle :
        (ended : ℕ → Bool) (event : Event) (s : Scheduler)
        → IsNoJob id event
        → IsIdle id s
        → ResultIdle id (round host accepts now ended event s)
    unfolding round
    round-ResultIdle ended event s job h = cleaned-ResultIdle _ (handle-ResultIdle event _ job h)

-- A round of the loop: which threads accept which task, the time, the threads whose streams have
-- ended, and the event.
pub record Round : Type 0 where
  pub accepts : ℕ → HashTask → Bool
  pub now : ℕ
  pub ended : ℕ → Bool
  pub event : Event

unfoldable pub rounds : Host → List Round → Scheduler → Outcome ⊥ Step
rounds host [] s = ok (s, [])
rounds host (r ∷ rest) s = round host r.accepts r.now r.ended r.event s >>= λ (s1, outs).
    (rounds host rest s1 >>= λ (s2, more). ok (s2, outs ++ more))

rounds-ResultIdle :
    (host : Host) (id : ℕ) (rs : List Round) (s : Scheduler)
    → All (λ (r : Round). IsNoJob id r.event) rs
    → IsIdle id s
    → ResultIdle id (rounds host rs s)
unfolding rounds
rounds-ResultIdle host id [] s jobs h = (h, tt)
rounds-ResultIdle host id (r ∷ rest) s (job, jobs) h =
    then-ResultIdle host r.accepts id (round host r.accepts r.now r.ended r.event s)
      (λ s1. rounds host rest s1) (round-ResultIdle host id r.accepts r.now r.ended r.event s job h)
      (λ s1 h1. rounds-ResultIdle host id rest s1 jobs h1)

-- After a source cleared its jobs, and as long as it brings no new job, no share is submitted to it,
-- over any rounds of the loop that do not panic: shares arrive on whatever channels, threads come,
-- report and go, and other sources bring, replace and clear jobs. No two sources have the same key, as
-- in a slot map.
pub rounds-no_submit :
    (host : Host) (source_id : ℕ) (s s' : Scheduler) (rs : List Round) (outs : List Output)
    → IsDistinct s.sources.entries
    → All (λ (r : Round). IsNoJob source_id r.event) rs
    → rounds host rs (handle_clear_jobs source_id s) ≡ ok (s', outs)
    → All (OfSubmit (IsNotFrom source_id)) outs
rounds-no_submit host source_id s s' rs outs distinct jobs done =
    (subst (ResultIdle source_id) done (
      rounds-ResultIdle host source_id rs (handle_clear_jobs source_id s) jobs
        (handle_clear_jobs-IsIdle source_id s distinct))).1
