-- ===== src/Scheduler/Handlers.antt =====
-- scheduler.rs: the handlers of the scheduler's events, and one round of its loop.
use nano_mujina.Prelude.{
  ℕ, ◌+◌, ◌*◌, Bool, true, false, not, Option, none, some, List, [], ◌∷◌, ◌++◌, length, ◌==◌,
  if◌then◌else◌, Outcome, ok, ◌>>=◌,
}
use nano_mujina.Prelude.Bytes.{u64}
use nano_mujina.Asic.Bm13xx.Thread.{HashTask, Share}
use nano_mujina.JobSource.Job.{JobTemplate}
use nano_mujina.JobSource.Job
use nano_mujina.Types.DebouncedAlarm
use nano_mujina.Types.HashrateEstimator.{HashrateEstimator, record_at, hashrate_at}
use nano_mujina.Types.HashrateEstimator
use nano_mujina.Scheduler.{
  Host, TaskEntry, SourceEntry, ThreadEntry, Scheduler, update, replace, submit_share,
  update_hash_rate, Output, to_source, configure_thread, publish, SourceTelemetry, MinerTelemetry,
  sum_rates, expected_hashrate,
}
use nano_mujina.Scheduler.Gate.{
  is_holding, record_registered, record_reported, record_enumeration_complete, record_timeout,
}
use nano_mujina.Scheduler.Slots
use nano_mujina.Scheduler.Slots.{Store, retain_in, insert, modify, get}
use nano_mujina.Scheduler.Assign.{
  remove_tasks_where, assign_job_to_threads, assign_cached_jobs_to_thread,
}

abbrev Step : Type 0
Step = Scheduler × List Output

pub data SourceEvent : Type 0 where
  update_job replace_job : JobTemplate → SourceEvent
  clear_jobs : SourceEvent

-- A status update is the hashrate of the status.
pub data HashThreadEvent : Type 0 where
  work_depletion_warning work_exhausted : ℕ → HashThreadEvent
  status_update expected_hash_rate : ℕ → HashThreadEvent

pub data Event : Type 0 where
  source_registered : List ℕ → Option (List ℕ) → Event
  source_event : ℕ → SourceEvent → Event
  share_arrived : ℕ → Share → Event
  thread_event : ℕ → HashThreadEvent → Event
  thread_registered enumeration_complete gate_timeout : Event
  pause_mining resume_mining status_tick telemetry_tick : Event

-- `HIGH_DIFFICULTY_DEBOUNCE` and `HASHRATE_WINDOW` in nanoseconds.
abbrev high_difficulty_debounce : ℕ
high_difficulty_debounce = 30 * 1000000000

abbrev hashrate_window : ℕ
hashrate_window = 5 * 60 * 1000000000

-- `for source in self.sources.values_mut()`.
abbrev pub reset_alarms : List (ℕ × SourceEntry) → List (ℕ × SourceEntry)
reset_alarms [] = []
reset_alarms ((id, source) ∷ rest) =
    (id, record source { difficulty_alarm = DebouncedAlarm.reset source.difficulty_alarm })
    ∷ reset_alarms rest

-- `collect_hashrate_updates` and `send_hashrate_updates`, at the same rate for every source.
abbrev pub hashrate_updates : ℕ → List (ℕ × SourceEntry) → List Output
hashrate_updates rate [] = []
hashrate_updates rate ((id, source) ∷ rest) =
    to_source id (update_hash_rate rate) ∷ hashrate_updates rate rest

unfoldable pub broadcast_hashrate_change : Scheduler → Step
broadcast_hashrate_change s = (
  record s { sources = record s.sources { entries = reset_alarms s.sources.entries } },
  hashrate_updates (expected_hashrate s) s.sources.entries,
)

-- `if !self.startup_gate.is_holding() { self.broadcast_hashrate_change() }`.
unfoldable pub broadcast_unless_holding : Scheduler → Step
broadcast_unless_holding s =
    if not (is_holding s.startup_gate) then broadcast_hashrate_change s else (s, [])

unfoldable pub handle_source_registration : List ℕ → Option (List ℕ) → Scheduler → Step
handle_source_registration name url s = broadcast_unless_holding (record s {
  sources = insert s.sources (record {
    name = name;
    url = url;
    last_job = none;
    difficulty_alarm = DebouncedAlarm.new high_difficulty_debounce;
  });
})

unfoldable pub handle_clear_jobs : ℕ → Scheduler → Scheduler
handle_clear_jobs source_id s =
    remove_tasks_where (λ e. e.source_id == source_id)
      (record s {
        sources = modify s.sources source_id (λ source. record source { last_job = none });
      })

-- `SourceShare::from((share, job_id))`.
abbrev pub source_share : Share → List ℕ → Job.Share
source_share share job_id = record {
  job_id = job_id;
  nonce = share.nonce;
  time = share.ntime;
  version = share.version;
  extranonce2 = share.extranonce2;
}

-- `if let Some(source) = self.sources.get(…)`.
unfoldable pub submit : Option SourceEntry → ℕ → Job.Share → List Output
submit none source_id share = []
submit (some source) source_id share = to_source source_id (submit_share share) ∷ []

-- The `HashrateEstimator` of a new thread.
abbrev pub new_thread : ThreadEntry
new_thread = record {
  hashrate = HashrateEstimator.new hashrate_window;
  expected = none;
  hardware_hashrate = none;
}

unfoldable pub handle_new_thread : Scheduler → Step
handle_new_thread s =
    let live : List ℕ = s.thread_events ++ (s.threads.next_key ∷ []) in
    (
      record s {
        threads = insert s.threads new_thread;
        startup_gate = record_registered s.startup_gate;
        thread_events = live;
        last_thread_count = length live;
      },
      configure_thread s.threads.next_key ∷ [],
    )

unfoldable pub handle_thread_disconnections : Scheduler → Step
handle_thread_disconnections s =
    let kept : Scheduler =
      remove_tasks_where (λ e. not (Slots.has_key s.thread_events e.thread_id))
        (record s { threads = retain_in (λ id _. Slots.has_key s.thread_events id) s.threads }) in
    if length s.thread_events == s.last_thread_count
    then (s, [])
    else broadcast_hashrate_change (record kept { last_thread_count = length s.thread_events })

-- The task whose channel has a number.
abbrev pub task_of_channel : List (ℕ × ℕ) → ℕ → Option ℕ
task_of_channel [] channel = none
task_of_channel ((task_id, c) ∷ rest) channel =
    let later = task_of_channel rest channel in if c == channel then some task_id else later

-- `self.sources.values().map(…)` of the telemetry.
abbrev pub source_telemetry : List (ℕ × SourceEntry) → List SourceTelemetry
source_telemetry [] = []
source_telemetry ((id, source) ∷ rest) =
    record { name = source.name; url = source.url } ∷ source_telemetry rest

module _ (host : Host) where
  -- A thread's hardware hashrate, or its estimate, which lets the estimator drop old samples.
  unfoldable pub measure : ℕ → Option ℕ → ThreadEntry → ℕ × ThreadEntry
  measure now (some hardware) entry = (hardware, entry)
  measure now none entry =
      let (rate, estimator) = hashrate_at host.ruint entry.hashrate now in
      (rate, record entry { hashrate = estimator })

  unfoldable pub measure_all : ℕ → List (ℕ × ThreadEntry) → List ℕ × List (ℕ × ThreadEntry)
  measure_all now [] = ([], [])
  measure_all now ((id, entry) ∷ rest) =
      let here = measure now entry.hardware_hashrate entry in
      let later = measure_all now rest in (here.0 ∷ later.0, (id, here.1) ∷ later.1)

  unfoldable pub measured_hashrate : ℕ → Scheduler → ℕ × Scheduler
  measured_hashrate now s =
      let measured = measure_all now s.threads.entries in
      (sum_rates measured.0, record s { threads = record s.threads { entries = measured.1 } })

  unfoldable pub compute_miner_telemetry : ℕ → Scheduler → MinerTelemetry × Scheduler
  compute_miner_telemetry now s =
      let measured = measured_hashrate now s in
      (
        record {
          hashrate = measured.0;
          shares_submitted = s.shares_submitted;
          paused = s.paused;
          sources = source_telemetry s.sources.entries;
        },
        measured.1,
      )

  unfoldable pub publish_telemetry : ℕ → Scheduler → Step
  publish_telemetry now s =
      let telemetry = compute_miner_telemetry now s in (telemetry.1, publish telemetry.0 ∷ [])

  -- The share of a task that is there.
  unfoldable pub handle_task_share : ℕ → Share → TaskEntry → Scheduler → Step
  handle_task_share now share task s =
      let recorded : Scheduler = record s {
        threads =
            modify s.threads task.thread_id (λ e. record e {
              hashrate = record_at host.ruint e.hashrate now share.expected_work;
            });
      } in
      if host.bitcoin.is_met_by task.template.share_target share.hash
      then (
        record recorded { shares_submitted = u64 (s.shares_submitted + 1) },
        submit (get s.sources task.source_id) task.source_id (source_share share task.template.id),
      )
      else (recorded, [])

  unfoldable pub handle_share : ℕ → Share → Option TaskEntry → Scheduler → Step
  handle_share now share none s = (s, [])
  handle_share now share (some task) s = handle_task_share now share task s

  -- A share that a thread puts on a channel reaches the scheduler while the channel is open.
  unfoldable pub on_channel : ℕ → ℕ → Share → Option ℕ → Scheduler → Step
  on_channel now channel share none s = (s, [])
  on_channel now channel share (some task_id) s = handle_share now share (get s.tasks task_id) s

  unfoldable pub on_share : ℕ → ℕ → Share → Scheduler → Step
  on_share now channel share s =
      on_channel now channel share (task_of_channel s.share_channels channel) s

  -- `ExpectedHashRate`, by the rate that the thread had declared.
  unfoldable pub handle_expected :
      (ℕ → HashTask → Bool) → ℕ → ℕ → ℕ → ThreadEntry → Option ℕ → Scheduler → Step
  handle_expected accepts now thread_id rate entry (some before) s =
      broadcast_unless_holding
        (record s { threads = modify s.threads thread_id (λ e. record e { expected = some rate }) })
  handle_expected accepts now thread_id rate entry none s =
      let declared : Scheduler = record s {
        threads = modify s.threads thread_id (λ e. record e { expected = some rate });
      } in
      let assigned =
        assign_cached_jobs_to_thread host accepts now thread_id
          (record entry { expected = some rate }) declared in
      let counted : Scheduler = record assigned.0 {
        startup_gate = record_reported assigned.0.startup_gate;
      } in
      let told = broadcast_unless_holding counted in (told.0, assigned.1 ++ told.1)

  unfoldable pub handle_thread_event :
      (ℕ → HashTask → Bool) → ℕ → ℕ → HashThreadEvent → Option ThreadEntry → Scheduler → Step
  handle_thread_event accepts now thread_id (work_exhausted n) entry s = (s, [])
  handle_thread_event accepts now thread_id (work_depletion_warning n) entry s = (s, [])
  handle_thread_event accepts now thread_id (status_update rate) entry s = (
    if not (rate == 0)
        then record s {
          threads = modify s.threads thread_id (λ e. record e { hardware_hashrate = some rate });
        }
        else s,
    [],
  )
  handle_thread_event accepts now thread_id (expected_hash_rate rate) none s = (s, [])
  handle_thread_event accepts now thread_id (expected_hash_rate rate) (some entry) s =
      handle_expected accepts now thread_id rate entry entry.expected s

  -- One arm of the `select!`.
  unfoldable pub handle : (ℕ → HashTask → Bool) → ℕ → Event → Scheduler → Outcome ⊥ Step
  handle accepts now (source_registered name url) s = ok (handle_source_registration name url s)
  handle accepts now (source_event source_id (update_job template)) s =
      assign_job_to_threads host accepts now update source_id template s
  handle accepts now (source_event source_id (replace_job template)) s =
      assign_job_to_threads host accepts now replace source_id template s
  handle accepts now (source_event source_id clear_jobs) s = ok (handle_clear_jobs source_id s, [])
  handle accepts now (share_arrived channel share) s = ok (on_share now channel share s)
  handle accepts now (thread_event thread_id event) s =
      ok (handle_thread_event accepts now thread_id event (get s.threads thread_id) s)
  handle accepts now thread_registered s = ok (handle_new_thread s)
  handle accepts now enumeration_complete s = ok (
      broadcast_unless_holding
        (record s { startup_gate = record_enumeration_complete s.startup_gate }))
  handle accepts now gate_timeout s = ok (
      if is_holding s.startup_gate
      then broadcast_hashrate_change (record s { startup_gate = record_timeout s.startup_gate })
      else (s, []))
  handle accepts now pause_mining s = ok (publish_telemetry now (record s { paused = true }))
  handle accepts now resume_mining s = ok (publish_telemetry now (record s { paused = false }))
  handle accepts now telemetry_tick s = ok (publish_telemetry now s)
  handle accepts now status_tick s = ok (
    if s.first_status_tick
        then record s { first_status_tick = false }
        else (measured_hashrate now s).1,
    [],
  )

  -- One round of `run`: the streams of some threads turn out to have ended, an event is handled, and the
  -- disconnections are.
  unfoldable pub round : (ℕ → HashTask → Bool) → ℕ → (ℕ → Bool) → Event → Scheduler → Outcome ⊥ Step
  round accepts now ended event s = do
    (s1, outs) ← handle accepts now event (record s { thread_events = live s.thread_events })
    let cleaned = handle_thread_disconnections s1 in ok (cleaned.0, outs ++ cleaned.1)
    where
      live : List ℕ → List ℕ
      live [] = []
      live (id ∷ rest) = let later = live rest in if ended id then later else id ∷ later
