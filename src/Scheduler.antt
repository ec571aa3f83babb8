-- ===== src/Scheduler.antt =====
-- mujina-miner/src/scheduler.rs: the scheduler between the job sources and the hash threads. The
-- streams that `run` keeps beside the scheduler are fields of its state here: the threads whose event
-- stream is live, for each task the number of its share channel, and the flag of the first status tick. Logging is
-- left out.
pub mod Gate
pub mod Opening
pub mod Slots
pub mod Assign
pub mod Handlers
pub mod Slices
pub mod Submit
pub mod Cleared
mod Tests
use nano_mujina.Prelude.{
  ℕ, ◌+◌, ◌*◌, Bool, true, false, not, ◌&&◌, Option, none, some, List, [], ◌∷◌, ltb, ◌==◌,
  if◌then◌else◌, ◌^◌,
}
use nano_mujina.Prelude.Bytes.{u64}
use nano_mujina.Asic.Bm13xx.Thread.{HashTask}
use nano_mujina.Asic.Bm13xx.Thread
use nano_mujina.JobSource.Job.{JobTemplate}
use nano_mujina.JobSource.Job
use nano_mujina.Types.Bitcoin.{Bitcoin}
use nano_mujina.Types.DebouncedAlarm.{DebouncedAlarm}
use nano_mujina.Types.HashrateEstimator.{HashrateEstimator, Ruint}
use nano_mujina.Types.U256.{WideRuint, Decoded, to_target}
use Gate.{StartupGate, new_gate}
use Slots.{Store, empty}

-- The crates that the scheduler calls, and its computations on f64: the hashes of a rate in a duration
-- of nanoseconds, with whether they are at most 1.0, and whether the expected time to a share of a
-- target is above `HIGH_DIFFICULTY_THRESHOLD` at a rate other than zero.
pub record Host : Type 0 where
  pub bitcoin : Bitcoin
  pub ruint : Ruint
  pub wide : WideRuint
  pub hashes_in : ℕ → ℕ → Bool × Decoded
  pub share_takes_long : ℕ → ℕ → Bool

pub record TaskEntry : Type 0 where
  pub source_id : ℕ
  pub template : JobTemplate
  pub thread_id : ℕ

pub record SourceEntry : Type 0 where
  pub name : List ℕ
  pub url : Option (List ℕ)
  pub last_job : Option JobTemplate
  pub difficulty_alarm : DebouncedAlarm

pub record ThreadEntry : Type 0 where
  pub hashrate : HashrateEstimator
  pub expected : Option ℕ
  pub hardware_hashrate : Option ℕ

pub record Scheduler : Type 0 where
  pub sources : Store SourceEntry
  pub threads : Store ThreadEntry
  pub tasks : Store TaskEntry
  pub shares_submitted : ℕ
  pub last_thread_count : ℕ
  pub startup_gate : StartupGate
  pub paused : Bool
  pub thread_events : List ℕ
  pub share_channels : List (ℕ × ℕ)
  pub next_channel : ℕ
  pub first_status_tick : Bool

pub new_scheduler : Scheduler
new_scheduler = record {
  sources = empty;
  threads = empty;
  tasks = empty;
  shares_submitted = 0;
  last_thread_count = 0;
  startup_gate = new_gate;
  paused = false;
  thread_events = [];
  share_channels = [];
  next_channel = 0;
  first_status_tick = true;
}

pub data AssignMode : Type 0 where
  update replace : AssignMode

pub data SourceCommand : Type 0 where
  submit_share : Job.Share → SourceCommand
  update_hash_rate : ℕ → SourceCommand

-- The telemetry, without the uptime and the difficulties, which are f64.
pub record SourceTelemetry : Type 0 where
  pub name : List ℕ
  pub url : Option (List ℕ)

pub record MinerTelemetry : Type 0 where
  pub hashrate : ℕ
  pub shares_submitted : ℕ
  pub paused : Bool
  pub sources : List SourceTelemetry

-- What the scheduler does to its surroundings: a command to a source, a call of a thread, or a
-- snapshot for the API.
pub data Output : Type 0 where
  publish : MinerTelemetry → Output
  to_source : ℕ → SourceCommand → Output
  configure_thread : ℕ → Output
  assign_task : ℕ → AssignMode → HashTask → Output

-- Sums of rates on a u64.
abbrev pub sum_rates : List ℕ → ℕ
sum_rates [] = 0
sum_rates (r ∷ rest) = u64 (r + sum_rates rest)

-- `filter_map(|entry| entry.expected)`.
abbrev pub expected_rates : List (ℕ × ThreadEntry) → List ℕ
expected_rates [] = []
expected_rates ((id, entry) ∷ rest) = elim entry.expected [
  | none ↦ expected_rates rest
  | some rate ↦ rate ∷ expected_rates rest
]

unfoldable pub expected_hashrate : Scheduler → ℕ
expected_hashrate s = sum_rates (expected_rates s.threads.entries)

unfoldable pub allocated_hashrate : Scheduler → ℕ → ℕ
allocated_hashrate s source_id = expected_hashrate s

-- `eligible_thread_ids`, from the threads.
abbrev pub if_reported : Option ℕ → ℕ → List ℕ → List ℕ
if_reported none id rest = rest
if_reported (some rate) id rest = id ∷ rest

abbrev pub eligible : List (ℕ × ThreadEntry) → List ℕ
eligible [] = []
eligible ((id, entry) ∷ rest) = if_reported entry.expected id (eligible rest)

-- `Ord::clamp`. Its assertion that the bounds are in order holds where a shorter interval has no more
-- hashes in it.
abbrev pub clamp : ℕ → ℕ → ℕ → ℕ
clamp t lo hi = if ltb t lo then lo else if ltb hi t then hi else t

module _ (host : Host) where
  -- `ShareRate::to_target` for an interval.
  pub rate_target : ℕ → ℕ → ℕ
  rate_target interval hashrate =
      let (at_most_one, hashes) = host.hashes_in hashrate interval in
      to_target host.wide at_most_one hashes

  -- `MEASUREMENT_SHARE_RATE` is one share in 1 s, `FLOOD_CAP_RATE` one in 100 ms.
  pub compute_scheduler_target : ℕ → ℕ → ℕ
  compute_scheduler_target hashrate source_target =
      if hashrate == 0
      then source_target
      else clamp source_target (rate_target 1000000000 hashrate) (rate_target 100000000 hashrate)

  pub is_difficulty_too_high : JobTemplate → ℕ → Bool
  is_difficulty_too_high job hashrate =
      if hashrate == 0 then false else host.share_takes_long job.share_target hashrate
