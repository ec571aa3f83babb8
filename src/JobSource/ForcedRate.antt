-- ===== src/JobSource/ForcedRate.antt =====
-- job_source/forced_rate.rs: the wrapper around a job source that forces a rate of shares. An input is
-- the arm of the `select!` that completes, with whether the message that the arm sends on still has
-- a receiver. A rate of shares is its interval in nanoseconds.
pub mod Relay
mod Tests
use nano_mujina.Prelude.{
  ℕ, Bool, true, false, Option, none, some, List, [], ◌∷◌, ◌==◌, if◌then◌else◌,
}
use nano_mujina.JobSource.Job.{JobTemplate}
use nano_mujina.Scheduler.{Host, SourceCommand, update_hash_rate, submit_share, rate_target}
use nano_mujina.Scheduler.Handlers.{SourceEvent, update_job, replace_job, clear_jobs}

-- The f64 of the environment variable: what a string parses to, as whether it is finite and positive
-- and the interval that `ShareRate::per_minute` makes of it, and that interval for 18.0.
pub record RateParser : Type 0 where
  pub parse : List ℕ → Option (Bool × ℕ)
  pub per_minute_18 : ℕ

pub record ForcedRateConfig : Type 0 where
  pub target_rate : ℕ

pub record ForcedRateSource : Type 0 where
  pub target_rate : ℕ
  pub hashrate : ℕ

module _ (parser : RateParser) where
  unfoldable pub parsed_rate : Option (Bool × ℕ) → ℕ
  parsed_rate none = parser.per_minute_18
  parsed_rate (some (true, interval)) = interval
  parsed_rate (some (false, interval)) = parser.per_minute_18

  -- From the value of `MUJINA_POOL_FORCED_RATE`, if it is set.
  unfoldable pub from_env : Option (List ℕ) → Option ForcedRateConfig
  unfolding parsed_rate
  from_env none = none
  from_env (some val) = some (record { target_rate = parsed_rate (parser.parse val) })

unfoldable pub new : ForcedRateConfig → ForcedRateSource
new config = record { target_rate = config.target_rate; hashrate = 0 }

pub data Input : Type 0 where
  inner_event : Option SourceEvent → Bool → Input
  outer_command : Option SourceCommand → Bool → Input
  cancelled : Input

pub data Message : Type 0 where
  to_scheduler : SourceEvent → Message
  to_inner : SourceCommand → Message

-- How `run` stands after its inputs: still in the loop, returned, or returned with the error of a send.
pub data Exit : Type 0 where
  running finished send_failed : Exit

pub data Flow : Type 0 where
  sent : ForcedRateSource → Message → Flow
  stop : Exit → Flow

-- `self.hashrate = *hr`, for the command that has a rate.
unfoldable pub note : ForcedRateSource → SourceCommand → ForcedRateSource
note s (update_hash_rate hr) = record s { hashrate = hr }
note s (submit_share share) = s

-- `send(…).await?`.
unfoldable pub send : ForcedRateSource → Message → Bool → Flow
send s message true = sent s message
send s message false = stop send_failed

module _ (host : Host) where
  unfoldable pub modify_job : ForcedRateSource → JobTemplate → JobTemplate
  modify_job s job =
      if s.hashrate == 0
      then job
      else record job { share_target = rate_target host s.target_rate s.hashrate }

  unfoldable pub modify_event : ForcedRateSource → SourceEvent → SourceEvent
  unfolding modify_job
  modify_event s (update_job job) = update_job (modify_job s job)
  modify_event s (replace_job job) = replace_job (modify_job s job)
  modify_event s clear_jobs = clear_jobs

  -- One round of the loop.
  unfoldable pub step : ForcedRateSource → Input → Flow
  unfolding note send modify_event
  step s (inner_event (some event) received) = send s (to_scheduler (modify_event s event)) received
  step s (inner_event none received) = stop finished
  step s (outer_command (some cmd) received) = send (note s cmd) (to_inner cmd) received
  step s (outer_command none received) = stop finished
  step s cancelled = stop finished

  unfoldable pub run : ForcedRateSource → List Input → List Message × Exit
  unfolding step
  run s [] = ([], running)
  run s (input ∷ rest) = elim (step s input) [
    | stop exit ↦ ([], exit)
    | sent next message ↦ (let (messages, exit) = run next rest in (message ∷ messages, exit))
  ]
