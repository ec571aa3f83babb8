-- ===== src/JobSource/StratumV1/Connection.antt =====
-- job_source/stratum_v1.rs: the suggestions of a difficulty, and one connection to the pool. An input is
-- the arm of the `select!` that completes, at a time in nanoseconds; an arm takes no time. Sends of
-- events and commands can find no receiver, which is a field of the input.
pub mod Rounds
pub mod Throttle
pub mod UpToDate
use nano_mujina.Prelude.{
  ℕ, ◌+◌, ◌*◌, Bool, true, false, ◌||◌, Option, none, some, List, [], ◌∷◌, ◌++◌, map, ltb, leb,
  ◌==◌, if◌then◌else◌, Outcome, ok, err, panic,
}
use nano_mujina.Types.Difficulty.{from_target}
use nano_mujina.JobSource.Job.{Share}
use nano_mujina.Scheduler.{Host, rate_target, SourceCommand, submit_share, update_hash_rate}
use nano_mujina.Scheduler.Handlers.{SourceEvent}
use nano_mujina.JobSource.StratumV1.{
  Float64, StratumV1Source, ClientEvent, SubmitParams, SourceError, Handled, share_to_submit_params,
  handle_client_event,
}

-- `SUGGEST_MIN_INTERVAL`.
abbrev pub suggest_min_interval : ℕ
suggest_min_interval = 5 * 1000000000

pub data Output (F : Type 0) : Type 0 where
  to_scheduler : SourceEvent → Output F
  submit : SubmitParams → Output F
  suggest_difficulty : F → Output F

-- How the client's task ended: it returned, with an error that is fatal or not, or panicked.
pub data ClientExit : Type 0 where
  returned : ClientExit
  failed : Bool → ClientExit
  panicked : ClientExit

pub data Input (F : Type 0) : Type 0 where
  client_event : ClientEvent F → Bool → Input F
  client_closed : ClientExit → Input F
  command : SourceCommand → Bool → Input F
  cooldown_expired : Bool → Input F
  cancelled : Input F

pub data ConnectOutcome : Type 0 where
  shutdown disconnected fatal : ConnectOutcome

pub outcome_of : ClientExit → ConnectOutcome
outcome_of returned = shutdown
outcome_of (failed true) = fatal
outcome_of (failed false) = disconnected
outcome_of panicked = fatal

pub data Flow (F : Type 0) : Type 0 where
  next : StratumV1Source F → List (Output F) → Flow F
  stop : ConnectOutcome → Flow F

abbrev pub if_accepted : {A : Type 0} → Bool → A → List A
if_accepted true a = a ∷ []
if_accepted false a = []

abbrev pub submitted : {F : Type 0} → Bool → Outcome SourceError SubmitParams → List (Output F)
submitted true (ok params) = submit params ∷ []
submitted false (ok params) = []
submitted accepted (err e) = []
submitted accepted panic = []

-- `self.cooldown_until.is_some_and(|until| now < until)`.
abbrev pub before_end : Option ℕ → ℕ → Bool
before_end none now = false
before_end (some until) now = ltb now until

-- Whether the sleep until the end of the cooldown is over; without a cooldown the arm is disabled.
abbrev pub slept : Option ℕ → ℕ → Bool
slept none now = false
slept (some until) now = leb until now

unfoldable pub in_cooldown : {F : Type 0} → StratumV1Source F → ℕ → Bool
in_cooldown s now = before_end s.cooldown_until now

-- What `run` resets before each connection.
abbrev pub reset_connection : {F : Type 0} → StratumV1Source F → StratumV1Source F
reset_connection s = record s { state = none; first_share_logged = false }

module _ (host : Host) (float : Float64) where
  open float use {F, of_quarters, le, mul, div, as_f64}

  -- For `SUGGESTED_SHARE_RATE`, one share in 3 s.
  unfoldable pub compute_suggested_difficulty : ℕ → Option F
  compute_suggested_difficulty hashrate =
      if hashrate == 0
      then none
      else some (as_f64 (from_target (rate_target host 3000000000 hashrate)))

  -- `DOWN_FACTOR` is 1.25, `UP_FACTOR` 1.5.
  unfoldable pub is_material_change : F → Option F → Bool
  is_material_change new_diff none = true
  is_material_change new_diff (some floor) =
      le new_diff (div floor (of_quarters 5)) || le (mul floor (of_quarters 6)) new_diff

  unfoldable pub send_suggest :
      StratumV1Source F → F → ℕ → Bool → StratumV1Source F × List (Output F)
  send_suggest s new_diff now accepted = (
    record s {
      last_suggested_difficulty = some new_diff;
      cooldown_until = some (now + suggest_min_interval);
    },
    if_accepted accepted (suggest_difficulty new_diff),
  )

  -- `maybe_suggest_difficulty`, from the difficulty for the hashrate.
  unfoldable pub suggest_for :
      StratumV1Source F → ℕ → Bool → Option F → StratumV1Source F × List (Output F)
  unfolding is_material_change in_cooldown send_suggest
  suggest_for s now accepted none = (s, [])
  suggest_for s now accepted (some new_diff) =
      if is_material_change new_diff s.last_suggested_difficulty
      then if in_cooldown s now then (s, []) else send_suggest s new_diff now accepted
      else (s, [])

  unfoldable pub maybe_suggest_difficulty :
      StratumV1Source F → ℕ → Bool → StratumV1Source F × List (Output F)
  unfolding compute_suggested_difficulty suggest_for
  maybe_suggest_difficulty s now accepted =
      suggest_for s now accepted (compute_suggested_difficulty s.expected_hashrate)

  -- `Option::filter` by `is_material_change`.
  abbrev pub filter_material : Option F → Option F → Option F
  filter_material last none = none
  filter_material last (some diff) = if is_material_change diff last then some diff else none

  -- `flush_suggest`, from the pending difficulty.
  unfoldable pub flush_pending :
      StratumV1Source F → ℕ → Bool → Option F → StratumV1Source F × List (Output F)
  unfolding send_suggest
  flush_pending s now accepted (some diff) = send_suggest s diff now accepted
  flush_pending s now accepted none = (record s { cooldown_until = none }, [])

  unfoldable pub flush_suggest : StratumV1Source F → ℕ → Bool → StratumV1Source F × List (Output F)
  unfolding compute_suggested_difficulty is_material_change flush_pending
  flush_suggest s now accepted = flush_pending s now accepted (
      filter_material s.last_suggested_difficulty
        (compute_suggested_difficulty s.expected_hashrate))

  -- The source's state when a connection begins, with the difficulty that the client suggests in the
  -- handshake.
  unfoldable pub begin : StratumV1Source F → StratumV1Source F
  unfolding compute_suggested_difficulty
  begin s = record (reset_connection s) {
    last_suggested_difficulty = compute_suggested_difficulty s.expected_hashrate;
    cooldown_until = none;
  }

  -- A share for the pool, if it can be converted.
  unfoldable pub on_share : StratumV1Source F → Share → Bool → List (Output F)
  unfolding share_to_submit_params
  on_share s share accepted = submitted accepted (share_to_submit_params s share)

  -- One round of the loop of `connect_and_run`.
  unfoldable pub step : StratumV1Source F → ℕ → Input F → Flow F
  unfolding handle_client_event on_share maybe_suggest_difficulty flush_suggest
  step s now (client_event event received) =
      (let (handled, events, result) = handle_client_event host float s event received in
        next handled (map to_scheduler events))
  step s now (client_closed exit) = stop (outcome_of exit)
  step s now (command (submit_share share) accepted) = next s (on_share s share accepted)
  step s now (command (update_hash_rate rate) accepted) =
      (let (suggested, outputs) =
          maybe_suggest_difficulty (record s { expected_hashrate = rate }) now accepted in
        next suggested outputs)
  step s now (cooldown_expired accepted) =
      (let (flushed, outputs) =
          (if slept s.cooldown_until now then flush_suggest s now accepted else (s, [])) in
        next flushed outputs)
  step s now cancelled = stop shutdown

  -- The source when the loop ends, the outputs with their times, and the outcome if it has ended.
  abbrev pub Run : Type 0
  Run = StratumV1Source F × List (ℕ × Output F) × Option ConnectOutcome

  abbrev pub follow : ℕ → StratumV1Source F → (StratumV1Source F → Run) → Flow F → Run
  follow now s resume (stop outcome) = (s, [], some outcome)
  follow now s resume (next after outputs) =
      (let (last, more, outcome) = resume after in
        (last, map (λ output. (now, output)) outputs ++ more, outcome))

  -- The loop of `connect_and_run`.
  unfoldable pub run : StratumV1Source F → List (ℕ × Input F) → Run
  unfolding step
  run s [] = (s, [], none)
  run s ((now, input) ∷ rest) = follow now s (λ after. run after rest) (step s now input)
