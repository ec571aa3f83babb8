-- ===== src/JobSource/StratumV1/Connection/Rounds.antt =====
-- job_source/stratum_v1.rs: what a round of the loop leaves as it is, and a run by its first round.
use nano_mujina.Prelude.{
  ℕ, Bool, true, false, Option, none, some, List, [], ◌∷◌, ◌++◌, map, ◌≡◌, refl, ap, ◌⊎◌, inl, inr,
  Outcome, ok, err, panic,
}
use nano_mujina.JobSource.Job.{JobTemplate}
use nano_mujina.Scheduler.{Host}
use nano_mujina.JobSource.StratumV1.{
  Float64, ProtocolState, StratumV1Source, ClientEvent, handle_client_event, emit, on_new_job,
  SourceError, modify_state, version_rolling_configured, subscribed, new_job, difficulty_changed,
  version_mask_set, share_accepted, share_rejected, disconnected, error,
}
use nano_mujina.JobSource.StratumV1.Connection.{
  Input, Output, Flow, next, stop, ConnectOutcome, step, run, follow,
}

-- The fields that decide on suggestions are the same.
pub record Same {F : Type 0} (s t : StratumV1Source F) : Type 0 where
  pub expected : t.expected_hashrate ≡ s.expected_hashrate
  pub last : t.last_suggested_difficulty ≡ s.last_suggested_difficulty
  pub cooldown : t.cooldown_until ≡ s.cooldown_until

Same-refl : {F : Type 0} → (s : StratumV1Source F) → Same s s
Same-refl s = record { expected = refl; last = refl; cooldown = refl }

modify_state-Same :
    {F : Type 0}
    → (f : ProtocolState → ProtocolState) (s : StratumV1Source F) → Same s (modify_state f s)
modify_state-Same f s = at_state s.state
  where
    at_state :
        (o : Option ProtocolState)
        → Same s (elim o [ none ↦ s | some state ↦ record s { state = some (f state) } ])
    at_state none = Same-refl s
    at_state (some state) = record { expected = refl; last = refl; cooldown = refl }

emit-Same :
    {F : Type 0}
    → (s : StratumV1Source F) (clean_jobs received : Bool) (o : Outcome SourceError JobTemplate)
    → Same s (emit s clean_jobs received o).0
emit-Same s clean_jobs true (ok template) = Same-refl s
emit-Same s clean_jobs false (ok template) = Same-refl s
emit-Same s clean_jobs received (err e) = Same-refl s
emit-Same s clean_jobs received panic = Same-refl s

module _ (host : Host) (float : Float64) where
  open float use {F}

  pub handle_client_event-Same :
      (s : StratumV1Source F) (event : ClientEvent F) (received : Bool)
      → Same s (handle_client_event host float s event received).0
  unfolding handle_client_event on_new_job
  handle_client_event-Same s (version_rolling_configured mask) received = record {
    expected = refl;
    last = refl;
    cooldown = refl;
  }
  handle_client_event-Same s (subscribed extranonce1 size) received = record {
    expected = refl;
    last = refl;
    cooldown = refl;
  }
  handle_client_event-Same s (new_job job) received = emit-Same s _ received _
  handle_client_event-Same s (difficulty_changed diff) received = modify_state-Same _ s
  handle_client_event-Same s (version_mask_set mask) received = modify_state-Same _ s
  handle_client_event-Same s (share_accepted job_id nonce) received = record {
    expected = refl;
    last = refl;
    cooldown = refl;
  }
  handle_client_event-Same s (share_rejected job_id reason) received = record {
    expected = refl;
    last = refl;
    cooldown = refl;
  }
  handle_client_event-Same s disconnected received = Same-refl s
  handle_client_event-Same s (error message) received = Same-refl s

-- What the outputs of one input are, with their time.
abbrev pub at_time : {F : Type 0} → ℕ → List (Output F) → List (ℕ × Output F)
at_time now outputs = map (λ output. (now, output)) outputs

abbrev pub Step : Type 0 → Type 0
Step F = StratumV1Source F × List (Output F)

module _ (host : Host) (float : Float64) where
  open float use {F}

  pub Flow-cases :
      (flow : Flow F)
      → ((outcome : ConnectOutcome) × (flow ≡ stop outcome))
        ⊎ ((after : StratumV1Source F) × (outputs : List (Output F)) × (flow ≡ next after outputs))
  Flow-cases (stop outcome) = inl (outcome, refl)
  Flow-cases (next after outputs) = inr (after, outputs, refl)

  pub run-stop :
      (s : StratumV1Source F) (now : ℕ) (input : Input F) (rest : List (ℕ × Input F))
      (outcome : ConnectOutcome)
      → step host float s now input ≡ stop outcome
      → run host float s ((now, input) ∷ rest) ≡ (s, [], some outcome)
  unfolding run
  run-stop s now input rest outcome stopped =
      ap (follow host float now s (λ after. run host float after rest)) stopped

  pub run-next :
      (s : StratumV1Source F) (now : ℕ) (input : Input F) (rest : List (ℕ × Input F))
      (after : StratumV1Source F) (outputs : List (Output F))
      → step host float s now input ≡ next after outputs
      → run host float s ((now, input) ∷ rest) ≡ (
        (run host float after rest).0,
        at_time now outputs ++ (run host float after rest).1,
        (run host float after rest).2,
      )
  unfolding run
  run-next s now input rest after outputs going =
      ap (follow host float now s (λ after. run host float after rest)) going
