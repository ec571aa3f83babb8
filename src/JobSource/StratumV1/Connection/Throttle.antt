-- ===== src/JobSource/StratumV1/Connection/Throttle.antt =====
-- job_source/stratum_v1.rs: the distance in time between the suggestions of a difficulty.
use nano_mujina.Prelude.{
  ℕ, ◌+◌, ◌≤◌, Bool, true, false, Option, none, some, List, [], ◌∷◌, ◌++◌, map, ◌≡◌, refl, sym, ap,
  subst, ◌⊎◌, inl, inr, arith, if-holds, leb→le, ltb-false→le, if◌then◌else◌, Outcome, ok, err,
  panic,
}
use nano_mujina.Scheduler.{Host, submit_share, update_hash_rate}
use nano_mujina.Scheduler.Handlers.{SourceEvent}
use nano_mujina.JobSource.StratumV1.{
  Float64, SubmitParams, StratumV1Source, handle_client_event, SourceError,
}
use nano_mujina.JobSource.StratumV1.Connection.{
  Input, client_event, client_closed, command, cooldown_expired, cancelled, Output, to_scheduler,
  submit, suggest_difficulty, Flow, next, stop, suggest_min_interval, submitted, begin, step, run,
  on_share, maybe_suggest_difficulty, flush_suggest, send_suggest, suggest_for, flush_pending,
  slept, before_end, in_cooldown, is_material_change,
}
use nano_mujina.JobSource.StratumV1.Connection.Rounds.{
  Step, handle_client_event-Same, at_time, Flow-cases, run-stop, run-next,
}

-- The times of the suggestions among the outputs.
abbrev pub suggestion_times : {F : Type 0} → List (ℕ × Output F) → List ℕ
suggestion_times [] = []
suggestion_times ((time, suggest_difficulty diff) ∷ rest) = time ∷ suggestion_times rest
suggestion_times ((time, to_scheduler event) ∷ rest) = suggestion_times rest
suggestion_times ((time, submit params) ∷ rest) = suggestion_times rest

-- The first time is not before the bound, and each is at least the interval after the one before.
abbrev pub IsSpaced : ℕ → List ℕ → Type 0
IsSpaced bound [] = Unit
IsSpaced bound (time ∷ rest) = (bound ≤ time) × IsSpaced (time + suggest_min_interval) rest

abbrev pub IsAscending : {F : Type 0} → ℕ → List (ℕ × Input F) → Type 0
IsAscending since [] = Unit
IsAscending since ((time, input) ∷ rest) = (since ≤ time) × IsAscending time rest

suggestion_times-append :
    {F : Type 0}
    → (xs ys : List (ℕ × Output F))
    → suggestion_times (xs ++ ys) ≡ suggestion_times xs ++ suggestion_times ys
suggestion_times-append [] ys = refl
suggestion_times-append ((time, suggest_difficulty diff) ∷ rest) ys =
    ap (◌∷◌ time) (suggestion_times-append rest ys)
suggestion_times-append ((time, to_scheduler event) ∷ rest) ys = suggestion_times-append rest ys
suggestion_times-append ((time, submit params) ∷ rest) ys = suggestion_times-append rest ys

to_scheduler-times :
    (F : Type 0) (now : ℕ) (events : List SourceEvent)
    → suggestion_times {F = F} (at_time now (map to_scheduler events)) ≡ []
to_scheduler-times F now [] = refl
to_scheduler-times F now (event ∷ rest) = to_scheduler-times F now rest

-- No suggestion can come before the bound.
abbrev IsQuietTill : ℕ → ℕ → Option ℕ → Type 0
IsQuietTill bound now none = bound ≤ now
IsQuietTill bound now (some until) = bound ≤ until

-- An arm keeps the bound, or sends one suggestion that is not before it and raises it.
abbrev Keeps : {F : Type 0} → ℕ → ℕ → StratumV1Source F → List (Output F) → Type 0
Keeps bound now after outputs =
    ((suggestion_times (at_time now outputs) ≡ []) × IsQuietTill bound now after.cooldown_until)
    ⊎ ((suggestion_times (at_time now outputs) ≡ now ∷ [])
        × (bound ≤ now)
        × (after.cooldown_until ≡ some (now + suggest_min_interval)))

IsQuietTill-later :
    (bound since now : ℕ) (cooldown : Option ℕ)
    → since ≤ now
    → IsQuietTill bound since cooldown
    → IsQuietTill bound now cooldown
IsQuietTill-later bound since now none le quiet = omega arith
IsQuietTill-later bound since now (some until) le quiet = quiet

-- Outside the cooldown the bound has passed.
over :
    (bound now : ℕ) (cooldown : Option ℕ)
    → IsQuietTill bound now cooldown
    → before_end cooldown now ≡ false
    → bound ≤ now
over bound now none quiet passed = quiet
over bound now (some until) quiet passed = omega (arith, ltb-false→le now until passed)

slept-over :
    (bound now : ℕ) (cooldown : Option ℕ)
    → IsQuietTill bound now cooldown
    → slept cooldown now ≡ true
    → bound ≤ now
slept-over bound now none quiet passed = absurd (ground (arith, passed))
slept-over bound now (some until) quiet passed = omega (arith, leb→le until now passed)

submitted-times :
    (F : Type 0) (now : ℕ) (accepted : Bool) (o : Outcome SourceError SubmitParams)
    → suggestion_times {F = F} (at_time now (submitted accepted o)) ≡ []
submitted-times F now true (ok params) = refl
submitted-times F now false (ok params) = refl
submitted-times F now accepted (err e) = refl
submitted-times F now accepted panic = refl

module _ (host : Host) (float : Float64) where
  open float use {F}

  send_suggest-Keeps :
      (bound now : ℕ) (s : StratumV1Source F) (diff : F) (accepted : Bool)
      → bound ≤ now
      → Keeps bound now
          (send_suggest host float s diff now accepted).0
          (send_suggest host float s diff now accepted).1
  unfolding send_suggest
  send_suggest-Keeps bound now s diff true le = inr (refl, le, refl)
  send_suggest-Keeps bound now s diff false le = inl (refl, omega arith)

  suggest_for-Keeps :
      (bound now : ℕ) (s : StratumV1Source F) (accepted : Bool) (o : Option F)
      → IsQuietTill bound now s.cooldown_until
      → Keeps bound now
          (suggest_for host float s now accepted o).0
          (suggest_for host float s now accepted o).1
  unfolding suggest_for in_cooldown
  suggest_for-Keeps bound now s accepted none quiet = inl (refl, quiet)
  suggest_for-Keeps bound now s accepted (some diff) quiet =
      let sent : Step F = send_suggest host float s diff now accepted in
      let cooling : Bool = in_cooldown s now in
      if-holds (λ (r : Step F). Keeps bound now r.0 r.1)
        (is_material_change host float diff s.last_suggested_difficulty)
        (if cooling then (s, []) else sent) (s, [])
        (λ _.
          if-holds (λ (r : Step F). Keeps bound now r.0 r.1) cooling (s, []) sent
            (λ _. inl (refl, quiet))
            (λ passed.
              send_suggest-Keeps bound now s diff accepted
                (over bound now s.cooldown_until quiet passed)))
        (λ _. inl (refl, quiet))

  flush_pending-Keeps :
      (bound now : ℕ) (s : StratumV1Source F) (accepted : Bool) (o : Option F)
      → bound ≤ now
      → Keeps bound now
          (flush_pending host float s now accepted o).0
          (flush_pending host float s now accepted o).1
  unfolding flush_pending
  flush_pending-Keeps bound now s accepted none le = inl (refl, le)
  flush_pending-Keeps bound now s accepted (some diff) le =
      send_suggest-Keeps bound now s diff accepted le

  -- What a round keeps, if the loop goes on.
  abbrev FlowKeeps : ℕ → ℕ → Flow F → Type 0
  FlowKeeps bound now (next after outputs) = Keeps bound now after outputs
  FlowKeeps bound now (stop outcome) = Unit

  step-Keeps :
      (bound now : ℕ) (s : StratumV1Source F) (input : Input F)
      → IsQuietTill bound now s.cooldown_until
      → FlowKeeps bound now (step host float s now input)
  unfolding step maybe_suggest_difficulty flush_suggest on_share
  step-Keeps bound now s (client_event event received) quiet = inl (
    to_scheduler-times F now (handle_client_event host float s event received).1,
    subst (IsQuietTill bound now)
        (sym (handle_client_event-Same host float s event received).cooldown) quiet,
  )
  step-Keeps bound now s (client_closed exit) quiet = tt
  step-Keeps bound now s (command (submit_share share) accepted) quiet =
      inl (submitted-times F now accepted _, quiet)
  step-Keeps bound now s (command (update_hash_rate rate) accepted) quiet =
      suggest_for-Keeps bound now (record s { expected_hashrate = rate }) accepted _ quiet
  step-Keeps bound now s (cooldown_expired accepted) quiet =
      if-holds (λ (r : Step F). Keeps bound now r.0 r.1) (slept s.cooldown_until now)
        (flush_suggest host float s now accepted) (s, [])
        (λ passed.
          flush_pending-Keeps bound now s accepted _
            (slept-over bound now s.cooldown_until quiet passed))
        (λ _. inl (refl, quiet))
  step-Keeps bound now s cancelled quiet = tt

  kept-IsSpaced :
      (bound now : ℕ) (after : StratumV1Source F) (outputs : List (Output F)) (later : List ℕ)
      → Keeps bound now after outputs
      → ((b : ℕ) → IsQuietTill b now after.cooldown_until → IsSpaced b later)
      → IsSpaced bound (suggestion_times (at_time now outputs) ++ later)
  kept-IsSpaced bound now after outputs later (inl (silent, quiet)) rest =
      rw silent (rest bound quiet)
  kept-IsSpaced bound now after outputs later (inr (one, le, cooldown)) rest =
      let raised : IsQuietTill (now + suggest_min_interval) now after.cooldown_until =
        subst (IsQuietTill (now + suggest_min_interval) now) (sym cooldown) (omega arith) in
      rw one (le, rest (now + suggest_min_interval) raised)

  run-from :
      (bound since : ℕ) (s : StratumV1Source F) (inputs : List (ℕ × Input F))
      → IsQuietTill bound since s.cooldown_until
      → IsAscending since inputs
      → IsSpaced bound (suggestion_times (run host float s inputs).1)
  unfolding run
  run-from bound since s [] quiet ascending = tt
  run-from bound since s ((now, input) ∷ rest) quiet (le, ascending) =
      let kept : FlowKeeps bound now (step host float s now input) =
        step-Keeps bound now s input
          (IsQuietTill-later bound since now s.cooldown_until le quiet) in
      elim (Flow-cases host float (step host float s now input)) [
        | inl (outcome, stopped) ↦
            subst (λ r. IsSpaced bound (suggestion_times r.1))
              (sym (run-stop host float s now input rest outcome stopped)) tt
        | inr (after, outputs, going) ↦
            subst (λ r. IsSpaced bound (suggestion_times r.1))
              (sym (run-next host float s now input rest after outputs going))
              (rw (suggestion_times-append (at_time now outputs) (run host float after rest).1) (
                kept-IsSpaced bound now after outputs _ (subst (FlowKeeps bound now) going kept)
                  (λ b still. run-from b now after rest still ascending)))
      ]

  -- On one connection, whatever the pool sends and whenever the hashrate changes and the cooldown is
  -- over, with sends that fail among them, any two suggestions of a difficulty that the source sends in
  -- its loop are at least `SUGGEST_MIN_INTERVAL` apart, for arms that are taken at times that do not go
  -- back. It says nothing of the suggestion that the client sends in the handshake, which the first one
  -- of the loop may follow at once.
  pub run-IsSpaced :
      (s : StratumV1Source F) (inputs : List (ℕ × Input F))
      → IsAscending 0 inputs
      → IsSpaced 0 (suggestion_times (run host float (begin host float s) inputs).1)
  unfolding begin
  run-IsSpaced s inputs ascending = run-from 0 0 (begin host float s) inputs (omega arith) ascending
