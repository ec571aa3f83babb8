-- ===== src/JobSource/StratumV1/Connection/UpToDate.antt =====
-- job_source/stratum_v1.rs: no change of the hashrate is forgotten by the throttle.
use nano_mujina.Prelude.{
  ℕ, Bool, true, false, Option, none, some, List, [], ◌∷◌, ◌≡◌, ◌≢◌, refl, sym, ◌∙◌, ap, subst, inl,
  inr, arith, if-holds, if◌then◌else◌,
}
use nano_mujina.Scheduler.{Host, submit_share, update_hash_rate}
use nano_mujina.JobSource.StratumV1.{Float64, StratumV1Source, handle_client_event}
use nano_mujina.JobSource.StratumV1.Connection.{
  Input, client_event, client_closed, command, cooldown_expired, cancelled, Flow, next, stop, begin,
  step, run, maybe_suggest_difficulty, flush_suggest, send_suggest, suggest_for, flush_pending,
  slept, before_end, in_cooldown, is_material_change, compute_suggested_difficulty, filter_material,
}
use nano_mujina.JobSource.StratumV1.Connection.Rounds.{
  Same, Step, handle_client_event-Same, Flow-cases, run-stop, run-next,
}

module _ (host : Host) (float : Float64) where
  open float use {F, of_quarters, le, mul, div}

  -- A difficulty is above its quotient by 1.25, and below its product with 1.5.
  abbrev pub IsInDeadband : F → Type 0
  IsInDeadband d = (le d (div d (of_quarters 5)) ≡ false) × (le (mul d (of_quarters 6)) d ≡ false)

  -- Without a cooldown, the difficulty for the hashrate is no material change.
  abbrev IsUpToDate : StratumV1Source F → Type 0
  IsUpToDate s =
      s.cooldown_until ≡ none
      → (d : F) → compute_suggested_difficulty host float s.expected_hashrate ≡ some d
      → is_material_change host float d s.last_suggested_difficulty ≡ false

  Same-IsUpToDate : (s t : StratumV1Source F) → Same s t → IsUpToDate s → IsUpToDate t
  Same-IsUpToDate s t same current free d suggested =
      subst (λ last. is_material_change host float d last ≡ false) (sym same.last)
        (current (sym same.cooldown ∙ free) d
          (ap (compute_suggested_difficulty host float) (sym same.expected) ∙ suggested))

  send_suggest-IsUpToDate :
      (s : StratumV1Source F) (d : F) (now : ℕ) (accepted : Bool)
      → IsUpToDate (send_suggest host float s d now accepted).0
  unfolding send_suggest
  send_suggest-IsUpToDate s d now accepted free e suggested = absurd (ground (arith, free))

  cooling-busy : (cooldown : Option ℕ) (now : ℕ) → before_end cooldown now ≡ true → cooldown ≢ none
  cooling-busy none now cooling free = absurd (ground (arith, cooling))
  cooling-busy (some until) now cooling free = absurd (ground (arith, free))

  suggest_for-IsUpToDate :
      (s : StratumV1Source F) (now : ℕ) (accepted : Bool) (o : Option F)
      → compute_suggested_difficulty host float s.expected_hashrate ≡ o
      → IsUpToDate (suggest_for host float s now accepted o).0
  unfolding suggest_for in_cooldown
  suggest_for-IsUpToDate s now accepted none nothing =
      (λ free d suggested. absurd (ground (arith, sym nothing ∙ suggested)))
  suggest_for-IsUpToDate s now accepted (some diff) computed =
      let sent : Step F = send_suggest host float s diff now accepted in
      let cooling : Bool = before_end s.cooldown_until now in
      if-holds (λ (r : Step F). IsUpToDate r.0)
        (is_material_change host float diff s.last_suggested_difficulty)
        (if cooling then (s, []) else sent) (s, [])
        (λ _.
          if-holds (λ (r : Step F). IsUpToDate r.0) cooling (s, []) sent
            (λ busy free d suggested. absurd (cooling-busy s.cooldown_until now busy free))
            (λ _. send_suggest-IsUpToDate s diff now accepted))
        (λ unchanged free d suggested.
          let same : diff ≡ d = ground (arith, sym computed ∙ suggested) in
          subst (λ x. is_material_change host float x s.last_suggested_difficulty ≡ false) same
            unchanged)

  filter_material-none :
      (last : Option F) (d : F)
      → filter_material host float last (some d) ≡ none
      → is_material_change host float d last ≡ false
  filter_material-none last d dropped = ground (arith, dropped)

  flush_pending-IsUpToDate :
      (s : StratumV1Source F) (now : ℕ) (accepted : Bool) (o : Option F)
      → filter_material host float s.last_suggested_difficulty
          (compute_suggested_difficulty host float s.expected_hashrate)
        ≡ o
      → IsUpToDate (flush_pending host float s now accepted o).0
  unfolding flush_pending
  flush_pending-IsUpToDate s now accepted (some diff) pending =
      send_suggest-IsUpToDate s diff now accepted
  flush_pending-IsUpToDate s now accepted none pending = (λ free d suggested.
      filter_material-none s.last_suggested_difficulty d
        (ap (filter_material host float s.last_suggested_difficulty) (sym suggested) ∙ pending))

  abbrev FlowIsUpToDate : Flow F → Type 0
  FlowIsUpToDate (next after outputs) = IsUpToDate after
  FlowIsUpToDate (stop outcome) = Unit

  step-IsUpToDate :
      (s : StratumV1Source F) (now : ℕ) (input : Input F)
      → IsUpToDate s
      → FlowIsUpToDate (step host float s now input)
  unfolding step maybe_suggest_difficulty flush_suggest
  step-IsUpToDate s now (client_event event received) current =
      Same-IsUpToDate s (handle_client_event host float s event received).0
        (handle_client_event-Same host float s event received) current
  step-IsUpToDate s now (client_closed exit) current = tt
  step-IsUpToDate s now (command (submit_share share) accepted) current = current
  step-IsUpToDate s now (command (update_hash_rate rate) accepted) current =
      suggest_for-IsUpToDate (record s { expected_hashrate = rate }) now accepted _ refl
  step-IsUpToDate s now (cooldown_expired accepted) current =
      if-holds (λ (r : Step F). IsUpToDate r.0) (slept s.cooldown_until now)
        (flush_suggest host float s now accepted) (s, [])
        (λ _. flush_pending-IsUpToDate s now accepted _ refl) (λ _. current)
  step-IsUpToDate s now cancelled current = tt

  run-from :
      (s : StratumV1Source F) (inputs : List (ℕ × Input F))
      → IsUpToDate s
      → IsUpToDate (run host float s inputs).0
  unfolding run
  run-from s [] current = current
  run-from s ((now, input) ∷ rest) current =
      elim (Flow-cases host float (step host float s now input)) [
        | inl (outcome, stopped) ↦
            subst (λ r. IsUpToDate r.0) (sym (run-stop host float s now input rest outcome stopped))
              current
        | inr (after, outputs, going) ↦
            subst (λ r. IsUpToDate r.0)
              (sym (run-next host float s now input rest after outputs going))
              (run-from after rest
                (subst FlowIsUpToDate going (step-IsUpToDate s now input current)))
      ]

  -- The throttle forgets no change of the hashrate: whenever no cooldown is running whose end would
  -- look again, the difficulty for the latest hashrate is no material change from the last suggested
  -- one. It holds after any inputs on a connection, failed sends included, provided that each difficulty
  -- that the source can suggest is within the deadband around itself, as the handshake suggests the
  -- first.
  pub run-up_to_date :
      ((rate : ℕ) (d : F) → compute_suggested_difficulty host float rate ≡ some d → IsInDeadband d)
      → (s : StratumV1Source F) (inputs : List (ℕ × Input F))
      → (run host float (begin host float s) inputs).0.cooldown_until ≡ none
      → (d : F)
      → compute_suggested_difficulty host float
          (run host float (begin host float s) inputs).0.expected_hashrate
        ≡ some d
      → is_material_change host float d
          (run host float (begin host float s) inputs).0.last_suggested_difficulty
        ≡ false
  unfolding begin is_material_change
  run-up_to_date inside s inputs = run-from (begin host float s) inputs (λ free d suggested.
      let (down, up) = inside s.expected_hashrate d suggested in rw suggested (rw down up))
