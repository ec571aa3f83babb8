-- ===== src/Asic/Bm13xx/Thread/FirstJob.antt =====
-- thread.rs: the bring-up of the chips before their first job.
use nano_mujina.Prelude.{
  ℕ, suc, Bool, true, false, not, ◌&&◌, ◌≡◌, refl, sym, ap, ◌∙◌, subst, Option, none, some, List,
  [], ◌∷◌, ◌++◌, map, length, ◌⊎◌, inl, inr, if-holds, All, All-append, append-nil, append_assoc,
}
use nano_mujina.Asic.Bm13xx.Command.{Command}
use nano_mujina.Asic.Bm13xx.Thread.{HashTask, ChipJobTracker, clear}
use nano_mujina.Asic.Bm13xx.Thread.Init.{Io, InitError, send_all, init_commands, initialize_chip}
use nano_mujina.Asic.Bm13xx.Thread.Actor.{
  Setup, Actor, Output, chip_command, asic_enable, respond, Event, update_task, replace_task,
  new_actor, enable_output, start_task, bring_up, bring_up_outputs, assign, on_update_task,
  on_replace_task, on_tick, on_removal, ThreadRemovalSignal, running, board_disconnected,
  hardware_fault, user_requested, removal_shutdown, on_go_idle, step, leaves, run, share_sent,
  expected_hash_rate, removal, configure, go_idle, shutdown, serial_error, ntime_tick,
  chip_response,
}
use nano_mujina.Asic.Bm13xx.Thread.Idle.{IsQuiet, StaysIdle, step-StaysIdle}
use nano_mujina.Asic.Bm13xx.Thread.Commands.{OfCommand, bring_up-no_job}
use nano_mujina.Asic.Bm13xx.Thread.Idle.{IsQuiet, StaysIdle, step-StaysIdle}
use nano_mujina.Asic.Bm13xx.Thread.Commands.{OfCommand, bring_up-no_job}

-- The commands that the sink took, in order.
abbrev pub commands : List Output → List Command
commands [] = []
commands (chip_command c ∷ rest) = c ∷ commands rest
commands (asic_enable ∷ rest) = commands rest
commands (expected_hash_rate ∷ rest) = commands rest
commands (respond r ∷ rest) = commands rest
commands (share_sent tx share ∷ rest) = commands rest

commands-append : (xs ys : List Output) → commands (xs ++ ys) ≡ commands xs ++ commands ys
commands-append [] ys = refl
commands-append (chip_command c ∷ rest) ys = ap (◌∷◌ c) (commands-append rest ys)
commands-append (asic_enable ∷ rest) ys = commands-append rest ys
commands-append (expected_hash_rate ∷ rest) ys = commands-append rest ys
commands-append (respond r ∷ rest) ys = commands-append rest ys
commands-append (share_sent tx share ∷ rest) ys = commands-append rest ys

commands-map : (cs : List Command) → commands (map chip_command cs) ≡ cs
commands-map [] = refl
commands-map (c ∷ cs) = ap (◌∷◌ c) (commands-map cs)

commands-enable_output :
    (b : Bool) (outs : List Output) → commands (enable_output b ++ outs) ≡ commands outs
unfolding enable_output
commands-enable_output true outs = refl
commands-enable_output false outs = refl

abbrev pub IsNoJob : Command → Type 0
IsNoJob = OfCommand (λ _. ⊥)

-- The commands have the whole bring-up, and no job before it.
pub record BringsUpFirst (u : Setup) (cs : List Command) : Type 0 where
  pub before : List Command
  pub after : List Command
  pub contains_init : cs ≡ before ++ (init_commands u.f32 u.asic_difficulty ++ after)
  pub no_job_before : All IsNoJob before

-- There is no job, or the whole bring-up goes before.
abbrev pub IsInOrder : Setup → List Command → Type 0
IsInOrder u cs = All IsNoJob cs ⊎ BringsUpFirst u cs

some-none : {A : Type 0} {a : A} → some a ≡ none → ⊥
some-none e = cc

send_all_complete :
    (io : Io) (n : ℕ) (cs : List Command) → (send_all io n cs).1 ≡ none → (send_all io n cs).0 ≡ cs
unfolding send_all
send_all_complete io n [] h = refl
send_all_complete io n (c ∷ cs) h =
    if-holds (λ (r : List Command × Option InitError). r.1 ≡ none → r.0 ≡ c ∷ cs) (io.send_fails n)
      _ _ (λ _ e. absurd (some-none e)) (λ _ e. ap (◌∷◌ c) (send_all_complete io (suc n) cs e)) h

-- Chips that are not up have no task.
abbrev IsDown : Actor → Type 0
IsDown s = (s.chip_initialized ≡ false) × (s.current_task ≡ none)

module _ (u : Setup) where
  bring_up_complete :
      (s : Actor) (io : Io)
      → s.chip_initialized ≡ false
      → (bring_up u s io).1 ≡ none
      → (bring_up u s io).0 ≡ init_commands u.f32 u.asic_difficulty
  unfolding bring_up initialize_chip
  bring_up_complete s io h =
      if-holds
        (λ (r : List Command × Option InitError).
          r.1 ≡ none → r.0 ≡ init_commands u.f32 u.asic_difficulty)
        s.chip_initialized _ _ (λ up. cc)
        (λ _.
          if-holds
            (λ (r : List Command × Option InitError).
              r.1 ≡ none → r.0 ≡ init_commands u.f32 u.asic_difficulty)
            (u.has_asic_enable && io.enable_fails) _ _ (λ _ e. absurd (some-none e))
            (λ _. send_all_complete io 0 (init_commands u.f32 u.asic_difficulty)))

  commands-bring_up_outputs :
      (s : Actor) (cs : List Command) → commands (bring_up_outputs u s cs) ≡ cs
  unfolding bring_up_outputs
  commands-bring_up_outputs s cs =
      commands-enable_output (not s.chip_initialized && u.has_asic_enable) (map chip_command cs)
      ∙ commands-map cs

  -- A step of an actor whose chips are down.
  abbrev FromDown : Actor × List Output → Type 0
  FromDown r = (IsDown r.0 × All IsNoJob (commands r.1)) ⊎ BringsUpFirst u (commands r.1)

  assign-FromDown :
      (prepare : ChipJobTracker → ChipJobTracker) (s : Actor) (new_task : HashTask) (io : Io)
      (r : List Command × Option InitError)
      → IsDown s
      → (r.1 ≡ none → r.0 ≡ init_commands u.f32 u.asic_difficulty)
      → All IsNoJob r.0
      → FromDown (assign u prepare s new_task io r)
  unfolding assign
  assign-FromDown prepare s new_task io (cs, some e) d complete h = inl (
    d,
    subst (All IsNoJob)
        (sym (
          commands-append (bring_up_outputs u s cs) (respond _ ∷ [])
          ∙ (append-nil _ ∙ commands-bring_up_outputs s cs)))
        h,
  )
  assign-FromDown prepare s new_task io (cs, none) d complete h =
      let ready : Actor = record s { chip_initialized = true; chip_jobs = prepare s.chip_jobs } in
      let later : List Output = (start_task u ready new_task io (length cs)).1 in
      inr (record {
        before = [];
        after = commands later;
        contains_init =
            commands-append (bring_up_outputs u s cs) later
            ∙ ap (λ xs. xs ++ commands later) (commands-bring_up_outputs s cs ∙ complete refl);
        no_job_before = tt;
      })

  quiet-commands : (outs : List Output) → All IsQuiet outs → commands outs ≡ []
  quiet-commands [] h = refl
  quiet-commands (chip_command c ∷ rest) (h, _) = absurd h
  quiet-commands (asic_enable ∷ rest) (_, h) = quiet-commands rest h
  quiet-commands (expected_hash_rate ∷ rest) (_, h) = quiet-commands rest h
  quiet-commands (respond r ∷ rest) (_, h) = quiet-commands rest h
  quiet-commands (share_sent tx share ∷ rest) (_, h) = quiet-commands rest h

  -- An event that leaves the actor idle and the chips down.
  stays_down :
      (s : Actor) (r : Actor × List Output)
      → r.0.chip_initialized ≡ false
      → StaysIdle s r
      → FromDown r
  stays_down s r flag (idle, (_, quiet)) =
      inl ((flag, idle), subst (All IsNoJob) (sym (quiet-commands r.1 quiet)) tt)

  on_tick-flag :
      (s : Actor) (current : Option HashTask) (io : Io)
      → (on_tick u s current io).0.chip_initialized ≡ s.chip_initialized
  unfolding on_tick
  on_tick-flag s none io = refl
  on_tick-flag s (some task) io = refl

  on_removal-flag :
      (s : Actor) (signal : ThreadRemovalSignal)
      → (on_removal s signal).chip_initialized ≡ s.chip_initialized
  unfolding on_removal
  on_removal-flag s running = refl
  on_removal-flag s board_disconnected = refl
  on_removal-flag s hardware_fault = refl
  on_removal-flag s user_requested = refl
  on_removal-flag s removal_shutdown = refl

  assigns-FromDown :
      (prepare : ChipJobTracker → ChipJobTracker) (s : Actor) (task : HashTask) (io : Io)
      → IsDown s
      → FromDown (assign u prepare s task io (bring_up u s io))
  assigns-FromDown prepare s task io d =
      assign-FromDown prepare s task io (bring_up u s io) d (bring_up_complete s io d.0)
        (bring_up-no_job (λ _. ⊥) u s io)

  step-FromDown : (s : Actor) (io : Io) (event : Event) → IsDown s → FromDown (step u s io event)
  unfolding step on_update_task on_replace_task on_go_idle
  step-FromDown s io (update_task task) d = assigns-FromDown (λ jobs. jobs) s task io d
  step-FromDown s io (replace_task task) d = assigns-FromDown clear s task io d
  step-FromDown s io (removal signal) d =
      stays_down s (step u s io (removal signal)) (on_removal-flag s signal ∙ d.0)
        (step-StaysIdle u s io (removal signal) tt d.1)
  step-FromDown s io ntime_tick d =
      stays_down s (step u s io ntime_tick) (on_tick-flag s s.current_task io ∙ d.0)
        (step-StaysIdle u s io ntime_tick tt d.1)
  step-FromDown s io configure d =
      stays_down s (step u s io configure) d.0 (step-StaysIdle u s io configure tt d.1)
  step-FromDown s io go_idle d =
      stays_down s (step u s io go_idle) d.0 (step-StaysIdle u s io go_idle tt d.1)
  step-FromDown s io shutdown d =
      stays_down s (step u s io shutdown) d.0 (step-StaysIdle u s io shutdown tt d.1)
  step-FromDown s io serial_error d =
      stays_down s (step u s io serial_error) d.0 (step-StaysIdle u s io serial_error tt d.1)
  step-FromDown s io (chip_response r) d =
      stays_down s (step u s io (chip_response r)) d.0
        (step-StaysIdle u s io (chip_response r) tt d.1)

  -- Commands in front of a run whose own are in order, and after a bring-up.
  in_front : (xs ys : List Command) → All IsNoJob xs → IsInOrder u ys → IsInOrder u (xs ++ ys)
  in_front xs ys h (inl none_at_all) = inl (All-append IsNoJob xs ys h none_at_all)
  in_front xs ys h (inr up) = inr (record {
    before = xs ++ up.before;
    after = up.after;
    contains_init = ap (λ zs. xs ++ zs) up.contains_init ∙ sym (append_assoc xs up.before _);
    no_job_before = All-append IsNoJob xs up.before h up.no_job_before;
  })

  behind : (xs ys : List Command) → BringsUpFirst u xs → BringsUpFirst u (xs ++ ys)
  behind xs ys up = record {
    before = up.before;
    after = up.after ++ ys;
    contains_init =
        ap (λ zs. zs ++ ys) up.contains_init
        ∙ (append_assoc up.before (init_commands u.f32 u.asic_difficulty ++ up.after) ys
            ∙ ap (λ zs. up.before ++ zs)
                (append_assoc (init_commands u.f32 u.asic_difficulty) up.after ys));
    no_job_before = up.no_job_before;
  }

  -- What the rest of a run adds to a step.
  then_InOrder :
      (r : Actor × List Output) (later : List Output)
      → FromDown r
      → (IsDown r.0 → IsInOrder u (commands later))
      → IsInOrder u (commands (r.1 ++ later))
  then_InOrder r later (inl (down, h)) k =
      subst (IsInOrder u) (sym (commands-append r.1 later))
        (in_front (commands r.1) (commands later) h (k down))
  then_InOrder r later (inr up) k = inr (
      subst (BringsUpFirst u) (sym (commands-append r.1 later))
        (behind (commands r.1) (commands later) up))

  alone_InOrder : (r : Actor × List Output) → FromDown r → IsInOrder u (commands r.1)
  alone_InOrder r (inl (down, h)) = inl h
  alone_InOrder r (inr up) = inr up

  run-InOrder :
      (s : Actor) (events : List (Io × Event))
      → IsDown s
      → IsInOrder u (commands (run u s events).1)
  unfolding run
  run-InOrder s [] d = inl tt
  run-InOrder s ((io, event) ∷ rest) d =
      let now : Actor × List Output = step u s io event in
      if-holds (λ (r : Actor × List Output). IsInOrder u (commands r.1)) (leaves event) _ _
        (λ _. alone_InOrder now (step-FromDown s io event d))
        (λ _.
          then_InOrder now (run u now.0 rest).1 (step-FromDown s io event d)
            (run-InOrder now.0 rest))

  -- From its start, whatever events come and whatever sends fail, the actor sends the chips no job
  -- before the sink has taken the whole bring-up sequence, in its order and with nothing in between.
  pub run-IsInOrder :
      (events : List (Io × Event)) → IsInOrder u (commands (run u new_actor events).1)
  unfolding new_actor
  run-IsInOrder events = run-InOrder new_actor events (refl, refl)
