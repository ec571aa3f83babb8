-- ===== src/Asic/Bm13xx/Thread/Shares.antt =====
-- thread.rs: where the shares come from that the actor puts on a channel.
use nano_mujina.Prelude.{
  true, ◌≡◌, refl, sym, ap, subst, Option, none, List, [], ◌∷◌, if-holds, All, All-append,
}
use nano_mujina.Asic.Bm13xx.Command.{Command}
use nano_mujina.Asic.Bm13xx.Thread.{HashTask, clear}
use nano_mujina.Asic.Bm13xx.Thread.{empty_tasks}
use nano_mujina.Asic.Bm13xx.Thread.Init.{Io, InitError}
use nano_mujina.Asic.Bm13xx.Thread.Actor.{
  Setup, Actor, Event, update_task, replace_task, new_actor, roll_ntime, bring_up, assign,
  on_update_task, on_replace_task, on_go_idle, step, leaves, run, removal, configure, go_idle,
  shutdown, serial_error, ntime_tick, chip_response,
}
use nano_mujina.Asic.Bm13xx.Thread.Holds.{
  OfShare, Assigns, Holds, Kept, on_removal-Holds, on_response-OfShare, on_tick-Kept, assign-Kept,
  empty_tasks-OfSome, start_task-Kept,
}

module _ (u : Setup) (A : HashTask → Type 0)
    (rolls : (task : HashTask) → A task → A (roll_ntime task)) where
  step-Kept :
      (s : Actor) (io : Io) (event : Event)
      → Assigns A (io, event)
      → Holds A s
      → Kept u A rolls (step u s io event)
  unfolding step on_update_task on_replace_task on_go_idle clear
  step-Kept s io (removal signal) a h = (on_removal-Holds u A rolls s signal h, tt)
  step-Kept s io configure a h = (h, (tt, tt))
  step-Kept s io go_idle a h = (record { current = tt; slots = h.slots }, (tt, tt))
  step-Kept s io shutdown a h = (h, tt)
  step-Kept s io serial_error a h = (h, tt)
  step-Kept s io (chip_response r) a h = (h, on_response-OfShare u A rolls s r h)
  step-Kept s io ntime_tick a h = on_tick-Kept u A rolls s s.current_task io h.current h
  step-Kept s io (update_task new_task) a h =
      assign-Kept u A rolls (λ jobs. jobs) s new_task io (bring_up u s io) a h h.slots
  step-Kept s io (replace_task new_task) a h =
      assign-Kept u A rolls clear s new_task io (bring_up u s io) a h (empty_tasks-OfSome u A rolls)

  run-Kept :
      (s : Actor) (events : List (Io × Event))
      → All (Assigns A) events
      → Holds A s
      → Kept u A rolls (run u s events)
  unfolding run
  run-Kept s [] a h = (h, tt)
  run-Kept s ((io, event) ∷ rest) (a, more) h =
      let now = step-Kept s io event a h in
      let later = run-Kept (step u s io event).0 rest more now.0 in
      if-holds (Kept u A rolls) (leaves event) _ _ (λ _. now)
        (λ _. (later.0, All-append (OfShare u A) (step u s io event).1 _ now.1 later.1))

  -- Take any predicate on tasks that rolling the ntime preserves, and any events whose assigned tasks
  -- satisfy it. Then every share that the actor puts on a channel belongs to a task that satisfies it:
  -- the channel, extranonce2 and ntime are that task's, and the hash is that of the header with the
  -- root for that extranonce2, and meets the task's target; whatever sends or bring-ups fail.
  pub run-shares :
      (events : List (Io × Event))
      → All (Assigns A) events
      → All (OfShare u A) (run u new_actor events).1
  unfolding new_actor
  run-shares events a =
      (run-Kept new_actor events a
        (record { current = tt; slots = empty_tasks-OfSome u A rolls })).1

-- A task up to its ntime.
abbrev pub SameButNtime : HashTask → HashTask → Type 0
SameButNtime new task = record new { ntime = task.ntime } ≡ task

-- Events that assign nothing assign only what satisfies a predicate.
no_assign :
    (A : HashTask → Type 0) (events : List (Io × Event))
    → All (Assigns (λ _. ⊥)) events
    → All (Assigns A) events
no_assign A [] h = tt
no_assign A ((io, event) ∷ rest) (h, more) = (one io event h, no_assign A rest more)
  where
    one : (io : Io) (event : Event) → Assigns (λ _. ⊥) (io, event) → Assigns A (io, event)
    one io (update_task task) h = absurd h
    one io (replace_task task) h = absurd h
    one io (removal signal) h = tt
    one io configure h = tt
    one io go_idle h = tt
    one io shutdown h = tt
    one io serial_error h = tt
    one io ntime_tick h = tt
    one io (chip_response r) h = tt

rolled-SameButNtime :
    (new task : HashTask) → SameButNtime new task → SameButNtime new (roll_ntime task)
rolled-SameButNtime new task h = ap roll_ntime h

bring_up-done :
    (u : Setup) (s : Actor) (io : Io) → s.chip_initialized ≡ true → bring_up u s io ≡ ([], none)
unfolding bring_up
bring_up-done u s io up = rw up refl

-- After a replacement, the actor holds only the new task.
replaced-Holds :
    (u : Setup) (s : Actor) (io : Io) (new : HashTask)
    → Holds (SameButNtime new) (assign u clear s new io ([], none)).0
unfolding assign clear
replaced-Holds u s io new =
    (start_task-Kept u (SameButNtime new) (rolled-SameButNtime new)
      (record s { chip_initialized = true; chip_jobs = record s.chip_jobs { tasks = empty_tasks } })
      new io 0 refl (empty_tasks-OfSome u (SameButNtime new) (rolled-SameButNtime new))).0

-- Once the chips are up and a task replaces the others, no share of an earlier task is sent: until
-- another task is assigned, every share is a valid one of the new task with its ntime rolled, whatever
-- jobs the reported nonces name, and whether or not the new job reached the chips.
pub replace_task-shares :
    (u : Setup) (s : Actor) (io : Io) (new : HashTask) (events : List (Io × Event))
    → s.chip_initialized ≡ true
    → All (Assigns (λ _. ⊥)) events
    → All (OfShare u (SameButNtime new)) (run u (step u s io (replace_task new)).0 events).1
unfolding step on_replace_task
replace_task-shares u s io new events up quiet =
    let A : HashTask → Type 0 = SameButNtime new in
    (run-Kept u A (rolled-SameButNtime new) (step u s io (replace_task new)).0 events
      (no_assign A events quiet)
      (subst (λ (r : List Command × Option InitError). Holds A (assign u clear s new io r).0)
        (sym (bring_up-done u s io up)) (replaced-Holds u s io new))).1
