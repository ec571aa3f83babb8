-- ===== src/Asic/Bm13xx/Thread/Idle.antt =====
-- thread.rs: what an idle actor does.
use nano_mujina.Prelude.{
  ℕ, ◌≡◌, refl, ap, ◌∙◌, Option, none, some, List, [], ◌∷◌, if-holds, All, All-append,
}
use nano_mujina.Asic.Bm13xx.Hash.{Hash}
use nano_mujina.Asic.Bm13xx.Response.{Response, nonce}
use nano_mujina.JobSource.Version.{GeneralPurposeBits}
use nano_mujina.Asic.Bm13xx.Thread.{HashTask, get}
use nano_mujina.Asic.Bm13xx.Thread.Init.{Io}
use nano_mujina.Asic.Bm13xx.Thread.Actor.{
  Setup, Actor, Output, chip_command, Event, update_task, replace_task, nonce_root, check_nonce,
  nonce_for, on_response, on_tick, on_removal, running, board_disconnected, hardware_fault,
  user_requested, removal_shutdown, on_go_idle, step, leaves, run, removal, configure, go_idle,
  shutdown, serial_error, ntime_tick, chip_response,
}
use nano_mujina.Asic.Bm13xx.Thread.Holds.{Assigns}

-- An output that gives the chips no command.
abbrev pub IsQuiet : Output → Type 0
IsQuiet (chip_command c) = ⊥
IsQuiet _ = Unit

check_nonce-IsQuiet :
    (u : Setup) (task : HashTask) (root : Option Hash) (n : ℕ) (version : GeneralPurposeBits)
    → All IsQuiet (check_nonce u task root n version)
unfolding check_nonce
check_nonce-IsQuiet u task none n version = tt
check_nonce-IsQuiet u task (some root) n version =
    if-holds (All IsQuiet) (u.bitcoin.is_met_by task.share_target _) _ [] (λ _. (tt, tt)) (λ _. tt)

nonce_for-IsQuiet :
    (u : Setup) (task : Option HashTask) (n : ℕ) (version : GeneralPurposeBits)
    → All IsQuiet (nonce_for u task n version)
unfolding nonce_for
nonce_for-IsQuiet u none n version = tt
nonce_for-IsQuiet u (some task) n version =
    check_nonce-IsQuiet u task (nonce_root u task.template task.en2) n version

on_response-IsQuiet : (u : Setup) (s : Actor) (r : Response) → All IsQuiet (on_response u s r)
unfolding on_response
on_response-IsQuiet u s (nonce n job_id m version c) =
    nonce_for-IsQuiet u (get s.chip_jobs job_id) n version
on_response-IsQuiet u s (Response.read_register a r) = tt

-- What an idle actor does at an event that assigns nothing: it stays idle, its table stays, and the
-- chips get no command.
abbrev pub StaysIdle : Actor → Actor × List Output → Type 0
StaysIdle s r = (r.0.current_task ≡ none) × ((r.0.chip_jobs ≡ s.chip_jobs) × All IsQuiet r.1)

on_tick-StaysIdle :
    (u : Setup) (s : Actor) (current : Option HashTask) (io : Io)
    → s.current_task ≡ none
    → current ≡ none
    → StaysIdle s (on_tick u s current io)
unfolding on_tick
on_tick-StaysIdle u s none io h e = (h, (refl, tt))
on_tick-StaysIdle u s (some task) io h e = cc

pub step-StaysIdle :
    (u : Setup) (s : Actor) (io : Io) (event : Event)
    → Assigns (λ _. ⊥) (io, event)
    → s.current_task ≡ none
    → StaysIdle s (step u s io event)
unfolding step on_go_idle on_removal
step-StaysIdle u s io (removal running) a h = (h, (refl, tt))
step-StaysIdle u s io (removal board_disconnected) a h = (h, (refl, tt))
step-StaysIdle u s io (removal hardware_fault) a h = (h, (refl, tt))
step-StaysIdle u s io (removal user_requested) a h = (h, (refl, tt))
step-StaysIdle u s io (removal removal_shutdown) a h = (h, (refl, tt))
step-StaysIdle u s io configure a h = (h, (refl, (tt, tt)))
step-StaysIdle u s io go_idle a h = (refl, (refl, (tt, tt)))
step-StaysIdle u s io shutdown a h = (h, (refl, tt))
step-StaysIdle u s io serial_error a h = (h, (refl, tt))
step-StaysIdle u s io (chip_response r) a h = (h, (refl, on_response-IsQuiet u s r))
step-StaysIdle u s io ntime_tick a h = on_tick-StaysIdle u s s.current_task io h h
step-StaysIdle u s io (update_task task) a h = absurd a
step-StaysIdle u s io (replace_task task) a h = absurd a

run-StaysIdle :
    (u : Setup) (s : Actor) (events : List (Io × Event))
    → All (Assigns (λ _. ⊥)) events
    → s.current_task ≡ none
    → StaysIdle s (run u s events)
unfolding run
run-StaysIdle u s [] a h = (h, (refl, tt))
run-StaysIdle u s ((io, event) ∷ rest) (a, more) h =
    let now = step-StaysIdle u s io event a h in
    let later = run-StaysIdle u (step u s io event).0 rest more now.0 in
    if-holds (StaysIdle s) (leaves event) _ _ (λ _. now)
      (λ _. (
        later.0,
        (later.1.0 ∙ now.1.0, All-append IsQuiet (step u s io event).1 _ now.1.1 later.1.1),
      ))

-- Responses are judged by the table alone.
on_response-jobs :
    (u : Setup) (s s' : Actor) (response : Response)
    → s.chip_jobs ≡ s'.chip_jobs
    → on_response u s response ≡ on_response u s' response
unfolding on_response
on_response-jobs u s s' (nonce n job_id m version c) e =
    ap (λ jobs. nonce_for u (get jobs job_id) n version) e
on_response-jobs u s s' (Response.read_register a r) e = refl

-- From the moment that the actor goes idle until a task is assigned, no command reaches the chips,
-- whatever happens; but the table of jobs stays, so that a nonce reported for an earlier job still
-- leads to what it led to before.
pub go_idle-IsQuiet :
    (u : Setup) (s : Actor) (io : Io) (events : List (Io × Event)) (response : Response)
    → All (Assigns (λ _. ⊥)) events
    → All IsQuiet (run u (step u s io go_idle).0 events).1
      × (on_response u (run u (step u s io go_idle).0 events).0 response ≡ on_response u s response)
unfolding step on_go_idle
go_idle-IsQuiet u s io events response a =
    let idle = run-StaysIdle u (step u s io go_idle).0 events a refl in
    (idle.1.1, on_response-jobs u (run u (step u s io go_idle).0 events).0 s response idle.1.0)
