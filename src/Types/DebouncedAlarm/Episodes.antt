-- ===== src/Types/DebouncedAlarm/Episodes.antt =====
-- Runs of the alarm: what a sequence of calls reports.
use nano_mujina.Prelude.{
  ℕ, ◌+◌, ◌≤◌, ◌≡◌, refl, ap, Bool, true, List, [], ◌∷◌, arith, leb, if◌then◌else◌, All,
}
use nano_mujina.Types.DebouncedAlarm.{
  AlarmStatus, pending, triggered, active, resolved, State, timing, fired, DebouncedAlarm, new,
  check, reset,
}

-- A call of `check` at a time, or of `reset`.
pub data Call : Type 0 where
  checked : ℕ → Bool → Call
  was_reset : Call

-- One call, and what it adds to the counts of `Triggered` and of `Resolved`.
pub step : DebouncedAlarm → Call → DebouncedAlarm
step a (checked now condition) = (check a now condition).1
step a was_reset = reset a

abbrev one_if_triggered : AlarmStatus → ℕ
one_if_triggered triggered = 1
one_if_triggered _ = 0

abbrev one_if_resolved : AlarmStatus → ℕ
one_if_resolved resolved = 1
one_if_resolved _ = 0

abbrev triggers : DebouncedAlarm → Call → ℕ
triggers a (checked now condition) = one_if_triggered (check a now condition).0
triggers a was_reset = 0

-- An alarm is taken down by a `Resolved`, or by a reset while it is fired.
abbrev pub is_fired : State → ℕ
is_fired fired = 1
is_fired _ = 0

abbrev take_downs : DebouncedAlarm → Call → ℕ
take_downs a (checked now condition) = one_if_resolved (check a now condition).0
take_downs a was_reset = is_fired a.state

pub run : DebouncedAlarm → List Call → DebouncedAlarm
run a [] = a
run a (c ∷ cs) = run (step a c) cs

pub count_triggers : DebouncedAlarm → List Call → ℕ
count_triggers a [] = 0
count_triggers a (c ∷ cs) = triggers a c + count_triggers (step a c) cs

pub count_take_downs : DebouncedAlarm → List Call → ℕ
count_take_downs a [] = 0
count_take_downs a (c ∷ cs) = take_downs a c + count_take_downs (step a c) cs

step_balance :
    (a : DebouncedAlarm) (c : Call)
    → is_fired a.state + triggers a c ≡ take_downs a c + is_fired (step a c).state
unfolding step check reset
step_balance a (checked now condition) = ground arith
step_balance a was_reset = ground arith

run_balance :
    (a : DebouncedAlarm) (cs : List Call)
    → is_fired a.state + count_triggers a cs ≡ count_take_downs a cs + is_fired (run a cs).state
unfolding run count_triggers count_take_downs
run_balance a [] = omega arith
run_balance a (c ∷ cs) = omega (arith, step_balance a c, run_balance (step a c) cs)

-- Over any sequence of checks and resets from a new alarm, `Triggered` is reported once for each
-- time that the alarm is taken down, by a `Resolved` or by a reset while fired, and once more if
-- the alarm is fired at the end.
pub triggers-balance :
    (debounce : ℕ) (cs : List Call)
    → count_triggers (new debounce) cs
      ≡ count_take_downs (new debounce) cs + is_fired (run (new debounce) cs).state
unfolding new
triggers-balance debounce cs =
    omega (arith, run_balance (record { debounce = debounce; state = State.idle }) cs)

-- The statuses that checks with a true condition report, at the times given.
pub statuses : DebouncedAlarm → List ℕ → List AlarmStatus
statuses a [] = []
statuses a (t ∷ ts) = let (s, a') = check a t true in s ∷ statuses a' ts

-- What an uninterrupted episode that began at `since` reports.
abbrev pub after_trigger : List ℕ → List AlarmStatus
after_trigger [] = []
after_trigger (t ∷ ts) = active ∷ after_trigger ts

unfoldable pub episode : ℕ → ℕ → List ℕ → List AlarmStatus
episode debounce since [] = []
episode debounce since (t ∷ ts) =
    if leb (since + debounce) t
    then triggered ∷ after_trigger ts
    else pending ∷ episode debounce since ts

statuses-fired :
    (debounce : ℕ) (ts : List ℕ)
    → statuses (record { debounce = debounce; state = fired }) ts ≡ after_trigger ts
unfolding statuses check
statuses-fired debounce [] = refl
statuses-fired debounce (t ∷ ts) = ap (◌∷◌ active) (statuses-fired debounce ts)

statuses-timing :
    (debounce since : ℕ) (ts : List ℕ)
    → All (λ t. since ≤ t) ts
    → statuses (record { debounce = debounce; state = timing since }) ts ≡ episode debounce since ts
unfolding statuses check episode
statuses-timing debounce since [] h = refl
statuses-timing debounce since (t ∷ ts) (late, h) =
    ground (arith, statuses-fired debounce ts, statuses-timing debounce since ts h)

-- While the condition stays true, a new alarm reports `Pending` at the first check, `Pending` up to
-- the first check that comes at least the debounce time after it, `Triggered` there, and `Active`
-- at every later check, for check times that do not precede the first.
pub statuses-episode :
    (debounce t : ℕ) (ts : List ℕ)
    → All (λ u. t ≤ u) ts
    → statuses (new debounce) (t ∷ ts) ≡ pending ∷ episode debounce t ts
unfolding statuses new check
statuses-episode debounce t ts h = ap (◌∷◌ pending) (statuses-timing debounce t ts h)
