-- ===== src/Types/DebouncedAlarm.antt =====
-- mujina-miner/src/types/debounced_alarm.rs: an alarm that fires once a condition has held for a
-- debounce time. An `Instant` and a `Duration` are numbers of nanoseconds, and the time of a call
-- is its argument; `elapsed` saturates at 0, as `-` does.
pub mod Episodes
mod Tests
use nano_mujina.Prelude.{ℕ, ◌-◌, Bool, true, false, leb, if◌then◌else◌}

pub data AlarmStatus : Type 0 where
  idle pending triggered active resolved : AlarmStatus

pub data State : Type 0 where
  idle : State
  timing : ℕ → State
  fired : State

pub record DebouncedAlarm : Type 0 where
  pub debounce : ℕ
  pub state : State

unfoldable pub new : ℕ → DebouncedAlarm
new debounce = record { debounce = debounce; state = State.idle }

-- The `match` of `check` on the state and the condition.
dispatch : State → Bool → ℕ → DebouncedAlarm → AlarmStatus × DebouncedAlarm
dispatch State.idle false now a = (AlarmStatus.idle, a)
dispatch State.idle true now a = (pending, record a { state = timing now })
dispatch (timing since) false now a = (AlarmStatus.idle, record a { state = State.idle })
dispatch (timing since) true now a =
    if leb a.debounce (now - since) then (triggered, record a { state = fired }) else (pending, a)
dispatch fired false now a = (resolved, record a { state = State.idle })
dispatch fired true now a = (active, a)

unfoldable pub check : DebouncedAlarm → ℕ → Bool → AlarmStatus × DebouncedAlarm
unfolding dispatch
check a now condition = dispatch a.state condition now a

unfoldable pub reset : DebouncedAlarm → DebouncedAlarm
reset a = record a { state = State.idle }
