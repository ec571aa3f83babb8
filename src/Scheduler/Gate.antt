-- ===== src/Scheduler/Gate.antt =====
-- scheduler.rs: `StartupGate`, which holds the first broadcast to the sources until every thread that
-- the enumeration found has reported.
use nano_mujina.Prelude.{ℕ, ◌+◌, Bool, true, false, not, ◌&&◌, leb, if◌then◌else◌}

pub record StartupGate : Type 0 where
  pub registered : ℕ
  pub reported : ℕ
  pub enumeration_complete : Bool
  pub is_open : Bool

unfoldable pub new_gate : StartupGate
new_gate = record { registered = 0; reported = 0; enumeration_complete = false; is_open = false }

unfoldable pub is_holding : StartupGate → Bool
is_holding g = not g.is_open

unfoldable pub try_open : StartupGate → StartupGate
try_open g =
    if g.enumeration_complete && leb g.registered g.reported then record g { is_open = true } else g

unfoldable pub record_registered : StartupGate → StartupGate
record_registered g = if not g.is_open then record g { registered = g.registered + 1 } else g

unfoldable pub record_reported : StartupGate → StartupGate
record_reported g = if not g.is_open then try_open (record g { reported = g.reported + 1 }) else g

unfoldable pub record_enumeration_complete : StartupGate → StartupGate
record_enumeration_complete g =
    if not g.is_open then try_open (record g { enumeration_complete = true }) else g

unfoldable pub record_timeout : StartupGate → StartupGate
record_timeout g = record g { is_open = true }
