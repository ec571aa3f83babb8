-- ===== src/Types/DebouncedAlarm/Tests.antt =====
-- The theorems about the alarm at concrete runs.
use nano_mujina.Prelude.{◌+◌, ◌≡◌, refl, true, false, List, [], ◌∷◌}
use nano_mujina.Types.DebouncedAlarm.{pending, triggered, active, new}
use nano_mujina.Types.DebouncedAlarm.Episodes.{
  Call, checked, was_reset, run, count_triggers, count_take_downs, is_fired, triggers-balance,
  episode,
}

abbrev calls : List Call
calls =
    checked 0 true
    ∷ checked 30 true
    ∷ checked 31 false
    ∷ checked 40 true
    ∷ checked 80 true
    ∷ was_reset
    ∷ []

triggers-balance_example :
    count_triggers (new 30) calls
    ≡ count_take_downs (new 30) calls + is_fired (run (new 30) calls).state
triggers-balance_example = triggers-balance 30 calls

episode_run : episode 30 5 (20 ∷ 36 ∷ 40 ∷ []) ≡ pending ∷ triggered ∷ active ∷ []
unfolding episode
episode_run = refl
