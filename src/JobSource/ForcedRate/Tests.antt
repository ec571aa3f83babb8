-- ===== src/JobSource/ForcedRate/Tests.antt =====
-- job_source/forced_rate.rs: runs of the wrapper on concrete inputs.
use nano_mujina.Prelude.{◌≡◌, refl, true, false, some, none, List, [], ◌∷◌, get_elem?}
use nano_mujina.Scheduler.{update_hash_rate}
use nano_mujina.Scheduler.Handlers.{update_job, replace_job, clear_jobs}
use nano_mujina.JobSource.ForcedRate.{
  RateParser, ForcedRateConfig, Input, inner_event, outer_command, cancelled, to_scheduler, new,
  run, from_env,
}
use nano_mujina.JobSource.ForcedRate.Relay.{forced, run-relayed}
use nano_mujina.Fixtures.{toy_host, template, pool_root}

-- One share in 10 s.
abbrev config : ForcedRateConfig
config = record { target_rate = 10000000000 }

-- A job at rate zero, a rate, and the end of the jobs.
abbrev before : List Input
before =
    inner_event (some (update_job (template pool_root))) true
    ∷ outer_command (some (update_hash_rate 100)) true
    ∷ inner_event (some clear_jobs) true
    ∷ []

run-relayed_example :
    get_elem?
      ((run toy_host (new config) (
        inner_event (some (update_job (template pool_root))) true
        ∷ outer_command (some (update_hash_rate 100)) true
        ∷ inner_event (some clear_jobs) true
        ∷ inner_event (some (replace_job (template pool_root))) true
        ∷ cancelled
        ∷ [])).0)
      3
    ≡ some (to_scheduler (replace_job (forced toy_host 10000000000 100 (template pool_root))))
run-relayed_example =
    run-relayed toy_host config before (inner_event (some (replace_job (template pool_root))) true)
      (cancelled ∷ []) (tt, (tt, (tt, tt)))

-- A variable that is no positive number falls back to 18 shares a minute, and one that is not set
-- makes no wrapper.
abbrev parser : RateParser
parser = record {
  parse = λ val. elim val [ [] ↦ none | c ∷ rest ↦ some (false, c) ];
  per_minute_18 = 3333333333;
}

from_env_zero : from_env parser (some (48 ∷ [])) ≡ some (record { target_rate = 3333333333 })
unfolding from_env
from_env_zero = refl
