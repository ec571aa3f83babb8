-- ===== src/JobSource/StratumV1/Tests.antt =====
-- job_source/stratum_v1.rs: runs of the source on concrete inputs.
use nano_mujina.Prelude.{
  ℕ, ◌*◌, ◌/◌, ◌≡◌, refl, err, true, false, none, some, List, [], ◌∷◌, leb, arith, subst,
}
use nano_mujina.Types.U256.{down}
use nano_mujina.Scheduler.{update_hash_rate}
use nano_mujina.JobSource.StratumV1.{
  Float64, StratumV1Source, JobNotification, not_subscribed, new_job, handle_client_event,
  on_new_job, job_to_template,
}
use nano_mujina.JobSource.StratumV1.Connection.{
  Input, command, cooldown_expired, begin, run, compute_suggested_difficulty, is_material_change,
}
use nano_mujina.JobSource.StratumV1.Connection.Throttle.{IsSpaced, suggestion_times, run-IsSpaced}
use nano_mujina.JobSource.StratumV1.Connection.UpToDate.{IsInDeadband, run-up_to_date}
use nano_mujina.Fixtures.{toy_host, word_hash}

-- Natural numbers in place of f64, in sixtieths, and every difficulty is 1.
abbrev toy_float : Float64
toy_float = record {
  F = ℕ;
  of_quarters = λ n. n * 15;
  le = leb;
  mul = λ a b. a * b / 60;
  div = λ a b. a * 60 / b;
  is_finite = λ a. true;
  decode = λ a. record { mantissa = a; exponent = down 0 };
  as_f64 = λ d. 60;
}

abbrev source : StratumV1Source ℕ
source = record {
  username = [];
  state = none;
  first_share_logged = false;
  expected_hashrate = 0;
  last_suggested_difficulty = none;
  cooldown_until = none;
  shares_accepted = 0;
  shares_rejected = 0;
}

-- A rate at 1 s, another within the cooldown, and the end of the cooldown.
abbrev rates : List (ℕ × Input ℕ)
rates =
    (1000000000, command (update_hash_rate 10) true)
    ∷ (2000000000, command (update_hash_rate 20) true)
    ∷ (6000000000, cooldown_expired true)
    ∷ []

-- The first rate is suggested, and no later one differs.
suggested_once :
    suggestion_times (run toy_host toy_float (begin toy_host toy_float source) rates).1
    ≡ 1000000000 ∷ []
unfolding begin run
suggested_once = refl

run-IsSpaced_example :
    IsSpaced 0 (suggestion_times (run toy_host toy_float (begin toy_host toy_float source) rates).1)
run-IsSpaced_example =
    run-IsSpaced toy_host toy_float source rates (omega arith, (omega arith, (omega arith, tt)))

computed-IsInDeadband :
    (rate d : ℕ)
    → compute_suggested_difficulty toy_host toy_float rate ≡ some d
    → IsInDeadband toy_host toy_float d
unfolding compute_suggested_difficulty
computed-IsInDeadband rate d computed =
    let sixty : 60 ≡ d = ground (arith, computed) in
    subst (IsInDeadband toy_host toy_float) sixty (refl, refl)

run-up_to_date_example :
    is_material_change toy_host toy_float 60
      (run toy_host toy_float (begin toy_host toy_float source) rates).0.last_suggested_difficulty
    ≡ false
unfolding begin run compute_suggested_difficulty
run-up_to_date_example =
    run-up_to_date toy_host toy_float computed-IsInDeadband source rates refl 60 refl

abbrev job : JobNotification
job = record {
  job_id = 9 ∷ [];
  prev_hash = word_hash 5;
  coinbase1 = 1 ∷ [];
  coinbase2 = 3 ∷ [];
  merkle_branches = word_hash 9 ∷ [];
  version = 0x20000000;
  nbits = 0x1d00ffff;
  ntime = 1000;
  clean_jobs = true;
}

-- A job before the subscription is refused, and a share too.
job_unsubscribed :
    (handle_client_event toy_host toy_float source (new_job job) true).2 ≡ err not_subscribed
unfolding handle_client_event on_new_job job_to_template
job_unsubscribed = refl
