-- ===== src/Types/HashrateEstimator/Tests.antt =====
-- The tests of hashrate_estimator.rs, and the theorems at concrete inputs.
use nano_mujina.Prelude.{ℕ, ◌+◌, ◌-◌, ◌*◌, ◌/◌, ◌%◌, ◌^◌, min, ◌≡◌, refl, List, [], ◌∷◌, arith}
use nano_mujina.Types.HashrateEstimator.{
  Ruint, IsRuint, new, with_limits, prune_loop, prune_before, capacity_loop, record_at, rate_of,
  hashrate_at,
}
use nano_mujina.Types.HashrateEstimator.Window.{Call, recorded, queried, run, IsSound, run-IsSound}

abbrev ruint : Ruint
ruint = record {
  add = λ a b. (a + b) % 2 ^ 256;
  sub = λ a b. (a + 2 ^ 256 - b) % 2 ^ 256;
  div = λ a b. a / b;
  saturating_to_u64 = λ a. min a (2 ^ 64 - 1);
}

ruint-IsRuint : IsRuint ruint
ruint-IsRuint = record {
  add_lem = λ a b. refl;
  sub_lem = λ a b h. refl;
  div_lem = λ a b h. refl;
  saturating_lem = λ a. refl;
}

-- Seconds after the first share of a test, which comes 1000 s after the clock's beginning.
abbrev at_secs : ℕ → ℕ
at_secs n = (1000 + n) * 1000000000

abbrev window_100 : ℕ
window_100 = 100000000000

multiple_samples_sum :
    (hashrate_at ruint
      (record_at ruint
        (record_at ruint (record_at ruint (new window_100) (at_secs 0) 1000) (at_secs 10) 2000)
        (at_secs 20)
        3000)
      (at_secs 20)).0
    ≡ 300
unfolding hashrate_at record_at new with_limits prune_before prune_loop capacity_loop rate_of
multiple_samples_sum = refl

expired_samples_pruned :
    (hashrate_at ruint
      (record_at ruint (record_at ruint (new window_100) (at_secs 0) 5000) (at_secs 50) 1000)
      (at_secs 150)).0
    ≡ 10
unfolding hashrate_at record_at new with_limits prune_before prune_loop capacity_loop rate_of
expired_samples_pruned = refl

abbrev calls : List Call
calls =
    recorded (at_secs 0) 5000
    ∷ queried (at_secs 20)
    ∷ recorded (at_secs 50) 1000
    ∷ recorded (at_secs 60) 3000
    ∷ []

run-IsSound_example : IsSound (run ruint (with_limits window_100 5 2) calls)
run-IsSound_example =
    run-IsSound ruint ruint-IsRuint window_100 5 2 calls
      (omega arith, (tt, (omega arith, (omega arith, tt))))
