-- ===== src/Asic/Bm13xx/Thread/Tests.antt =====
-- thread.rs: runs of the thread on concrete inputs.
use nano_mujina.Prelude.{
  ℕ, ◌+◌, ◌-◌, ◌*◌, ◌/◌, ◌≡◌, refl, true, false, some, List, [], ◌∷◌, leb, ltb, arith, All, min,
}
use nano_mujina.Asic.Bm13xx.Pll.{Float32}
use nano_mujina.Asic.Bm13xx.Response.{Response, nonce}
use nano_mujina.JobSource.Version.{gp_bits}
use nano_mujina.JobSource.Job.{
  compute_merkle_root, kind_merkle_root, template_merkle_root, climb_from,
}
use nano_mujina.Asic.Bm13xx.Thread.{
  insert, get, new_tracker, task_to_job_full, task_merkle_root, en2_merkle_root, merkle_context,
}
use nano_mujina.Asic.Bm13xx.Thread.Tracker.{insert_all, get-insert_all, new_tracker-IsTracker}
use nano_mujina.Asic.Bm13xx.Thread.Ramp.{RampFloat, calculate_pll_for_frequency}
use nano_mujina.Asic.Bm13xx.Thread.Search.{
  find, is_acceptable, all_dividers, config_from, calculate_pll_for_frequency-find,
}
use nano_mujina.Asic.Bm13xx.Thread.Init.{Io, frequency_steps}
use nano_mujina.Asic.Bm13xx.Thread.Ladder.{IsExact, Ladder, configs, frequency_steps-Ladder}
use nano_mujina.Asic.Bm13xx.Thread.Actor.{
  Setup, Actor, update_task, replace_task, chip_response, on_update_task, assign, bring_up,
  start_task, finish, send_job, nonce_for, nonce_root, root_ok, check_nonce, share_of, share_sent,
  ntime_tick, go_idle, new_actor, step, run, on_response,
}
use nano_mujina.Asic.Bm13xx.Thread.Commands.{OfJob}
use nano_mujina.Asic.Bm13xx.Thread.Answers.{IsAnswered}
use nano_mujina.Asic.Bm13xx.Thread.Jobs.{run-step_answers}
use nano_mujina.Asic.Bm13xx.Thread.Holds.{OfShare}
use nano_mujina.Asic.Bm13xx.Thread.Shares.{run-shares, SameButNtime, replace_task-shares}
use nano_mujina.Asic.Bm13xx.Thread.Idle.{IsQuiet, go_idle-IsQuiet}
use nano_mujina.Asic.Bm13xx.Thread.FirstJob.{IsInOrder, commands, run-IsInOrder}
use nano_mujina.Fixtures.{word_hash, toy_bitcoin, toy_ruint, task}

-- Fixed-point arithmetic in quarters.
abbrev quarters_float : Float32
quarters_float = record {
  F = ℕ;
  of_nat = λ n. n * 4;
  mul = λ a b. a * b / 4;
  div = λ a b. a * 4 / b;
  sub = λ a b. a - b;
  abs = λ a. a;
  lt = ltb;
  max_value = 1000000;
  round_u8 = λ a. min 255 ((a + 2) / 4);
}

abbrev quarters_ramp : RampFloat
quarters_ramp = record { base = quarters_float; of_quarters = λ n. n; add = λ a b. a + b; le = leb }

quarters_ramp-IsExact : IsExact quarters_ramp
quarters_ramp-IsExact = record {
  add_quarters = λ a b h. refl;
  sub_quarters = λ a b h l. refl;
  le_quarters = λ a b h l. refl;
  lt_quarters = λ a b h l. refl;
}

abbrev toy_setup : Setup
toy_setup = record {
  bitcoin = toy_bitcoin;
  f32 = quarters_ramp;
  asic_difficulty = record { exponent = 8 };
  ruint = toy_ruint;
  has_asic_enable = true;
}

-- Surroundings where everything works, and where the first send is refused.
abbrev works : Io
works = record { enable_fails = false; send_fails = λ n. false }

abbrev refuses : Io
refuses = record { enable_fails = false; send_fails = λ n. leb n 0 }

abbrev reported : ℕ → Response
reported job_id = nonce 42 job_id 0 (gp_bits 0 1) 0

abbrev up : Actor
up = record {
  chip_initialized = true;
  current_task = some (task 4);
  chip_jobs = new_tracker;
  is_active = true;
}

get-insert_all_example :
    get (insert_all new_tracker (task 1 ∷ task 2 ∷ task 3 ∷ [])) 1 ≡ some (task 2)
get-insert_all_example =
    get-insert_all new_tracker (task 1 ∷ task 2 ∷ task 3 ∷ []) 1 new_tracker-IsTracker (omega arith)
      (omega arith)

calculate_pll_for_frequency-find_example :
    calculate_pll_for_frequency quarters_ramp 2100
    ≡ config_from quarters_ramp 2100
        (find (is_acceptable quarters_ramp 2100) (all_dividers (2 ∷ 1 ∷ [])))
calculate_pll_for_frequency-find_example = calculate_pll_for_frequency-find quarters_ramp 2100

frequency_steps-Ladder_example :
    (rungs : List ℕ) × Ladder 2100 25 225 rungs
    × (frequency_steps quarters_ramp ≡ configs quarters_ramp rungs)
frequency_steps-Ladder_example = frequency_steps-Ladder quarters_ramp quarters_ramp-IsExact

run-step_answers_example :
    All
      (OfJob (
        IsAnswered toy_setup
          (step toy_setup
            (run toy_setup new_actor
              ((refuses, update_task (task 1)) ∷ (works, update_task (task 2)) ∷ [])).0
            works
            ntime_tick).0))
      (step toy_setup
        (run toy_setup new_actor
          ((refuses, update_task (task 1)) ∷ (works, update_task (task 2)) ∷ [])).0
        works
        ntime_tick).1
run-step_answers_example =
    run-step_answers toy_setup
      ((refuses, update_task (task 1)) ∷ (works, update_task (task 2)) ∷ []) works ntime_tick

run-shares_example :
    All
      (OfShare toy_setup (λ t. t.share_tx ≡ 2))
      (run toy_setup new_actor (
        (works, update_task (task 2))
        ∷ (works, ntime_tick)
        ∷ (works, chip_response (reported 1))
        ∷ [])).1
run-shares_example =
    run-shares toy_setup (λ t. t.share_tx ≡ 2) (λ t h. h)
      ((works, update_task (task 2))
        ∷ (works, ntime_tick)
        ∷ (works, chip_response (reported 1))
        ∷ [])
      (refl, (tt, (tt, tt)))

replace_task-shares_example :
    All
      (OfShare toy_setup (SameButNtime (task 5)))
      (run toy_setup
        (step toy_setup up refuses (replace_task (task 5))).0
        ((works, chip_response (reported 0)) ∷ (works, ntime_tick) ∷ [])).1
replace_task-shares_example =
    replace_task-shares toy_setup up refuses (task 5)
      ((works, chip_response (reported 0)) ∷ (works, ntime_tick) ∷ []) refl (tt, (tt, tt))

go_idle-IsQuiet_example :
    All IsQuiet (run toy_setup (step toy_setup up works go_idle).0 ((works, ntime_tick) ∷ [])).1
    × (on_response toy_setup
          (run toy_setup (step toy_setup up works go_idle).0 ((works, ntime_tick) ∷ [])).0
          (reported 0)
        ≡ on_response toy_setup up (reported 0))
go_idle-IsQuiet_example =
    go_idle-IsQuiet toy_setup up works ((works, ntime_tick) ∷ []) (reported 0) (tt, tt)

run-IsInOrder_example : IsInOrder toy_setup (
    commands
      (run toy_setup new_actor
        ((refuses, update_task (task 1)) ∷ (works, update_task (task 2)) ∷ [])).1)
run-IsInOrder_example =
    run-IsInOrder toy_setup ((refuses, update_task (task 1)) ∷ (works, update_task (task 2)) ∷ [])

-- A nonce for the job of a new task leads to a share on the task's channel.
share_after_update :
    on_response toy_setup (step toy_setup up works (update_task (task 5))).0 (reported 0)
    ≡ share_sent 5 (share_of toy_setup (task 5) (word_hash 42) 42 (gp_bits 0 1)) ∷ []
unfolding step on_update_task assign bring_up start_task finish task_to_job_full task_merkle_root
    en2_merkle_root merkle_context send_job insert get on_response nonce_for nonce_root root_ok
    check_nonce compute_merkle_root kind_merkle_root template_merkle_root climb_from
share_after_update = refl
