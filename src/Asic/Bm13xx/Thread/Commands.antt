-- ===== src/Asic/Bm13xx/Thread/Commands.antt =====
-- thread.rs: which of the actor's outputs send a job to the chips.
use nano_mujina.Prelude.{
  ℕ, suc, Bool, true, false, not, ◌&&◌, ◌≡◌, refl, Option, none, some, List, [], ◌∷◌, map, ◌⊎◌, inl,
  inr, if-holds, All, All-append,
}
use nano_mujina.Asic.Bm13xx.Hash.{Hash}
use nano_mujina.Asic.Bm13xx.Command.{Command, JobFullFormat, write_register, job_full}
use nano_mujina.Asic.Bm13xx.Register.{pll_divider}
use nano_mujina.Asic.Bm13xx.Pll.{PllConfig}
use nano_mujina.Asic.Bm13xx.Ticket.{Log2Difficulty}
use nano_mujina.Asic.Bm13xx.Thread.{HashTask, TaskError, full_job, job_with_root}
use nano_mujina.Asic.Bm13xx.Thread.Ramp.{RampFloat}
use nano_mujina.Asic.Bm13xx.Thread.Init.{
  Io, InitError, send_all, configuration, final_configuration, init_commands, frequency_steps,
  initialize_chip,
}
use nano_mujina.Asic.Bm13xx.Thread.Actor.{
  Setup, Actor, ThreadError, Output, chip_command, send_job, finish, enable_output, bring_up,
  bring_up_outputs,
}

-- What holds of the job, if an output sends one to the chips.
abbrev pub OfCommand : (JobFullFormat → Type 0) → Command → Type 0
OfCommand P (job_full j) = P j
OfCommand P _ = Unit

abbrev pub OfJob : (JobFullFormat → Type 0) → Output → Type 0
OfJob P (chip_command c) = OfCommand P c
OfJob P _ = Unit

module _ (P : JobFullFormat → Type 0) where
  ramp-no_job :
      (configs : List PllConfig)
      → All (OfCommand P) (map (λ c. write_register true 0x00 (pll_divider c)) configs)
  ramp-no_job [] = tt
  ramp-no_job (c ∷ cs) = (tt, ramp-no_job cs)

  pub init_commands-no_job :
      (f32 : RampFloat) (d : Log2Difficulty) → All (OfCommand P) (init_commands f32 d)
  unfolding init_commands
  init_commands-no_job f32 d =
      All-append (OfCommand P) (configuration d) _
        (
          tt,
          (
            tt,
            (
              tt,
              (
                tt,
                (
                  tt,
                  (
                    tt,
                    (
                      tt,
                      (
                        tt,
                        (tt, (tt, (tt, (tt, (tt, (tt, (tt, (tt, (tt, (tt, (tt, (tt, tt)))))))))))),
                      ),
                    ),
                  ),
                ),
              ),
            ),
          ),
        )
        (All-append (OfCommand P) (map _ (frequency_steps f32)) final_configuration
          (ramp-no_job (frequency_steps f32)) (tt, (tt, tt)))

  send_all-All :
      (io : Io) (n : ℕ) (cs : List Command)
      → All (OfCommand P) cs
      → All (OfCommand P) (send_all io n cs).0
  unfolding send_all
  send_all-All io n [] h = tt
  send_all-All io n (c ∷ cs) (h, hs) =
      if-holds (λ (r : List Command × Option InitError). All (OfCommand P) r.0) (io.send_fails n) _
        _ (λ _. tt) (λ _. (h, send_all-All io (suc n) cs hs))

  pub bring_up-no_job : (u : Setup) (s : Actor) (io : Io) → All (OfCommand P) (bring_up u s io).0
  unfolding bring_up initialize_chip
  bring_up-no_job u s io =
      if-holds (λ (r : List Command × Option InitError). All (OfCommand P) r.0) s.chip_initialized _
        _ (λ _. tt)
        (λ _.
          if-holds (λ (r : List Command × Option InitError). All (OfCommand P) r.0)
            (u.has_asic_enable && io.enable_fails) _ _ (λ _. tt)
            (λ _.
              send_all-All io 0 (init_commands u.f32 u.asic_difficulty)
                (init_commands-no_job u.f32 u.asic_difficulty)))

  outputs-All : (cs : List Command) → All (OfCommand P) cs → All (OfJob P) (map chip_command cs)
  outputs-All [] h = tt
  outputs-All (c ∷ cs) (h, hs) = (h, outputs-All cs hs)

  enable_output-no_job : (b : Bool) → All (OfJob P) (enable_output b)
  unfolding enable_output
  enable_output-no_job true = (tt, tt)
  enable_output-no_job false = tt

  pub bring_up_outputs-no_job :
      (u : Setup) (s : Actor) (cs : List Command)
      → All (OfCommand P) cs
      → All (OfJob P) (bring_up_outputs u s cs)
  unfolding bring_up_outputs enable_output
  bring_up_outputs-no_job u s cs h =
      All-append (OfJob P) (enable_output (not s.chip_initialized && u.has_asic_enable)) _
        (enable_output-no_job (not s.chip_initialized && u.has_asic_enable)) (outputs-All cs h)

  -- A job that is sent is the task's.
  pub send_job-All :
      (io : Io) (n : ℕ) (task : HashTask) (id : ℕ) (r : TaskError ⊎ Hash)
      → ((root : Hash) → r ≡ inr root → P (full_job task id root))
      → All (OfJob P) (send_job io n (job_with_root task id r)).0
  unfolding send_job
  send_job-All io n task id (inl e) h = tt
  send_job-All io n task id (inr root) h =
      if-holds (λ (r : List Output × Option ThreadError). All (OfJob P) r.0) (io.send_fails n) _ _
        (λ _. tt) (λ _. (h root refl, tt))

  pub finish-All :
      (s : Actor) (old : Option HashTask) (sent : List Output × Option ThreadError)
      → All (OfJob P) sent.0
      → All (OfJob P) (finish s old sent).1
  unfolding finish
  finish-All s old (outs, none) h = All-append (OfJob P) outs _ h (tt, tt)
  finish-All s old (outs, some e) h = All-append (OfJob P) outs _ h (tt, tt)
