-- ===== src/Asic/Bm13xx/Thread/Ladder.antt =====
-- thread.rs: the frequencies that the ramp goes through, and that its loop ends.
use nano_mujina.Prelude.{
  ℕ, zero, suc, ◌+◌, ◌-◌, ◌^◌, ◌≤◌, ◌<◌, min, ◌≡◌, refl, ap, ◌∙◌, true, false, ◌&&◌, List, [], ◌∷◌,
  ltb, leb, if◌then◌else◌, Bool-cases, if-holds, inl, inr, arith,
}
use nano_mujina.Asic.Bm13xx.Pll.{PllConfig}
use nano_mujina.Asic.Bm13xx.Thread.Ramp.{
  RampFloat, push, next_frequency, ramp_loop, calculate_pll_for_frequency,
}
use nano_mujina.Asic.Bm13xx.Thread.Init.{frequency_steps}

-- IEEE 754 on the multiples of 1/4 up to 2 ^ 22, which f32 represents: sums, differences and
-- comparisons of them are exact.
pub record IsExact (f32 : RampFloat) : Type 0 where
  pub add_quarters :
      (a b : ℕ)
      → a + b ≤ 2 ^ 24
      → f32.add (f32.of_quarters a) (f32.of_quarters b) ≡ f32.of_quarters (a + b)
  pub sub_quarters :
      (a b : ℕ)
      → a ≤ 2 ^ 24
      → b ≤ a
      → f32.base.sub (f32.of_quarters a) (f32.of_quarters b) ≡ f32.of_quarters (a - b)
  pub le_quarters :
      (a b : ℕ) → a ≤ 2 ^ 24 → b ≤ 2 ^ 24 → f32.le (f32.of_quarters a) (f32.of_quarters b) ≡ leb a b
  pub lt_quarters :
      (a b : ℕ)
      → a ≤ 2 ^ 24
      → b ≤ 2 ^ 24
      → f32.base.lt (f32.of_quarters a) (f32.of_quarters b) ≡ ltb a b

-- The rungs from a frequency up to a target, both in quarters of a megahertz: each is a step above the
-- one before, but the last, which is the target itself.
pub data Ladder (target step : ℕ) : ℕ → List ℕ → Type 0 where
  top : Ladder target step target (target ∷ [])
  rung :
      (current : ℕ) (rest : List ℕ)
      → current < target
      → Ladder target step (min target (current + step)) rest
      → Ladder target step current (current ∷ rest)

-- The configurations for the rungs, those without one left out.
pub configs : (f32 : RampFloat) → List ℕ → List PllConfig
configs f32 [] = []
configs f32 (current ∷ rest) =
    push f32 (calculate_pll_for_frequency f32 (f32.of_quarters current)) (configs f32 rest)

module _ (f32 : RampFloat) (exact : IsExact f32) (target step : ℕ) where
  abbrev q : ℕ → f32.base.F
  q = f32.of_quarters

  next_frequency-quarters :
      (current : ℕ)
      → current ≤ target
      → target + step ≤ 2 ^ 24
      → next_frequency f32 (q target) (q step) (q current) ≡ (
          if ltb target (current + step) && ltb current target
          then q target
          else q (current + step))
  unfolding next_frequency
  next_frequency-quarters current h b =
      let e1 = exact.add_quarters current step (omega arith) in
      let e2 = exact.lt_quarters target (current + step) (omega arith) (omega arith) in
      let e3 = exact.sub_quarters (current + step) step (omega arith) (omega arith) in
      let e4 = exact.lt_quarters (current + step - step) target (omega arith) (omega arith) in
      let e5 : current + step - step ≡ current = omega arith in rw (e1, e2, e3, e4, e5) refl

  next_frequency-below :
      (current : ℕ)
      → current < target
      → target + step ≤ 2 ^ 24
      → next_frequency f32 (q target) (q step) (q current) ≡ q (min target (current + step))
  next_frequency-below current h b =
      next_frequency-quarters current (omega arith) b
      ∙ if-holds (λ x. x ≡ q (min target (current + step)))
          (ltb target (current + step) && ltb current target) (q target) (q (current + step))
          (λ e. ap q (ground arith)) (λ e. ap q (ground arith))

  next_frequency-top :
      target + step ≤ 2 ^ 24 → next_frequency f32 (q target) (q step) (q target) ≡ q (target + step)
  next_frequency-top b =
      next_frequency-quarters target (omega arith) b
      ∙ if-holds (λ x. x ≡ q (target + step)) (ltb target (target + step) && ltb target target)
          (q target) (q (target + step)) (λ e. absurd (ground arith)) (λ e. refl)

  -- Above the target the loop ends.
  ramp_loop-above :
      (fuel : ℕ)
      → 1 ≤ step
      → target + step ≤ 2 ^ 24
      → ramp_loop f32 fuel (q target) (q step) (q (target + step)) ≡ []
  unfolding ramp_loop
  ramp_loop-above zero s b = refl
  ramp_loop-above (suc fuel) s b =
      let above = exact.le_quarters (target + step) target (omega arith) (omega arith) in
      let no : leb (target + step) target ≡ false = ground arith in rw (above, no) refl

  -- A round at or below the target.
  ramp_loop-round :
      (fuel current : ℕ)
      → current ≤ target
      → target ≤ 2 ^ 24
      → ramp_loop f32 (suc fuel) (q target) (q step) (q current)
        ≡ push f32 (calculate_pll_for_frequency f32 (q current)) (
            ramp_loop f32 fuel
              (q target)
              (q step)
              (next_frequency f32 (q target) (q step) (q current)))
  unfolding ramp_loop
  ramp_loop-round fuel current h b =
      let below = exact.le_quarters current target (omega arith) (omega arith) in
      let yes_it_is : leb current target ≡ true = ground arith in rw (below, yes_it_is) refl

  ramp_loop-top :
      (fuel : ℕ)
      → 1 ≤ step
      → target + step ≤ 2 ^ 24
      → (rungs : List ℕ) × Ladder target step target rungs
        × (ramp_loop f32 (suc fuel) (q target) (q step) (q target) ≡ configs f32 rungs)
  unfolding configs
  ramp_loop-top fuel s b = (
    target ∷ [],
    top,
    ramp_loop-round fuel target (omega arith) (omega arith)
        ∙ ap (push f32 (calculate_pll_for_frequency f32 (q target))) (
            ap (ramp_loop f32 fuel (q target) (q step)) (next_frequency-top b)
            ∙ ramp_loop-above fuel s b),
  )

  -- Enough fuel: one round for each quarter of a megahertz, and one more to see the end.
  ramp_loop-Ladder :
      (fuel current : ℕ)
      → 1 ≤ step
      → target + step ≤ 2 ^ 24
      → current ≤ target
      → target - current + 1 ≤ fuel
      → (rungs : List ℕ) × Ladder target step current rungs
        × (ramp_loop f32 fuel (q target) (q step) (q current) ≡ configs f32 rungs)
  unfolding configs
  ramp_loop-Ladder zero current s b h f = absurd (omega arith)
  ramp_loop-Ladder (suc fuel) current s b h f = elim (Bool-cases (ltb current target)) [
    | inl below ↦
        (let (rungs, ladder, eq) =
            ramp_loop-Ladder fuel (min target (current + step)) s b (omega arith) (ground arith) in
          (
            current ∷ rungs,
            rung current rungs (ground arith) ladder,
            ramp_loop-round fuel current h (omega arith)
                ∙ ap (push f32 (calculate_pll_for_frequency f32 (q current))) (
                    ap (ramp_loop f32 fuel (q target) (q step))
                      (next_frequency-below current (ground arith) b)
                    ∙ eq),
          ))
    | inr at_top ↦ (let eq : current ≡ target = ground arith in rw eq (ramp_loop-top fuel s b))
  ]

-- The ramp of the initialization goes from 56.25 MHz up to 525 MHz, both included, in steps of
-- 6.25 MHz, and its loop ends with the configurations of these frequencies, for every f32 arithmetic
-- that is exact on multiples of a quarter.
pub frequency_steps-Ladder :
    (f32 : RampFloat)
    → IsExact f32
    → (rungs : List ℕ) × Ladder 2100 25 225 rungs × (frequency_steps f32 ≡ configs f32 rungs)
unfolding frequency_steps
frequency_steps-Ladder f32 exact =
    ramp_loop-Ladder f32 exact 2100 25 2000 225 (omega arith) (omega arith) (omega arith)
      (omega arith)
