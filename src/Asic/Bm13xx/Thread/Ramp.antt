-- ===== src/Asic/Bm13xx/Thread/Ramp.antt =====
-- thread.rs: `calculate_pll_for_frequency`, which takes the first dividers that meet a frequency, and
-- `generate_frequency_ramp_steps`, which raises the frequency step by step.
use nano_mujina.Prelude.{
  ℕ, zero, suc, ◌-◌, ◌*◌, ◌^◌, bit_or, Bool, not, ◌&&◌, Option, none, some, List, [], ◌∷◌, leb,
  ◌==◌, if◌then◌else◌,
}
use nano_mujina.Asic.Bm13xx.Pll.{PllConfig, new, Float32, required_fb_div}

-- `f32` with the operations of the ramp. `of_quarters n` is the literal n / 4, as in 56.25.
pub record RampFloat : Type 1 where
  pub base : Float32
  pub of_quarters : ℕ → base.F
  pub add : base.F → base.F → base.F
  pub le : base.F → base.F → Bool

module _ (f32 : RampFloat) where
  open f32.base use {F, of_nat, mul, div, sub, abs, lt}

  -- The mutable variables of the search.
  pub record Best : Type 0 where
    pub best_fb_div : ℕ
    pub best_ref_div : ℕ
    pub best_post_div1 : ℕ
    pub best_post_div2 : ℕ
    pub min_error : F

  abbrev pub no_best : Best
  no_best = record {
    best_fb_div = 0;
    best_ref_div = 0;
    best_post_div1 = 0;
    best_post_div2 = 0;
    min_error = of_nat 10;
  }

  -- `(actual_freq - target_freq).abs()`.
  unfoldable pub actual_error : F → ℕ → ℕ → ℕ → ℕ → F
  actual_error target_freq fb_div ref_div post_div1 post_div2 = abs (
      sub (div (mul (of_nat 25) (of_nat fb_div)) (of_nat (ref_div * post_div1 * post_div2)))
        target_freq)

  -- The innermost `if`.
  unfoldable pub take_better : F → ℕ → ℕ → ℕ → ℕ → Best → Best
  take_better error fb_div ref_div post_div1 post_div2 s =
      if lt error s.min_error && lt error (of_nat 1)
      then record {
        best_fb_div = fb_div;
        best_ref_div = ref_div;
        best_post_div1 = post_div1;
        best_post_div2 = post_div2;
        min_error = error;
      }
      else s

  -- The body of the innermost loop, below its `break`.
  unfoldable pub try_post_div2 : F → ℕ → ℕ → ℕ → Best → Best
  try_post_div2 target_freq ref_div post_div1 post_div2 s =
      let fb_div = required_fb_div f32.base target_freq ref_div post_div1 post_div2 in
      if leb post_div2 post_div1
      then (if leb 0xa0 fb_div && leb fb_div 0xef
          then take_better (actual_error target_freq fb_div ref_div post_div1 post_div2) fb_div
              ref_div post_div1 post_div2 s
          else s)
      else s

  abbrev pub down_from_7 : List ℕ
  down_from_7 = 7 ∷ 6 ∷ 5 ∷ 4 ∷ 3 ∷ 2 ∷ 1 ∷ []

  -- The three loops, each over the dividers that it has left; each breaks once one is found.
  unfoldable pub first_post_div2 : F → ℕ → ℕ → List ℕ → Best → Best
  first_post_div2 target_freq ref_div post_div1 [] s = s
  first_post_div2 target_freq ref_div post_div1 (post_div2 ∷ rest) s =
      if not (s.best_fb_div == 0)
      then s
      else first_post_div2 target_freq ref_div post_div1 rest
          (try_post_div2 target_freq ref_div post_div1 post_div2 s)

  unfoldable pub first_post_div1 : F → ℕ → List ℕ → Best → Best
  first_post_div1 target_freq ref_div [] s = s
  first_post_div1 target_freq ref_div (post_div1 ∷ rest) s =
      if not (s.best_fb_div == 0)
      then s
      else first_post_div1 target_freq ref_div rest
          (first_post_div2 target_freq ref_div post_div1 down_from_7 s)

  unfoldable pub first_ref_div : F → List ℕ → Best → Best
  first_ref_div target_freq [] s = s
  first_ref_div target_freq (ref_div ∷ rest) s =
      if not (s.best_fb_div == 0)
      then s
      else first_ref_div target_freq rest (first_post_div1 target_freq ref_div down_from_7 s)

  -- What the search returns for its variables.
  unfoldable pub config_of : Best → Option PllConfig
  config_of s =
      if s.best_fb_div == 0
      then none
      else some (
          new s.best_fb_div s.best_ref_div
            (bit_or ((s.best_post_div1 - 1) * 2 ^ 4) (s.best_post_div2 - 1)))

  unfoldable pub calculate_pll_for_frequency : F → Option PllConfig
  calculate_pll_for_frequency target_freq =
      config_of (first_ref_div target_freq (2 ∷ 1 ∷ []) no_best)

  -- `if let Some(config) = … { configs.push(config) }`, with the configurations that follow.
  abbrev pub push : Option PllConfig → List PllConfig → List PllConfig
  push none configs = configs
  push (some config) configs = config ∷ configs

  -- `current` after a round of the loop.
  unfoldable pub next_frequency : F → F → F → F
  next_frequency target_mhz step_mhz current =
      let raised = f32.add current step_mhz in
      if lt target_mhz raised && lt (sub raised step_mhz) target_mhz then target_mhz else raised

  -- The loop of `generate_frequency_ramp_steps`, for at most `fuel` rounds.
  unfoldable pub ramp_loop : ℕ → F → F → F → List PllConfig
  ramp_loop zero target_mhz step_mhz current = []
  ramp_loop (suc fuel) target_mhz step_mhz current =
      let rest = ramp_loop fuel target_mhz step_mhz (next_frequency target_mhz step_mhz current) in
      if f32.le current target_mhz then push (calculate_pll_for_frequency current) rest else []
