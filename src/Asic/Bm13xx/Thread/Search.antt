-- ===== src/Asic/Bm13xx/Thread/Search.antt =====
-- thread.rs: the search for a PLL configuration against the list of all dividers.
use nano_mujina.Prelude.{
  ℕ, ◌-◌, ◌*◌, ◌^◌, bit_or, ◌≡◌, refl, ap, ◌∙◌, sym, Bool, true, ◌&&◌, Option, none, some, List, [],
  ◌∷◌, ◌++◌, map, leb, if◌then◌else◌, Bool-cases, if-holds, inl, inr, arith,
}
use nano_mujina.Asic.Bm13xx.Pll.{PllConfig, new, required_fb_div}
use nano_mujina.Asic.Bm13xx.Thread.Ramp.{
  RampFloat, Best, no_best, actual_error, take_better, try_post_div2, down_from_7, first_post_div2,
  first_post_div1, first_ref_div, config_of, calculate_pll_for_frequency,
}

-- A reference divider and two post dividers.
pub record Dividers : Type 0 where
  pub ref_div : ℕ
  pub post_div1 : ℕ
  pub post_div2 : ℕ

abbrev dividers : ℕ → ℕ → ℕ → Dividers
dividers r p1 p2 = record { ref_div = r; post_div1 = p1; post_div2 = p2 }

-- All dividers for the reference dividers of a list, the first post divider before the second.
abbrev with_post_div1 : ℕ → List ℕ → List Dividers
with_post_div1 r [] = []
with_post_div1 r (p1 ∷ ps) =
    map (dividers r p1) (7 ∷ 6 ∷ 5 ∷ 4 ∷ 3 ∷ 2 ∷ 1 ∷ []) ++ with_post_div1 r ps

abbrev pub all_dividers : List ℕ → List Dividers
all_dividers [] = []
all_dividers (r ∷ rs) = with_post_div1 r (7 ∷ 6 ∷ 5 ∷ 4 ∷ 3 ∷ 2 ∷ 1 ∷ []) ++ all_dividers rs

abbrev pub find : (Dividers → Bool) → List Dividers → Option Dividers
find test [] = none
find test (d ∷ ds) = if test d then some d else find test ds

module _ (f32 : RampFloat) (target_freq : f32.base.F) where
  abbrev fb_of : Dividers → ℕ
  fb_of d = required_fb_div f32.base target_freq d.ref_div d.post_div1 d.post_div2

  abbrev error_of : Dividers → f32.base.F
  error_of d = actual_error f32 target_freq (fb_of d) d.ref_div d.post_div1 d.post_div2

  -- The dividers are in order, the feedback divider that they need is in range, and the frequency
  -- that they give is near enough.
  abbrev pub is_acceptable : Dividers → Bool
  is_acceptable d =
      (leb d.post_div2 d.post_div1 && (leb 0xa0 (fb_of d) && leb (fb_of d) 0xef))
      && (f32.base.lt (error_of d) (f32.base.of_nat 10)
          && f32.base.lt (error_of d) (f32.base.of_nat 1))

  -- What the search holds after it met the dividers, or none.
  abbrev best_of : Option Dividers → Best f32
  best_of none = no_best f32
  best_of (some d) = record {
    best_fb_div = fb_of d;
    best_ref_div = d.ref_div;
    best_post_div1 = d.post_div1;
    best_post_div2 = d.post_div2;
    min_error = error_of d;
  }

  abbrev or_else : Option Dividers → Option Dividers → Option Dividers
  or_else none y = y
  or_else (some d) y = some d

  find-append :
      (test : Dividers → Bool) (xs ys : List Dividers)
      → find test (xs ++ ys) ≡ or_else (find test xs) (find test ys)
  find-append test [] ys = refl
  find-append test (x ∷ xs) ys = elim (Bool-cases (test x)) [
    | inl e ↦ rw e refl
    | inr e ↦ rw e (find-append test xs ys)
  ]

  -- What a search has found, if anything, is acceptable.
  abbrev Sound : Option Dividers → Type 0
  Sound none = Unit
  Sound (some d) = is_acceptable d ≡ true

  find-Sound : (ds : List Dividers) → Sound (find is_acceptable ds)
  find-Sound [] = tt
  find-Sound (d ∷ ds) = if-holds Sound (is_acceptable d) _ _ (λ e. e) (λ _. find-Sound ds)

  try_post_div2-acceptable :
      (r p1 p2 : ℕ)
      → try_post_div2 f32 target_freq r p1 p2 (no_best f32) ≡ (
          if is_acceptable (dividers r p1 p2)
          then best_of (some (dividers r p1 p2))
          else no_best f32)
  unfolding try_post_div2 take_better
  try_post_div2-acceptable r p1 p2 = ground arith

  first_post_div2-stops :
      (r p1 : ℕ) (ps : List ℕ) (d : Dividers)
      → is_acceptable d ≡ true
      → first_post_div2 f32 target_freq r p1 ps (best_of (some d)) ≡ best_of (some d)
  unfolding first_post_div2
  first_post_div2-stops r p1 [] d h = refl
  first_post_div2-stops r p1 (p2 ∷ ps) d h = ground arith

  first_post_div1-stops :
      (r : ℕ) (ps : List ℕ) (d : Dividers)
      → is_acceptable d ≡ true
      → first_post_div1 f32 target_freq r ps (best_of (some d)) ≡ best_of (some d)
  unfolding first_post_div1
  first_post_div1-stops r [] d h = refl
  first_post_div1-stops r (p1 ∷ ps) d h = ground arith

  first_ref_div-stops :
      (rs : List ℕ) (d : Dividers)
      → is_acceptable d ≡ true
      → first_ref_div f32 target_freq rs (best_of (some d)) ≡ best_of (some d)
  unfolding first_ref_div
  first_ref_div-stops [] d h = refl
  first_ref_div-stops (r ∷ rs) d h = ground arith

  -- A loop that stops at what is found, and that finds `y` from nothing, carries on from `x`.
  resume :
      (loop : Best f32 → Best f32) (y : Option Dividers)
      → ((d : Dividers) → is_acceptable d ≡ true → loop (best_of (some d)) ≡ best_of (some d))
      → loop (no_best f32) ≡ best_of y
      → (x : Option Dividers) → Sound x
      → loop (best_of x) ≡ best_of (or_else x y)
  resume loop y stops from_nothing none h = from_nothing
  resume loop y stops from_nothing (some d) h = stops d h

  abbrev found : Dividers → Option Dividers
  found d = if is_acceptable d then some d else none

  try_post_div2-found :
      (r p1 p2 : ℕ)
      → try_post_div2 f32 target_freq r p1 p2 (no_best f32) ≡ best_of (found (dividers r p1 p2))
  try_post_div2-found r p1 p2 =
      try_post_div2-acceptable r p1 p2 ∙ elim (Bool-cases (is_acceptable (dividers r p1 p2))) [
        | inl e ↦ rw e refl
        | inr e ↦ rw e refl
      ]

  found-Sound : (d : Dividers) → Sound (found d)
  found-Sound d = if-holds Sound (is_acceptable d) (some d) none (λ e. e) (λ _. tt)

  find-found :
      (d : Dividers) (ds : List Dividers)
      → find is_acceptable (d ∷ ds) ≡ or_else (found d) (find is_acceptable ds)
  find-found d ds = elim (Bool-cases (is_acceptable d)) [ inl e ↦ rw e refl | inr e ↦ rw e refl ]

  first_post_div2-find :
      (r p1 : ℕ) (ps : List ℕ)
      → first_post_div2 f32 target_freq r p1 ps (no_best f32)
        ≡ best_of (find is_acceptable (map (dividers r p1) ps))
  unfolding first_post_div2
  first_post_div2-find r p1 [] = refl
  first_post_div2-find r p1 (p2 ∷ ps) =
      let d = dividers r p1 p2 in
      ap (first_post_div2 f32 target_freq r p1 ps) (try_post_div2-found r p1 p2)
      ∙ (resume (first_post_div2 f32 target_freq r p1 ps)
            (find is_acceptable (map (dividers r p1) ps)) (first_post_div2-stops r p1 ps)
            (first_post_div2-find r p1 ps) (found d) (found-Sound d)
          ∙ ap best_of (sym (find-found d (map (dividers r p1) ps))))

  first_post_div1-find :
      (r : ℕ) (ps : List ℕ)
      → first_post_div1 f32 target_freq r ps (no_best f32)
        ≡ best_of (find is_acceptable (with_post_div1 r ps))
  unfolding first_post_div1
  first_post_div1-find r [] = refl
  first_post_div1-find r (p1 ∷ ps) =
      let ds : List Dividers = map (dividers r p1) (down_from_7 f32) in
      ap (first_post_div1 f32 target_freq r ps) (first_post_div2-find r p1 (down_from_7 f32))
      ∙ (resume (first_post_div1 f32 target_freq r ps) (find is_acceptable (with_post_div1 r ps))
            (first_post_div1-stops r ps) (first_post_div1-find r ps) (find is_acceptable ds)
            (find-Sound ds)
          ∙ ap best_of (sym (find-append is_acceptable ds (with_post_div1 r ps))))

  first_ref_div-find :
      (rs : List ℕ)
      → first_ref_div f32 target_freq rs (no_best f32)
        ≡ best_of (find is_acceptable (all_dividers rs))
  unfolding first_ref_div
  first_ref_div-find [] = refl
  first_ref_div-find (r ∷ rs) =
      let ds : List Dividers = with_post_div1 r (down_from_7 f32) in
      ap (first_ref_div f32 target_freq rs) (first_post_div1-find r (down_from_7 f32))
      ∙ (resume (first_ref_div f32 target_freq rs) (find is_acceptable (all_dividers rs))
            (first_ref_div-stops rs) (first_ref_div-find rs) (find is_acceptable ds) (find-Sound ds)
          ∙ ap best_of (sym (find-append is_acceptable ds (all_dividers rs))))

  -- The configuration of dividers, if there are any.
  abbrev pub config_from : Option Dividers → Option PllConfig
  config_from none = none
  config_from (some d) =
      some (new (fb_of d) d.ref_div (bit_or ((d.post_div1 - 1) * 2 ^ 4) (d.post_div2 - 1)))

  config_of-best_of : (x : Option Dividers) → Sound x → config_of f32 (best_of x) ≡ config_from x
  unfolding config_of
  config_of-best_of none h = refl
  config_of-best_of (some d) h = ground arith

  -- Three nested loops that break find what a search through the list of all dividers finds: the
  -- configuration of the first that are acceptable, in the order of the loops, and none exactly when
  -- none are. The floating-point arithmetic is arbitrary.
  pub calculate_pll_for_frequency-find :
      calculate_pll_for_frequency f32 target_freq
      ≡ config_from (find is_acceptable (all_dividers (2 ∷ 1 ∷ [])))
  unfolding calculate_pll_for_frequency
  calculate_pll_for_frequency-find =
      ap (config_of f32) (first_ref_div-find (2 ∷ 1 ∷ []))
      ∙ config_of-best_of (find is_acceptable (all_dividers (2 ∷ 1 ∷ [])))
          (find-Sound (all_dividers (2 ∷ 1 ∷ [])))
