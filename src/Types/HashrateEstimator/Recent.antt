-- ===== src/Types/HashrateEstimator/Recent.antt =====
-- The samples of a window, and the order of samples.
use nano_mujina.Prelude.{
  ℕ, ◌≤◌, ◌≡◌, refl, inl, inr, false, List, [], ◌∷◌, ◌++◌, arith, leb, if◌then◌else◌, Bool-cases,
  if-holds, length, All,
}
use nano_mujina.Types.HashrateEstimator.{Sample}

-- The samples from a time on.
unfoldable pub recent : ℕ → List Sample → List Sample
recent limit [] = []
recent limit (s ∷ rest) =
    let later = recent limit rest in if leb limit s.time then s ∷ later else later

-- Samples in the order of their times, none before the first time.
abbrev pub From : ℕ → List Sample → Type 0
From t [] = Unit {0}
From t (s ∷ rest) = (t ≤ s.time) × From s.time rest

pub recent-From :
    (limit t : ℕ) (samples : List Sample)
    → limit ≤ t
    → From t samples
    → recent limit samples ≡ samples
unfolding recent
recent-From limit t [] le h = refl
recent-From limit t (s ∷ rest) le (first, h) =
    ground (arith, recent-From limit s.time rest (omega arith) h)

From-le : (t t' : ℕ) (samples : List Sample) → t ≤ t' → From t' samples → From t samples
From-le t t' [] le h = tt
From-le t t' (s ∷ rest) le (first, h) = (omega arith, h)

pub recent-keeps_From :
    (limit t : ℕ) (samples : List Sample) → From t samples → From t (recent limit samples)
unfolding recent
recent-keeps_From limit t [] h = tt
recent-keeps_From limit t (s ∷ rest) (first, h) =
    let later = recent-keeps_From limit s.time rest h in
    if-holds (From t) (leb limit s.time) _ _ (λ _. (first, later))
      (λ _. From-le t s.time (recent limit rest) first later)

pub recent-append :
    (limit : ℕ) (xs ys : List Sample) → recent limit (xs ++ ys) ≡ recent limit xs ++ recent limit ys
unfolding recent
recent-append limit [] ys = refl
recent-append limit (x ∷ xs) ys = elim (Bool-cases (leb limit x.time)) [
  | inl in_window ↦ rw (in_window, recent-append limit xs ys) refl
  | inr old ↦ rw (old, recent-append limit xs ys) refl
]

pub recent-recent :
    (l m : ℕ) (samples : List Sample) → l ≤ m → recent m (recent l samples) ≡ recent m samples
unfolding recent
recent-recent l m [] le = refl
recent-recent l m (s ∷ rest) le = elim (Bool-cases (leb l s.time)) [
  | inl in_window ↦ rw (in_window, recent-recent l m rest le) refl
  | inr old ↦
      let older : leb m s.time ≡ false = ground arith in
      rw (old, older, recent-recent l m rest le) refl
]

pub length-recent :
    (limit : ℕ) (samples : List Sample) → length (recent limit samples) ≤ length samples
unfolding recent
length-recent limit [] = omega arith
length-recent limit (s ∷ rest) =
    if-holds (λ xs. length xs ≤ length (s ∷ rest)) (leb limit s.time) (s ∷ recent limit rest)
      (recent limit rest) (λ _. omega (arith, length-recent limit rest))
      (λ _. omega (arith, length-recent limit rest))

pub From-append :
    (t at : ℕ) (samples : List Sample) (last : Sample)
    → From t samples
    → All (λ s. s.time ≤ at) samples
    → t ≤ last.time
    → at ≤ last.time
    → From t (samples ++ (last ∷ []))
From-append t at [] last h k le le' = (le, tt)
From-append t at (s ∷ rest) last (first, h) (early, k) le le' =
    (first, From-append s.time at rest last h k (omega arith) le')
