-- ===== src/Types/HashrateEstimator/Window.antt =====
-- What the estimator holds and what it reports.
use nano_mujina.Prelude.{
  ℕ, ◌+◌, ◌%◌, ◌^◌, ◌≤◌, ◌≡◌, List, [], ◌∷◌, ◌++◌, arith, ltb, leb, ltb-false→le, if-holds, length,
  All, All-append,
}
use nano_mujina.Types.HashrateEstimator.{
  Ruint, IsU256, IsRuint, cutoff, Sample, HashrateEstimator, with_limits, prune_loop, prune_before,
  capacity_loop, record_at, hashrate_at,
}

-- The work of samples, without wrap-around.
abbrev pub work_of : List Sample → ℕ
work_of [] = 0
work_of (s ∷ rest) = s.work + work_of rest

abbrev pub IsWork : Sample → Type 0
IsWork s = IsU256 s.work

-- The total is that of the samples, which are no more than the capacity.
pub record IsSound (e : HashrateEstimator) : Type 0 where
  pub total : e.total_work ≡ work_of e.samples % 2 ^ 256
  pub works : All IsWork e.samples
  pub capacity : length e.samples ≤ e.max_samples

-- A share recorded at a time, or a query of the rate.
pub data Call : Type 0 where
  recorded : ℕ → ℕ → Call
  queried : ℕ → Call

abbrev pub IsCall : Call → Type 0
IsCall (recorded at work) = IsU256 work
IsCall (queried now) = Unit {0}

module _ (u : Ruint) where
  unfoldable pub run : HashrateEstimator → List Call → HashrateEstimator
  run e [] = e
  run e (recorded at work ∷ rest) = run (record_at u e at work) rest
  run e (queried now ∷ rest) = run (hashrate_at u e now).1 rest

module _ (u : Ruint) (law : IsRuint u) where
  sub_first :
      (w rest total : ℕ) → IsU256 w → total ≡ (w + rest) % 2 ^ 256 → u.sub total w ≡ rest % 2 ^ 256
  sub_first w rest total h e = omega (arith, law.sub_lem total w (omega arith))

  -- Samples and their total, at most `n`.
  abbrev Kept : ℕ → List Sample × ℕ → Type 0
  Kept n p = (p.1 ≡ work_of p.0 % 2 ^ 256) × All IsWork p.0 × (length p.0 ≤ n)

  Kept-le : (m n : ℕ) (p : List Sample × ℕ) → m ≤ n → Kept m p → Kept n p
  Kept-le m n p le (total, works, few) = (total, works, omega arith)

  prune_loop-Kept :
      (limit n : ℕ) (samples : List Sample) (total : ℕ)
      → Kept n (samples, total)
      → Kept n (prune_loop u limit samples total)
  unfolding prune_loop
  prune_loop-Kept limit n [] total k = k
  prune_loop-Kept limit n (s ∷ rest) total (e, (small, h), few) =
      if-holds (Kept n) (leb limit s.time) _ _ (λ _. (e, (small, h), few))
        (λ _.
          prune_loop-Kept limit n rest (u.sub total s.work)
            (sub_first s.work (work_of rest) total small e, h, omega arith))

  capacity_loop-Kept :
      (max_samples n : ℕ) (samples : List Sample) (total : ℕ)
      → Kept n (samples, total)
      → Kept max_samples (capacity_loop u max_samples samples total)
  unfolding capacity_loop
  capacity_loop-Kept max_samples n [] total (e, h, few) = (e, h, omega arith)
  capacity_loop-Kept max_samples n (s ∷ rest) total (e, (small, h), few) =
      if-holds (Kept max_samples) (ltb max_samples (length (s ∷ rest))) _ _
        (λ _.
          capacity_loop-Kept max_samples n rest (u.sub total s.work)
            (sub_first s.work (work_of rest) total small e, h, omega arith))
        (λ fits. (e, (small, h), ltb-false→le max_samples (length (s ∷ rest)) fits))

  work_of-append : (xs ys : List Sample) → work_of (xs ++ ys) ≡ work_of xs + work_of ys
  work_of-append [] ys = omega arith
  work_of-append (x ∷ xs) ys = omega (arith, work_of-append xs ys)

  record_at-IsSound :
      (e : HashrateEstimator) (at work : ℕ)
      → IsSound e
      → IsU256 work
      → IsSound (record_at u e at work)
  unfolding record_at prune_before
  record_at-IsSound e at work sound small =
      let pruned : List Sample × ℕ = prune_loop u (cutoff at e.window) e.samples e.total_work in
      let (total, works, few) =
        prune_loop-Kept (cutoff at e.window) (length e.samples) e.samples e.total_work
          (sound.total, sound.works, omega arith) in
      let added : List Sample = record { time = at; work = work } ∷ [] in
      let (total', works', few') =
        capacity_loop-Kept e.max_samples (length (pruned.0 ++ added)) (pruned.0 ++ added)
          (u.add pruned.1 work)
          (
            omega (arith, law.add_lem pruned.1 work, work_of-append pruned.0 added, total),
            All-append IsWork pruned.0 added works (small, tt),
            omega arith,
          ) in
      record { total = total'; works = works'; capacity = few' }

  pub hashrate_at-IsSound :
      (e : HashrateEstimator) (now : ℕ) → IsSound e → IsSound (hashrate_at u e now).1
  unfolding hashrate_at prune_before
  hashrate_at-IsSound e now sound =
      let (total, works, few) =
        prune_loop-Kept (cutoff now e.window) e.max_samples e.samples e.total_work
          (sound.total, sound.works, sound.capacity) in
      record { total = total; works = works; capacity = few }

  run-preserves :
      (e : HashrateEstimator) (calls : List Call)
      → All IsCall calls
      → IsSound e
      → IsSound (run u e calls)
  unfolding run
  run-preserves e [] h sound = sound
  run-preserves e (recorded at work ∷ rest) (small, h) sound =
      run-preserves (record_at u e at work) rest h (record_at-IsSound e at work sound small)
  run-preserves e (queried now ∷ rest) (_, h) sound =
      run-preserves (hashrate_at u e now).1 rest h (hashrate_at-IsSound e now sound)

  -- Over any calls at any times, starting from a new estimator, the total is the work of the samples
  -- that it holds, modulo 2 ^ 256, and the samples are never more than the capacity.
  pub run-IsSound :
      (window min_samples max_samples : ℕ) (calls : List Call)
      → All IsCall calls
      → IsSound (run u (with_limits window min_samples max_samples) calls)
  unfolding with_limits
  run-IsSound window min_samples max_samples calls h =
      run-preserves (with_limits window min_samples max_samples) calls h
        (record { total = omega arith; works = tt; capacity = omega arith })
