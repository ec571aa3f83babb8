-- ===== src/Types/HashrateEstimator.antt =====
-- mujina-miner/src/types/hashrate_estimator.rs: the hashrate over a sliding window of shares. A
-- Duration is its nanoseconds, and an Instant is the nanoseconds since the least instant that the
-- clock represents, so that `checked_sub` fails exactly below that. The 256-bit integers of the crate
-- ruint, which u256.rs wraps, are a parameter.
pub mod Window
pub mod Recent
pub mod Batch
mod Tests
use nano_mujina.Prelude.{
  ℕ, ◌+◌, ◌-◌, ◌*◌, ◌/◌, ◌%◌, ◌^◌, ◌≤◌, ◌<◌, min, ◌≡◌, Bool, not, Option, none, some, List, [], ◌∷◌,
  ◌++◌, ltb, leb, ◌==◌, if◌then◌else◌, length,
}
use nano_mujina.Prelude.Bytes.{u64}

-- The operations of u256.rs that the estimator uses, as ruint gives them: `+=`, `-=`, division by a
-- u64, and `saturating_to`.
pub record Ruint : Type 0 where
  pub add : ℕ → ℕ → ℕ
  pub sub : ℕ → ℕ → ℕ
  pub div : ℕ → ℕ → ℕ
  pub saturating_to_u64 : ℕ → ℕ

abbrev pub IsU256 : ℕ → Type 0
IsU256 v = v < 2 ^ 256

-- What ruint documents: sums and differences wrap around, and division by a number other than zero
-- rounds down.
pub record IsRuint (u : Ruint) : Type 0 where
  pub add_lem : (a b : ℕ) → u.add a b ≡ (a + b) % 2 ^ 256
  pub sub_lem : (a b : ℕ) → b ≤ 2 ^ 256 → u.sub a b ≡ (a + 2 ^ 256 - b) % 2 ^ 256
  pub div_lem : (a b : ℕ) → 1 ≤ b → u.div a b ≡ a / b
  pub saturating_lem : (a : ℕ) → u.saturating_to_u64 a ≡ min a (2 ^ 64 - 1)

-- `Duration::as_secs`.
abbrev pub as_secs : ℕ → ℕ
as_secs d = d / 1000000000

-- `at.checked_sub(self.window).unwrap_or(at)`.
abbrev pub cutoff : ℕ → ℕ → ℕ
cutoff at window = if leb window at then at - window else at

pub record Sample : Type 0 where
  pub time : ℕ
  pub work : ℕ

pub record HashrateEstimator : Type 0 where
  pub window : ℕ
  pub min_samples : ℕ
  pub max_samples : ℕ
  pub samples : List Sample
  pub total_work : ℕ

unfoldable pub with_limits : ℕ → ℕ → ℕ → HashrateEstimator
with_limits window min_samples max_samples = record {
  window = window;
  min_samples = min_samples;
  max_samples = max_samples;
  samples = [];
  total_work = 0;
}

unfoldable pub new : ℕ → HashrateEstimator
new window = with_limits window 5 (u64 (as_secs window * 10))

module _ (u : Ruint) where
  -- The loop of `prune_before`, on the samples and the total.
  unfoldable pub prune_loop : ℕ → List Sample → ℕ → List Sample × ℕ
  prune_loop limit [] total = ([], total)
  prune_loop limit (s ∷ rest) total =
      let pruned = prune_loop limit rest (u.sub total s.work) in
      if leb limit s.time then (s ∷ rest, total) else pruned

  unfoldable pub prune_before : HashrateEstimator → ℕ → HashrateEstimator
  prune_before e limit =
      let (samples, total_work) = prune_loop limit e.samples e.total_work in
      record e { samples = samples; total_work = total_work }

  -- The loop of `record_at` that enforces the capacity.
  unfoldable pub capacity_loop : ℕ → List Sample → ℕ → List Sample × ℕ
  capacity_loop max_samples [] total = ([], total)
  capacity_loop max_samples (s ∷ rest) total =
      let popped = capacity_loop max_samples rest (u.sub total s.work) in
      if ltb max_samples (length (s ∷ rest)) then popped else (s ∷ rest, total)

  unfoldable pub record_at : HashrateEstimator → ℕ → ℕ → HashrateEstimator
  record_at e at work =
      let pruned : HashrateEstimator = prune_before e (cutoff at e.window) in
      let (samples, total_work) =
        capacity_loop e.max_samples (pruned.samples ++ (record { time = at; work = work } ∷ []))
          (u.add pruned.total_work work) in
      record e { samples = samples; total_work = total_work }

  -- The rate of the samples and the total that pruning leaves.
  unfoldable pub rate_of : List Sample → ℕ → ℕ → ℕ
  rate_of [] total now = 0
  rate_of (oldest ∷ rest) total now =
      let secs : ℕ = as_secs (now - oldest.time) in
      if secs == 0 then 0 else u.saturating_to_u64 (u.div total secs)

  unfoldable pub hashrate_at : HashrateEstimator → ℕ → ℕ × HashrateEstimator
  hashrate_at e now =
      let pruned : HashrateEstimator = prune_before e (cutoff now e.window) in
      (rate_of pruned.samples pruned.total_work now, pruned)

  unfoldable pub has_samples : HashrateEstimator → Bool
  has_samples e = not (length e.samples == 0)

  unfoldable pub is_settled : HashrateEstimator → Bool
  is_settled e = leb e.min_samples (length e.samples)

  unfoldable pub settled_hashrate_at : HashrateEstimator → ℕ → Option ℕ × HashrateEstimator
  settled_hashrate_at e now =
      let (rate, after) = hashrate_at e now in
      if is_settled e then (some rate, after) else (none, e)
