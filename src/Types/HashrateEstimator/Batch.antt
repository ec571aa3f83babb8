-- ===== src/Types/HashrateEstimator/Batch.antt =====
-- The estimate as a function of all shares recorded so far.
use nano_mujina.Prelude.{
  ℕ, ◌+◌, ◌-◌, ◌/◌, ◌%◌, ◌^◌, ◌≤◌, min, ◌≡◌, List, [], ◌∷◌, ◌==◌, if◌then◌else◌, length, All,
}
use nano_mujina.Types.HashrateEstimator.{as_secs, Sample, HashrateEstimator}
use nano_mujina.Types.HashrateEstimator.Recent.{recent, From}
use nano_mujina.Types.HashrateEstimator.Window.{work_of, Call, recorded, queried}

-- The shares that calls record.
unfoldable pub shares : List Call → List Sample
shares [] = []
shares (recorded at work ∷ rest) = record { time = at; work = work } ∷ shares rest
shares (queried at ∷ rest) = shares rest

-- The times of calls are in order, from one time to another.
unfoldable pub InOrder : ℕ → List Call → ℕ → Type 0
InOrder at [] now = at ≤ now
InOrder at (recorded t work ∷ rest) now = (at ≤ t) × InOrder t rest now
InOrder at (queried t ∷ rest) now = (at ≤ t) × InOrder t rest now

-- The rate of shares at a time: their work over the whole seconds since the first of them.
unfoldable pub batch_rate : List Sample → ℕ → ℕ
batch_rate [] now = 0
batch_rate (oldest ∷ rest) now =
    let secs : ℕ = as_secs (now - oldest.time) in
    if secs == 0 then 0 else min (work_of (oldest ∷ rest) % 2 ^ 256 / secs) (2 ^ 64 - 1)

-- The state after calls that have recorded `all` shares in order, none after the time `at`: the
-- samples are those of a window that started at `limit` or later.
pub record Holds (all : List Sample) (limit at : ℕ) (e : HashrateEstimator) : Type 0 where
  pub samples : e.samples ≡ recent limit all
  pub order : From 0 all
  pub past : All (λ s. s.time ≤ at) all
  pub opened : limit + e.window ≤ at
  pub room : length all ≤ e.max_samples
