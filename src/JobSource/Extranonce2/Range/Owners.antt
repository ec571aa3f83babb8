-- ===== src/JobSource/Extranonce2/Range/Owners.antt =====
-- Which of the sub-ranges of `split` hold a value.
use nano_mujina.Prelude.{
  ℕ, ◌+◌, ◌-◌, ◌^◌, ◌≤◌, ◌<◌, ◌≡◌, refl, ◌∙◌, ◌&&◌, some, List, [], ◌∷◌, arith, ltb, leb,
  if◌then◌else◌, ok,
}
use nano_mujina.JobSource.Extranonce2.Value.{max_for_size}
use nano_mujina.JobSource.Extranonce2.Range.{Extranonce2Range, new, len, split}
use nano_mujina.JobSource.Extranonce2.Range.Split.{IsValid, Tiles, split_parts, split-Tiles}

-- How many of the ranges hold `v`.
abbrev pub owners : ℕ → List Extranonce2Range → ℕ
owners v [] = 0
owners v (r ∷ rs) = (if leb r.min v && leb v r.max then 1 else 0) + owners v rs

Tiles-le : (lo hi : ℕ) (rs : List Extranonce2Range) → Tiles lo hi rs → lo ≤ hi
Tiles-le lo hi [] t = omega arith
Tiles-le lo hi (r ∷ rs) (start, v, t) = omega (arith, v.ordered, Tiles-le (r.max + 1) hi rs t)

owners-Tiles :
    (v lo hi : ℕ) (rs : List Extranonce2Range)
    → Tiles lo hi rs
    → owners v rs ≡ (if leb lo v && ltb v hi then 1 else 0)
owners-Tiles v lo hi [] t = ground arith
owners-Tiles v lo hi (r ∷ rs) (start, valid, t) =
    ground (arith, Tiles-le (r.max + 1) hi rs t, valid.ordered, owners-Tiles v (r.max + 1) hi rs t)

-- After a division each value of the range lies in exactly one of the parts, and any other number
-- in none, for a valid range of at least `n` values and fewer than 2 ^ 64.
owners-split :
    (r : Extranonce2Range) (n v : ℕ)
    → IsValid r
    → 1 ≤ n
    → n ≤ r.max + 1 - r.min
    → r.max + 1 - r.min < 2 ^ 64
    → (rs : List Extranonce2Range) × (split r n ≡ ok (some rs))
      × (owners v rs ≡ (if leb r.min v && leb v r.max then 1 else 0))
owners-split r n v valid pos enough small =
    let (rs, made, _, tiles, _) = split-Tiles r n valid pos enough small in
    (rs, made, owners-Tiles v r.min (r.max + 1) rs tiles ∙ ground arith)

-- The range of all u64s, `Extranonce2Range::new(8)`.
abbrev pub full_range : Extranonce2Range
full_range = record { min = 0; max = 2 ^ 64 - 1; size = 8 }

-- Dividing the range that `new(8)` builds into two or more parts, but fewer than 2 ^ 64, leaves its
-- last value to none of them, since the saturated length is one too small.
pub owners-split_full :
    (n : ℕ)
    → 2 ≤ n
    → n < 2 ^ 64
    → (new 8 ≡ ok full_range)
      × ((rs : List Extranonce2Range) × (split full_range n ≡ ok (some rs))
          × (owners (2 ^ 64 - 1) rs ≡ 0))
unfolding new max_for_size
owners-split_full n two small =
    let valid : IsValid full_range = record {
      size_pos = omega arith;
      size_le = omega arith;
      ordered = omega arith;
      fits = omega arith;
    } in
    let total : len full_range ≡ 2 ^ 64 - 1 = unfold len in refl in
    let (rs, made, _, tiles, _) =
      split_parts full_range n valid (omega arith) (ground arith) (omega arith) (omega arith) in
    (
      refl,
      (
        rs,
        made,
        owners-Tiles (2 ^ 64 - 1) 0 (0 + len full_range) rs tiles ∙ rw total (ground arith),
      ),
    )
