-- ===== src/JobSource/Extranonce2/Range.antt =====
-- extranonce2.rs: the type `Extranonce2Range` and its division into sub-ranges.
pub mod Split
pub mod Owners
use nano_mujina.Prelude.{
  ℕ, zero, suc, ◌+◌, ◌-◌, ◌/◌, ◌%◌, ◌^◌, min, max, Bool, ◌||◌, Option, none, some, List, [], ◌∷◌,
  ltb, ◌==◌, if◌then◌else◌, Outcome, ok, err, ◌>>=◌, expect,
}
use nano_mujina.Prelude.Bytes.{u64, sub_u64}
use nano_mujina.JobSource.Extranonce2.Value.{
  Extranonce2Error, invalid_size, value_too_large, invalid_range, max_for_size,
}

pub record Extranonce2Range : Type 0 where
  pub min : ℕ
  pub max : ℕ
  pub size : ℕ

unfoldable pub new : ℕ → Outcome Extranonce2Error Extranonce2Range
new size =
    if size == 0 || ltb 8 size
    then err (invalid_size size)
    else ok (record { min = 0; max = max_for_size size; size = size })

unfoldable pub new_range : ℕ → ℕ → ℕ → Outcome Extranonce2Error Extranonce2Range
new_range lo hi size =
    if size == 0 || ltb 8 size
    then err (invalid_size size)
    else if ltb hi lo
    then err (invalid_range lo hi)
    else if ltb (max_for_size size) hi
    then err (value_too_large hi size)
    else ok (record { min = lo; max = hi; size = size })

-- `saturating_add(1)` of the u64 difference.
unfoldable pub len : Extranonce2Range → ℕ
len r = min (sub_u64 r.max r.min + 1) (2 ^ 64 - 1)

pub is_empty : Extranonce2Range → Bool
is_empty r = ltb r.max r.min

-- The `for i in 0..n` loop of `split`, `todo` rounds before its end.
unfoldable pub split_loop : ℕ → ℕ → ℕ → ℕ → ℕ → ℕ → Outcome ⊥ (List Extranonce2Range)
unfolding new_range
split_loop zero i start chunk_size remainder size = ok []
split_loop (suc todo) i start chunk_size remainder size =
    let chunk : ℕ = chunk_size + (if ltb i remainder then 1 else 0) in
    let end : ℕ = sub_u64 (u64 (start + chunk)) 1 in
    expect (new_range start end size) >>= λ r.
    split_loop todo (i + 1) (u64 (end + 1)) chunk_size remainder size >>= λ rest. ok (r ∷ rest)

unfoldable pub split : Extranonce2Range → ℕ → Outcome ⊥ (Option (List Extranonce2Range))
split r n =
    if n == 0
    then ok none
    else if n == 1
    then ok (some (r ∷ []))
    else if ltb (len r) n
    then ok none
    else split_loop n 0 r.min (len r / n) (len r % n) r.size >>= λ rs. ok (some rs)
