-- ===== src/JobSource/Extranonce2/Iter/Drain.antt =====
-- Running the iterator of a range to its end.
use nano_mujina.Prelude.{
  ℕ, zero, suc, ◌+◌, ◌-◌, ◌^◌, ◌≤◌, ◌<◌, ◌≡◌, refl, ap, true, false, ◌||◌, none, some, List, [],
  ◌∷◌, arith, ltb, ◌==◌, length,
}
use nano_mujina.Prelude.Bytes.{u64}
use nano_mujina.JobSource.Extranonce2.Value.{Extranonce2, new, max_for_size}
use nano_mujina.JobSource.Extranonce2.Range.{Extranonce2Range}
use nano_mujina.JobSource.Extranonce2.Range.Split.{IsValid}
use nano_mujina.JobSource.Extranonce2.Range.Owners.{full_range}
use nano_mujina.JobSource.Extranonce2.Iter.{Extranonce2Iter, iter, next, size_hint}

-- The values that `fuel` calls of `next` yield, up to the first `None`.
pub drain : ℕ → Extranonce2Iter → List Extranonce2
drain zero it = []
drain (suc fuel) it = let (v, it') = next it in elim v [ none ↦ [] | some x ↦ x ∷ drain fuel it' ]

-- The values `lo`, `lo + 1`, …, `n` of them.
abbrev pub values_from : ℕ → ℕ → ℕ → List Extranonce2
values_from lo zero size = []
values_from lo (suc n) size = record { value = lo; size = size } ∷ values_from (lo + 1) n size

abbrev at : Extranonce2Range → ℕ → Extranonce2Iter
at r c = record { range = r; current = c }

next-some :
    (r : Extranonce2Range) (c : ℕ)
    → IsValid r
    → c ≤ r.max
    → next (at r c) ≡ (some (record { value = c; size = r.size }), at r (u64 (c + 1)))
unfolding next new
next-some r c v h =
    let open_size : (r.size == 0 || ltb 8 r.size) ≡ false = ground (arith, v.size_pos, v.size_le) in
    let small : ltb (max_for_size r.size) c ≡ false = ground (arith, v.fits) in
    let inside : ltb r.max c ≡ false = ground arith in rw (inside, open_size, small)

next-none : (r : Extranonce2Range) (c : ℕ) → r.max < c → next (at r c) ≡ (none, at r c)
unfolding next
next-none r c h = let past : ltb r.max c ≡ true = ground arith in rw past

drain_some :
    (fuel c : ℕ) (r : Extranonce2Range)
    → IsValid r
    → c ≤ r.max
    → drain (suc fuel) (at r c)
      ≡ record { value = c; size = r.size } ∷ drain fuel (at r (u64 (c + 1)))
unfolding drain
drain_some fuel c r v h = rw (next-some r c v h, drain) (rw (next-some r c v h))

drain-values_from :
    (fuel n c : ℕ) (r : Extranonce2Range)
    → IsValid r
    → r.max < 2 ^ 64 - 1
    → c + n ≡ r.max + 1
    → n < fuel
    → drain fuel (at r c) ≡ values_from c n r.size
drain-values_from zero n c r v small h f = absurd (omega arith)
drain-values_from (suc fuel) zero c r v small h f =
    unfold drain in rw (next-none r c (omega arith), drain)
drain-values_from (suc fuel) (suc n) c r v small h f =
    let step : u64 (c + 1) ≡ c + 1 = omega arith in
    rw (drain_some fuel c r v (omega arith), step)
      (ap (◌∷◌ (record { value = c; size = r.size }))
        (drain-values_from fuel n (c + 1) r v small (omega arith) (omega arith)))

-- The iterator of a valid range whose maximum is below 2 ^ 64 - 1 yields each value of the range
-- once, in ascending order, and then ends; and `size_hint` at its start is their number.
pub drain-iter :
    (r : Extranonce2Range) (fuel : ℕ)
    → IsValid r
    → r.max < 2 ^ 64 - 1
    → r.max + 1 - r.min < fuel
    → (drain fuel (iter r) ≡ values_from r.min (r.max + 1 - r.min) r.size)
      × (size_hint (iter r) ≡ r.max + 1 - r.min)
unfolding iter size_hint
drain-iter r fuel v small enough = (
  drain-values_from fuel (r.max + 1 - r.min) r.min r v small (omega (arith, v.ordered)) enough,
  ground (arith, v.ordered),
)

full-IsValid : IsValid full_range
unfolding max_for_size
full-IsValid = record {
  size_pos = omega arith;
  size_le = omega arith;
  ordered = omega arith;
  fits = omega arith;
}

endless : (k c : ℕ) → c < 2 ^ 64 → length (drain k (at full_range c)) ≡ k
unfolding drain
endless zero c h = refl
endless (suc k) c h =
    rw (drain_some k c full_range full-IsValid (omega arith))
      (ap suc (endless k (u64 (c + 1)) (omega arith)))

-- The iterator of the range of all u64s never ends: any number of calls of `next` all yield a
-- value, since the position wraps to 0 behind the last one.
pub drain-iter_full : (k : ℕ) → length (drain k (iter full_range)) ≡ k
unfolding iter
drain-iter_full k = endless k 0 (omega arith)
