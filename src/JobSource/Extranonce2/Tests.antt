-- ===== src/JobSource/Extranonce2/Tests.antt =====
-- Runs of the source's own tests on extranonce2.rs, and the theorems at concrete inputs.
use nano_mujina.Prelude.{
  ◌+◌, ◌-◌, ◌/◌, ◌^◌, ◌≤◌, ◌≡◌, refl, some, List, [], ◌∷◌, arith, ok, err, length, All,
}
use nano_mujina.JobSource.Extranonce2.Value.{new, max_for_size, value_too_large}
use nano_mujina.JobSource.Extranonce2.Range
use nano_mujina.JobSource.Extranonce2.Range.{Extranonce2Range, len, split, split_loop, new_range}
use nano_mujina.JobSource.Extranonce2.Range.Split.{IsValid, Tiles, split-Tiles}
use nano_mujina.JobSource.Extranonce2.Range.Owners.{owners, full_range, owners-split_full}
use nano_mujina.JobSource.Extranonce2.Iter.{iter, size_hint}
use nano_mujina.JobSource.Extranonce2.Iter.Drain.{drain, values_from, drain-iter}

new_too_large : new 256 1 ≡ err (value_too_large 256 1)
unfolding new max_for_size
new_too_large = refl

abbrev two_bytes : Extranonce2Range
two_bytes = record { min = 0; max = 9; size = 2 }

two_bytes-IsValid : IsValid two_bytes
unfolding max_for_size
two_bytes-IsValid = record {
  size_pos = omega arith;
  size_le = omega arith;
  ordered = omega arith;
  fits = omega arith;
}

split_three :
    split two_bytes 3
    ≡ ok (
        some (
          record { min = 0; max = 3; size = 2 }
          ∷ record { min = 4; max = 6; size = 2 }
          ∷ record { min = 7; max = 9; size = 2 }
          ∷ []))
unfolding split len split_loop new_range max_for_size
split_three = refl

split-Tiles_example :
    (rs : List Extranonce2Range) × (split two_bytes 3 ≡ ok (some rs))
    × (length rs ≡ 3)
    × Tiles 0 10 rs
    × All
        (λ p. (len two_bytes / 3 ≤ p.max + 1 - p.min) × (p.max + 1 - p.min ≤ len two_bytes / 3 + 1))
        rs
split-Tiles_example =
    split-Tiles two_bytes 3 two_bytes-IsValid (omega arith) (omega arith) (omega arith)

owners-split_full_example :
    (Range.new 8 ≡ ok full_range)
    × ((rs : List Extranonce2Range) × (split full_range 3 ≡ ok (some rs))
        × (owners (2 ^ 64 - 1) rs ≡ 0))
owners-split_full_example = owners-split_full 3 (omega arith) (omega arith)

drain-iter_example :
    (drain 20 (iter two_bytes) ≡ values_from 0 10 2) × (size_hint (iter two_bytes) ≡ 10)
drain-iter_example = drain-iter two_bytes 20 two_bytes-IsValid (omega arith) (omega arith)
