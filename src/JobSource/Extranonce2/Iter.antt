-- ===== src/JobSource/Extranonce2/Iter.antt =====
-- extranonce2.rs: the iterator over a range.
pub mod Drain
use nano_mujina.Prelude.{
  ℕ, ◌+◌, ◌-◌, ◌^◌, min, max, Option, none, some, ltb, if◌then◌else◌, Outcome, ok, err, panic,
  expect,
}
use nano_mujina.Prelude.Bytes.{u64, sub_u64}
use nano_mujina.JobSource.Extranonce2.Value.{Extranonce2, new, max_for_size}
use nano_mujina.JobSource.Extranonce2.Range.{Extranonce2Range}

pub record Extranonce2Iter : Type 0 where
  pub range : Extranonce2Range
  pub current : ℕ

unfoldable pub iter : Extranonce2Range → Extranonce2Iter
iter r = record { range = r; current = r.min }

unfoldable pub current : Extranonce2Iter → Outcome ⊥ Extranonce2
unfolding new
current it = expect (new it.current it.range.size)

unfoldable pub reset : Extranonce2Iter → Extranonce2Iter
reset it = record it { current = it.range.min }

-- `Extranonce2::new(…).ok()?` returns early, with the position unchanged.
unfoldable pub next : Extranonce2Iter → Option Extranonce2 × Extranonce2Iter
unfolding new
next it = if ltb it.range.max it.current then (none, it) else elim (new it.current it.range.size) [
  | ok val ↦ (some val, record it { current = u64 (it.current + 1) })
  | err e ↦ (none, it)
  | panic ↦ (none, it)
]

-- The lower bound; the upper bound is `Some` of the same number.
unfoldable pub size_hint : Extranonce2Iter → ℕ
size_hint it =
    if ltb it.range.max it.current
    then 0
    else min (u64 (sub_u64 it.range.max it.current + 1)) (2 ^ 64 - 1)
