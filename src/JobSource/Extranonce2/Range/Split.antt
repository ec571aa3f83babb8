-- ===== src/JobSource/Extranonce2/Range/Split.antt =====
-- Dividing a range: the sub-ranges of `split` are its parts, side by side.
use nano_mujina.Prelude.{
  ℕ, zero, suc, ◌+◌, ◌-◌, ◌*◌, ◌/◌, ◌%◌, ◌^◌, ◌≤◌, ◌<◌, ◌≡◌, refl, ap, inl, inr, false, some, List,
  [], ◌∷◌, arith, ltb, leb, ◌==◌, if◌then◌else◌, ==_iff, Bool-cases, ok, ◌>>=◌, length, All,
}
use nano_mujina.Prelude.Bytes.{u64, sub_u64}
use mathlib.Core.Path.{subst}
use native.Mathlib.Nat.{pow-le-pow_right, div-add-mod, mod-lt}
use nano_mujina.JobSource.Extranonce2.Value.{max_for_size}
use nano_mujina.JobSource.Extranonce2.Range.{Extranonce2Range, new_range, len, split_loop, split}

-- What `new` and `new_range` build.
pub record IsValid (r : Extranonce2Range) : Type 0 where
  pub size_pos : 1 ≤ r.size
  pub size_le : r.size ≤ 8
  pub ordered : r.min ≤ r.max
  pub fits : r.max ≤ max_for_size r.size

-- The ranges stand side by side and cover exactly the values from `lo` up to, and without, `hi`.
abbrev pub Tiles : ℕ → ℕ → List Extranonce2Range → Type 0
Tiles lo hi [] = lo ≡ hi
Tiles lo hi (r ∷ rs) = (r.min ≡ lo) × IsValid r × Tiles (r.max + 1) hi rs

pub max_for_size-lt : (size : ℕ) → max_for_size size < 2 ^ 64
unfolding max_for_size
max_for_size-lt size = elim (Bool-cases (leb 8 size)) [
  | inl big ↦ rw big (omega arith)
  | inr small ↦
      rw small (
        omega
          (arith, pow-le-pow_right {n = 2} (omega arith) {i = size * 8} {j = 56} (ground arith)))
]

new_range_lem :
    (lo hi size : ℕ)
    → 1 ≤ size
    → size ≤ 8
    → lo ≤ hi
    → hi ≤ max_for_size size
    → new_range lo hi size ≡ ok (record { min = lo; max = hi; size = size })
unfolding new_range
new_range_lem lo hi size a b c d = ground arith

-- The extra value that the first `m` sub-ranges get.
abbrev bonus : ℕ → ℕ → ℕ
bonus i m = if ltb i m then 1 else 0

abbrev part : ℕ → ℕ → ℕ → Extranonce2Range
part s k size = record { min = s; max = s + k - 1; size = size }

split_loop_step :
    (todo i s c m size : ℕ)
    → 1 ≤ c
    → 1 ≤ size
    → size ≤ 8
    → s + (c + bonus i m) ≤ max_for_size size + 1
    → split_loop (suc todo) i (u64 s) c m size ≡ (
        split_loop todo (i + 1) (u64 (s + (c + bonus i m))) c m size >>= λ rest.
        ok (part s (c + bonus i m) size ∷ rest))
unfolding split_loop
split_loop_step todo i s c m size hc lo hi fit =
    let k : ℕ = c + bonus i m in
    let start : u64 s ≡ s = omega (arith, max_for_size-lt size) in
    let end : sub_u64 (u64 (s + k)) 1 ≡ s + k - 1 = omega (arith, max_for_size-lt size) in
    let back : s + k - 1 + 1 ≡ s + k = omega arith in
    let made : new_range s (s + k - 1) size ≡ ok (part s k size) =
      new_range_lem s (s + k - 1) size lo hi (omega arith) (omega arith) in
    rw (start, end, back, made)

share_step :
    (todo i s c m : ℕ)
    → m ≤ i + suc todo
    → s + (suc todo * c + (m - i)) ≡ s + (c + bonus i m) + (todo * c + (m - (i + 1)))
share_step todo i s c m h = ground arith

-- The loop, from a start that need not be a u64 when no round is left.
split_loop-Tiles :
    (todo i s c m size : ℕ)
    → 1 ≤ c
    → 1 ≤ size
    → size ≤ 8
    → m ≤ i + todo
    → s + (todo * c + (m - i)) ≤ max_for_size size + 1
    → (rs : List Extranonce2Range) × (split_loop todo i (u64 s) c m size ≡ ok rs)
      × (length rs ≡ todo)
      × Tiles s (s + (todo * c + (m - i))) rs
      × All (λ r. (c ≤ r.max + 1 - r.min) × (r.max + 1 - r.min ≤ c + 1)) rs
unfolding split_loop
split_loop-Tiles zero i s c m size hc lo hi hm fit = ([], refl, refl, omega arith, tt)
split_loop-Tiles (suc todo) i s c m size hc lo hi hm fit =
    let k : ℕ = c + bonus i m in
    let back : s + k - 1 + 1 ≡ s + k = omega arith in
    let valid : IsValid (part s k size) = record {
      size_pos = lo;
      size_le = hi;
      ordered = omega arith;
      fits = ground arith;
    } in
    let (rs, made, count, tiles, sizes) =
      split_loop-Tiles todo (i + 1) (s + k) c m size hc lo hi (ground arith) (ground arith) in
    (
      part s k size ∷ rs,
      rw (split_loop_step todo i s c m size hc lo hi (ground arith), made),
      ap suc count,
      (refl, valid, rw (back, share_step todo i s c m hm) tiles),
      ((ground arith, ground arith), sizes),
    )

pub len_lem :
    (r : Extranonce2Range) → IsValid r → r.max + 1 - r.min < 2 ^ 64 → len r ≡ r.max + 1 - r.min
unfolding len
len_lem r v small = omega (arith, max_for_size-lt r.size)

share_total :
    (n t : ℕ) → 1 ≤ n → n ≤ t → (1 ≤ t / n) × (t % n ≤ 0 + n) × (n * (t / n) + (t % n - 0) ≡ t)
share_total n t pos enough =
    let whole : n * (t / n) + t % n ≡ t = div-add-mod t n in
    let rest : t % n < n = mod-lt t pos in (grind arith, omega arith, omega arith)

split_many :
    (r : Extranonce2Range) (n : ℕ) (rs : List Extranonce2Range)
    → 1 ≤ n
    → (n == 1) ≡ false
    → n ≤ len r
    → split_loop n 0 (u64 r.min) (len r / n) (len r % n) r.size ≡ ok rs
    → u64 r.min ≡ r.min
    → split r n ≡ ok (some rs)
unfolding split
split_many r n rs pos more enough made small =
    let made' : split_loop n 0 r.min (len r / n) (len r % n) r.size ≡ ok rs = rw small at made in
    let some_parts : (n == 0) ≡ false = ground arith in
    let fits : ltb (len r) n ≡ false = ground arith in rw (some_parts, more, fits, made')

-- The parts cover the first `len r` values, which is one too few for the range of all u64s.
pub split_parts :
    (r : Extranonce2Range) (n : ℕ)
    → IsValid r
    → 1 ≤ n
    → (n == 1) ≡ false
    → n ≤ len r
    → len r ≤ r.max + 1 - r.min
    → (rs : List Extranonce2Range) × (split r n ≡ ok (some rs))
      × (length rs ≡ n)
      × Tiles r.min (r.min + len r) rs
      × All (λ p. (len r / n ≤ p.max + 1 - p.min) × (p.max + 1 - p.min ≤ len r / n + 1)) rs
split_parts r n v pos more enough within =
    let (some_each, rest_small, total) = share_total n (len r) pos enough in
    let (rs, made, count, tiles, sizes) =
      split_loop-Tiles n 0 r.min (len r / n) (len r % n) r.size some_each v.size_pos v.size_le
        rest_small (omega (arith, v.fits, v.ordered)) in
    (
      rs,
      split_many r n rs pos more enough made (omega (arith, max_for_size-lt r.size)),
      count,
      subst (λ e. Tiles r.min e rs) (omega (arith, total)) tiles,
      sizes,
    )

-- Dividing a valid range into `n` parts succeeds whenever the range holds at least `n` values and
-- fewer than 2 ^ 64: the parts are `n` valid ranges that stand side by side, cover exactly the
-- range, and hold `len / n` values each or one more.
pub split-Tiles :
    (r : Extranonce2Range) (n : ℕ)
    → IsValid r
    → 1 ≤ n
    → n ≤ r.max + 1 - r.min
    → r.max + 1 - r.min < 2 ^ 64
    → (rs : List Extranonce2Range) × (split r n ≡ ok (some rs))
      × (length rs ≡ n)
      × Tiles r.min (r.max + 1) rs
      × All (λ p. (len r / n ≤ p.max + 1 - p.min) × (p.max + 1 - p.min ≤ len r / n + 1)) rs
split-Tiles r n v pos enough small = elim (Bool-cases (n == 1)) [
  | inl one ↦
      let same : n ≡ 1 = (==_iff n 1).0 one in
      (
        r ∷ [],
        unfold split in ground arith,
        ground arith,
        (refl, v, refl),
        ((ground (arith, len_lem r v small), ground (arith, len_lem r v small)), tt),
      )
  | inr more ↦
      let t : len r ≡ r.max + 1 - r.min = len_lem r v small in
      let (rs, made, count, tiles, sizes) =
        split_parts r n v pos more (omega arith) (omega arith) in
      (rs, made, count, subst (λ e. Tiles r.min e rs) (omega (arith, t, v.ordered)) tiles, sizes)
]
