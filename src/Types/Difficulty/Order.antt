-- ===== src/Types/Difficulty/Order.antt =====
-- difficulty.rs: which hashes meet a difficulty, and the order of difficulties.
use nano_mujina.Prelude.{ℕ, ◌*◌, ◌/◌, ◌≤◌, ◌≡◌, ◌≢◌, ◌↔◌, ◌==◌, if◌then◌else◌, arith, subst}
use nano_mujina.Prelude.Bytes.{from_le_list}
use native.Mathlib.Nat.{div-mul-le_self, mul-le-mul_left, le-div_iff_mul-le}
use Prim.Native.Nat.{Ordering}
use nano_mujina.Asic.Bm13xx.Hash.{Hash, hash_to_list}
use nano_mujina.Types.Bitcoin.{Bitcoin}
use nano_mujina.Types.HashrateEstimator.{Ruint, IsRuint}
use nano_mujina.Types.Difficulty.{Difficulty, max_difficulty, to_target, from_hash, cmp, from_u64}

-- The number that a hash stands for, its first byte the lowest.
abbrev pub hash_number : Hash → ℕ
hash_number hash = from_le_list (hash_to_list hash)

from_hash-target : (hash : Hash) → to_target (from_hash hash) ≡ hash_number hash
unfolding from_hash to_target max_difficulty
from_hash-target hash = number (hash_number hash)
  where
    number : (n : ℕ) → to_target (if n == 0 then max_difficulty else record { target = n }) ≡ n
    number n = ground arith

cmp-target : (c d : Difficulty) → (cmp c d ≢ Ordering.lt) ↔ (to_target c ≤ to_target d)
unfolding cmp to_target
cmp-target c d = ground arith

-- The hash of a share meets the target of a difficulty, as the number below it or equal, exactly when
-- the difficulty of the hash is not less than that difficulty; the hash of zeros meets every one.
from_hash-met :
    (hash : Hash) (d : Difficulty)
    → (cmp (from_hash hash) d ≢ Ordering.lt) ↔ (hash_number hash ≤ to_target d)
from_hash-met hash d =
    subst (λ n. (cmp (from_hash hash) d ≢ Ordering.lt) ↔ (n ≤ to_target d)) (from_hash-target hash)
      (cmp-target (from_hash hash) d)

from_u64-target :
    (bitcoin : Bitcoin) (ruint : Ruint) (a : ℕ)
    → 1 ≤ a
    → to_target (from_u64 bitcoin ruint a) ≡ ruint.div bitcoin.max_target a
unfolding from_u64 to_target
from_u64-target bitcoin ruint a lo = ground arith

div_antitone : (m a b : ℕ) → 1 ≤ a → a ≤ b → m / b ≤ m / a
div_antitone m a b lo h =
    let below : m / b * b ≤ m = div-mul-le_self m b in
    let less : m / b * a ≤ m / b * b = mul-le-mul_left (m / b) h in
    (le-div_iff_mul-le lo).1 (omega arith)

-- A greater whole number is a difficulty that is at least as great.
pub from_u64_monotone :
    (bitcoin : Bitcoin) (ruint : Ruint) (a b : ℕ)
    → IsRuint ruint
    → 1 ≤ a
    → a ≤ b
    → cmp (from_u64 bitcoin ruint b) (from_u64 bitcoin ruint a) ≢ Ordering.lt
from_u64_monotone bitcoin ruint a b laws lo h =
    let small : ruint.div bitcoin.max_target b ≤ ruint.div bitcoin.max_target a =
      rw (laws.div_lem bitcoin.max_target b (omega arith), laws.div_lem bitcoin.max_target a lo)
        (div_antitone bitcoin.max_target a b lo h) in
    (cmp-target (from_u64 bitcoin ruint b) (from_u64 bitcoin ruint a)).1
      (rw (from_u64-target bitcoin ruint b (omega arith), from_u64-target bitcoin ruint a lo) small)
