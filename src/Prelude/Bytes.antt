-- ===== src/Prelude/Bytes.antt =====
-- Rust's fixed-width words over the native numbers: a word of w bits is a number below 2 ^ w, a cast
-- or a wrapping operation is `% 2 ^ w`, and a byte array is a record or a list of bytes.
use Prim.Native.Nat.{ℕ, zero, suc, ◌+◌, ◌-◌, ◌*◌, ◌/◌, ◌%◌, ◌^◌, ◌≤◌, ◌<◌}
use mathlib.Core.Path.{◌≡◌, refl, ap}
use mathlib.Core.List.{List, [], ◌∷◌}
use native.Mathlib.Nat.{pow-suc}
use native.Mathlib.Omega.{arith}
use nano_mujina.Prelude.Lists.{length, All, take}

-- `as u8`, `as u16`, `as u32`, and u64 arithmetic without overflow checks.
abbrev pub u8 : ℕ → ℕ
u8 n = n % 256

abbrev pub u16 : ℕ → ℕ
u16 n = n % 65536

abbrev pub u32 : ℕ → ℕ
u32 n = n % 2 ^ 32

abbrev pub u64 : ℕ → ℕ
u64 n = n % 2 ^ 64

-- `a.wrapping_sub(b)` of u64s.
abbrev pub sub_u64 : ℕ → ℕ → ℕ
sub_u64 a b = (a + 2 ^ 64 - b) % 2 ^ 64

abbrev pub IsByte : ℕ → Type 0
IsByte b = b < 256

abbrev pub IsU16 : ℕ → Type 0
IsU16 v = v < 65536

abbrev pub IsU32 : ℕ → Type 0
IsU32 v = v < 2 ^ 32

abbrev pub IsU64 : ℕ → Type 0
IsU64 v = v < 2 ^ 64

-- `[u8; 4]`.
pub record Bytes4 : Type 0 where
  pub b0 : ℕ
  pub b1 : ℕ
  pub b2 : ℕ
  pub b3 : ℕ

pub record IsBytes4 (b : Bytes4) : Type 0 where
  pub lt0 : b.b0 < 256
  pub lt1 : b.b1 < 256
  pub lt2 : b.b2 < 256
  pub lt3 : b.b3 < 256

abbrev pub bytes4 : ℕ → ℕ → ℕ → ℕ → Bytes4
bytes4 x y z w = record { b0 = x; b1 = y; b2 = z; b3 = w }

-- `b[..]`.
abbrev pub Bytes4_to_list : Bytes4 → List ℕ
Bytes4_to_list b = b.b0 ∷ b.b1 ∷ b.b2 ∷ b.b3 ∷ []

-- `u32::to_le_bytes`, `to_be_bytes` and `from_le_bytes`.
abbrev pub to_le_bytes : ℕ → Bytes4
to_le_bytes v = bytes4 (v % 256) (v / 256 % 256) (v / 65536 % 256) (v / 16777216 % 256)

abbrev pub to_be_bytes : ℕ → Bytes4
to_be_bytes v = bytes4 (v / 16777216 % 256) (v / 65536 % 256) (v / 256 % 256) (v % 256)

abbrev pub from_le_bytes : Bytes4 → ℕ
from_le_bytes b = b.b0 + b.b1 * 256 + b.b2 * 65536 + b.b3 * 16777216

abbrev pub from_be_bytes : Bytes4 → ℕ
from_be_bytes b = b.b3 + b.b2 * 256 + b.b1 * 65536 + b.b0 * 16777216

pub from_le_bytes-to_le_bytes : (v : ℕ) → IsU32 v → from_le_bytes (to_le_bytes v) ≡ v
from_le_bytes-to_le_bytes v h = omega arith

pub to_le_bytes-from_le_bytes : (b : Bytes4) → IsBytes4 b → to_le_bytes (from_le_bytes b) ≡ b
to_le_bytes-from_le_bytes b h = ground arith

-- The `n` lowest bytes of a number, the lowest first.
pub le_list : ℕ → ℕ → List ℕ
le_list zero v = []
le_list (suc n) v = (v % 256) ∷ le_list n (v / 256)

-- The number that bytes stand for, the lowest first.
pub from_le_list : List ℕ → ℕ
from_le_list [] = 0
from_le_list (b ∷ bs) = b + 256 * from_le_list bs

pub length-le_list : (n v : ℕ) → length (le_list n v) ≡ n
unfolding le_list
length-le_list zero v = refl
length-le_list (suc n) v = ap suc (length-le_list n (v / 256))

pub le_list-All : (n v : ℕ) → All IsByte (le_list n v)
unfolding le_list
le_list-All zero v = tt
le_list-All (suc n) v = (omega arith, le_list-All n (v / 256))

pub from_le_list-le_list : (n v : ℕ) → v < 256 ^ n → from_le_list (le_list n v) ≡ v
unfolding le_list from_le_list
from_le_list-le_list zero v h = omega arith
from_le_list-le_list (suc n) v h =
    omega (arith, from_le_list-le_list n (v / 256) (omega (arith, pow-suc 256 n)))

pub take-le_list : (k n v : ℕ) → k ≤ n → take k (le_list n v) ≡ le_list k v
unfolding le_list
take-le_list zero n v h = refl
take-le_list (suc k) zero v h = absurd (omega arith)
take-le_list (suc k) (suc n) v h = ap (◌∷◌ (v % 256)) (take-le_list k n (v / 256) (omega arith))
