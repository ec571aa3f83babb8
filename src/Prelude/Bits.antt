-- ===== src/Prelude/Bits.antt =====
-- `|` of disjoint fields and `&` with a low mask as arithmetic, at every width.
-- The native operations stand for `bitwise`, a recursion on binary digits with fuel.
use Prim.Native.Nat.{
  ℕ, zero, suc, ◌+◌, ◌-◌, ◌*◌, ◌/◌, ◌%◌, ◌^◌, ◌≤◌, ◌<◌, min, max, bit_and, bit_or, digits, bitwise,
  bit_and-bitwise, bit_or-bitwise,
}
use mathlib.Core.Path.{◌≡◌, refl, ap, ◌∙◌}
use native.Mathlib.Nat.{pow-suc, one-le-pow, mul-one, add-zero}
use native.Mathlib.Omega.{arith}

-- Any fuel that is not below the number gives the same digits.
module _ (at_zero : ℕ → ℕ) (join : ℕ → ℕ → ℕ) where
  digits-fuel_irrelevant :
      (n m a b : ℕ) → a ≤ n → a ≤ m → digits at_zero join n a b ≡ digits at_zero join m a b
  digits-fuel_irrelevant zero zero a b p q = refl
  digits-fuel_irrelevant (suc n) zero zero b p q = refl
  digits-fuel_irrelevant (suc n) zero (suc a) b p q = absurd (omega arith)
  digits-fuel_irrelevant zero (suc m) zero b p q = refl
  digits-fuel_irrelevant zero (suc m) (suc a) b p q = absurd (omega arith)
  digits-fuel_irrelevant (suc n) (suc m) zero b p q = refl
  digits-fuel_irrelevant (suc n) (suc m) (suc a) b p q =
      rw (digits-fuel_irrelevant n m (suc a / 2) (b / 2) (omega arith) (omega arith))

  bitwise-halves :
      (a b : ℕ)
      → bitwise at_zero join (suc a) b
        ≡ bitwise at_zero join (suc a / 2) (b / 2) * 2 + join (suc a % 2) (b % 2)
  bitwise-halves a b =
      omega (
        arith,
        digits-fuel_irrelevant a (suc a / 2) (suc a / 2) (b / 2) (omega arith) (omega arith),
      )

pub bit_or-halves : (a b : ℕ) → bit_or a b ≡ bit_or (a / 2) (b / 2) * 2 + max (a % 2) (b % 2)
bit_or-halves zero b = simp bit_or-bitwise (omega arith)
bit_or-halves (suc a) b = simp bit_or-bitwise (bitwise-halves (λ y. y) max a b)

pub bit_and-halves : (a b : ℕ) → bit_and a b ≡ bit_and (a / 2) (b / 2) * 2 + min (a % 2) (b % 2)
bit_and-halves zero b = simp bit_and-bitwise (omega arith)
bit_and-halves (suc a) b = simp bit_and-bitwise (bitwise-halves (λ y. 0) min a b)

pub zero-bit_or : (b : ℕ) → bit_or 0 b ≡ b
zero-bit_or b = simp bit_or-bitwise

pub zero-bit_and : (b : ℕ) → bit_and 0 b ≡ 0
zero-bit_and b = simp bit_and-bitwise

double_shift : (q k : ℕ) → q * 2 ^ suc k ≡ 2 * (q * 2 ^ k)
double_shift q k = omega (arith, ap (λ (t : ℕ). q * t) (pow-suc 2 k))

-- Fields of `k` low bits and the rest above them do not meet under `|`.
pub bit_or_fields :
    (k a b r s : ℕ)
    → r < 2 ^ k
    → s < 2 ^ k
    → bit_or (a * 2 ^ k + r) (b * 2 ^ k + s) ≡ bit_or a b * 2 ^ k + bit_or r s
bit_or_fields zero a b zero zero hr hs = rw zero-bit_or (simp (mul-one, add-zero))
bit_or_fields zero a b zero (suc s) hr hs = absurd (omega arith)
bit_or_fields zero a b (suc r) s hr hs = absurd (omega arith)
bit_or_fields (suc k) a b r s hr hs = ground (
  arith,
  bit_or-halves (a * 2 ^ suc k + r) (b * 2 ^ suc k + s),
  bit_or-halves r s,
  double_shift a k,
  double_shift b k,
  double_shift (bit_or a b) k,
  bit_or_fields k a b (r / 2) (s / 2) (omega (arith, pow-suc 2 k)) (omega (arith, pow-suc 2 k)),
)

-- Joining with no bits at all, on fuel.
with_no_bits : (fuel v : ℕ) → v ≤ fuel → (bit_or v 0 ≡ v) × (bit_and v 0 ≡ 0)
with_no_bits fuel zero le = (refl, refl)
with_no_bits zero (suc v) le = absurd (omega arith)
with_no_bits (suc fuel) (suc v) le =
    let (or_half, and_half) = with_no_bits fuel (suc v / 2) (omega arith) in
    (
      omega (arith, bit_or-halves (suc v) 0, or_half),
      omega (arith, bit_and-halves (suc v) 0, and_half),
    )

pub bit_or-zero : (a : ℕ) → bit_or a 0 ≡ a
bit_or-zero a = (with_no_bits a a (omega arith)).0

pub bit_and-zero : (a : ℕ) → bit_and a 0 ≡ 0
bit_and-zero a = (with_no_bits a a (omega arith)).1

-- `r | (q << k)` and `(q << k) | r` are sums when `r` fits in `k` bits.
pub bit_or-shifted : (k q r : ℕ) → r < 2 ^ k → bit_or r (q * 2 ^ k) ≡ q * 2 ^ k + r
bit_or-shifted k q r fits = ground (
  arith,
  bit_or_fields k 0 q r 0 fits (omega (arith, one-le-pow k 2)),
  ap (λ (t : ℕ). t * 2 ^ k) (zero-bit_or q),
  bit_or-zero r,
)

pub shifted-bit_or : (k q r : ℕ) → r < 2 ^ k → bit_or (q * 2 ^ k) r ≡ q * 2 ^ k + r
shifted-bit_or k q r fits = ground (
  arith,
  bit_or_fields k q 0 0 r (omega (arith, one-le-pow k 2)) fits,
  ap (λ (t : ℕ). t * 2 ^ k) (bit_or-zero q),
  zero-bit_or r,
)

below_mask : (k q r : ℕ) → r < 2 ^ k → bit_and (q * 2 ^ k + r) (2 ^ k - 1) ≡ r
below_mask zero q r fits = rw bit_and-zero (omega arith)
below_mask (suc k) q r fits = ground (
  arith,
  bit_and-halves (q * 2 ^ suc k + r) (2 ^ suc k - 1),
  double_shift q k,
  pow-suc 2 k,
  below_mask k q (r / 2) (omega (arith, pow-suc 2 k)),
)

-- A mask of `k` low bits is the remainder by `2 ^ k`.
pub bit_and_mask : (k a : ℕ) → bit_and a (2 ^ k - 1) ≡ a % 2 ^ k
bit_and_mask k a = ground (arith, one-le-pow k 2, below_mask k (a / 2 ^ k) (a % 2 ^ k))

-- Bit `i` of a number.
abbrev pub bit : ℕ → ℕ → ℕ
bit zero n = n % 2
bit (suc i) n = bit i (n / 2)

-- Every bit of `b` is set in `m`, among the lowest `k` bits.
abbrev pub Within : ℕ → ℕ → ℕ → Type 0
Within k b m = (i : ℕ) → i < k → bit i b ≤ bit i m

Within-suc : (k b m : ℕ) → b % 2 ≤ m % 2 → Within k (b / 2) (m / 2) → Within (suc k) b m
Within-suc k b m low rest zero h = low
Within-suc k b m low rest (suc i) h = rest i (omega arith)

-- `b & !m` is zero exactly when each bit of `b` is one of `m`, for words of `k` bits.
pub bit_and_outside :
    (k b m : ℕ)
    → b < 2 ^ k
    → m < 2 ^ k
    → ((bit_and b (2 ^ k - 1 - m) ≡ 0 → Within k b m)
        × (Within k b m → bit_and b (2 ^ k - 1 - m) ≡ 0))
bit_and_outside zero zero m hb hm = ((λ e i h. elim h [ ]), λ w. zero-bit_and (2 ^ 0 - 1 - m))
bit_and_outside zero (suc b) m hb hm = absurd (omega arith)
bit_and_outside (suc k) b m hb hm =
    let two : 2 ^ suc k ≡ 2 ^ k * 2 = pow-suc 2 k in
    let (fwd, back) = bit_and_outside k (b / 2) (m / 2) (omega arith) (omega arith) in
    let half : (2 ^ suc k - 1 - m) / 2 ≡ 2 ^ k - 1 - m / 2 = omega arith in
    let low : (2 ^ suc k - 1 - m) % 2 ≡ 1 - m % 2 = omega arith in
    let split : bit_and b (2 ^ suc k - 1 - m)
        ≡ bit_and (b / 2) (2 ^ k - 1 - m / 2) * 2 + min (b % 2) (1 - m % 2) =
      bit_and-halves b (2 ^ suc k - 1 - m) ∙ rw (half, low) refl in
    (
      (λ e. Within-suc k b m (omega (arith, split, e)) (fwd (omega (arith, split, e)))),
      (λ w. omega (arith, split, w 0 (omega arith), back (λ i h. w (suc i) (omega arith)))),
    )
