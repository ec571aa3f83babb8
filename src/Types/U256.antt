-- ===== src/Types/U256.antt =====
-- u256.rs and types/share_rate.rs: 256-bit numbers divided by an f64, and the target for a rate of
-- shares. A finite positive f64 is its decoded mantissa and exponent, as `integer_decode` gives them.
pub mod Division
mod Tests
use nano_mujina.Prelude.{
  ℕ, ◌+◌, ◌-◌, ◌*◌, ◌/◌, ◌%◌, ◌^◌, ◌≤◌, ◌<◌, min, ◌≡◌, Bool, not, ltb, leb, ◌==◌, ◌&&◌,
  if◌then◌else◌,
}

-- The operations of the crate ruint on 256-bit and 512-bit numbers that the code uses.
pub record WideRuint : Type 0 where
  pub leading_zeros : ℕ → ℕ
  pub shl_256 : ℕ → ℕ → ℕ
  pub div_256 : ℕ → ℕ → ℕ
  pub shl_512 : ℕ → ℕ → ℕ
  pub div_512 : ℕ → ℕ → ℕ

-- What ruint documents: a shift drops what leaves the width, a division by a number other than zero
-- rounds down, and the zeros are those in front of the highest bit.
pub record IsWideRuint (r : WideRuint) : Type 0 where
  pub leading_zeros_le : (v : ℕ) → r.leading_zeros v ≤ 256
  pub leading_zeros_lower : (v : ℕ) → 1 ≤ v → v < 2 ^ 256 → 2 ^ (256 - r.leading_zeros v) ≤ v * 2
  pub leading_zeros_upper : (v : ℕ) → v < 2 ^ 256 → v < 2 ^ (256 - r.leading_zeros v)
  pub shl_256_lem : (v s : ℕ) → r.shl_256 v s ≡ v * 2 ^ s % 2 ^ 256
  pub div_256_lem : (v d : ℕ) → 1 ≤ d → r.div_256 v d ≡ v / d
  pub shl_512_lem : (v s : ℕ) → r.shl_512 v s ≡ v * 2 ^ s % 2 ^ 512
  pub div_512_lem : (v d : ℕ) → 1 ≤ d → r.div_512 v d ≡ v / d

-- The exponent of a decoded f64: 2 to a power, or one over it.
pub data Exponent : Type 0 where
  up down : ℕ → Exponent

pub record Decoded : Type 0 where
  pub mantissa : ℕ
  pub exponent : Exponent

abbrev pub max_256 : ℕ
max_256 = 2 ^ 256 - 1

module _ (r : WideRuint) where
  -- The narrowing of the 512-bit result by its upper limbs.
  pub narrow : ℕ → ℕ
  narrow result = if leb (2 ^ 256) result then max_256 else result % 2 ^ 256

  pub shifted_div : ℕ → ℕ → ℕ → ℕ
  shifted_div v shift divisor =
      let self_bits : ℕ = 256 - r.leading_zeros v in
      if not (v == 0) && ltb 512 (self_bits + shift)
      then max_256
      else narrow (r.div_512 (r.shl_512 v shift) divisor)

  -- The two branches of `Div<f64>`.
  pub div_by : ℕ → ℕ → Exponent → ℕ
  div_by v mantissa (up shift) =
      if ltb 256 (shift + 53) then 0 else r.div_256 v (r.shl_256 mantissa shift)
  div_by v mantissa (down shift) = shifted_div v shift mantissa

  -- `Div<f64> for U256`, for a finite positive f64.
  pub div_f64 : ℕ → Decoded → ℕ
  div_f64 v rhs = div_by v rhs.mantissa rhs.exponent

  -- `ShareRate::to_target`, from the number of hashes per share and whether it is at most 1.0.
  unfoldable pub to_target : Bool → Decoded → ℕ
  to_target at_most_one hashes_per_share =
      if at_most_one then max_256 else div_f64 max_256 hashes_per_share
