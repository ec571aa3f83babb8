-- ===== src/Types/U256/Division.antt =====
-- u256.rs: dividing by an f64 is exact, but for the saturation.
use nano_mujina.Prelude.{
  ℕ, zero, suc, ◌+◌, ◌-◌, ◌*◌, ◌/◌, ◌^◌, ◌≤◌, ◌<◌, min, ◌≡◌, sym, ap, ◌∙◌, false, not, ltb, ◌==◌,
  ◌&&◌, if-holds, arith,
}
use native.Mathlib.Nat.{
  pow-le-pow_right, mul-le-mul, mul-le-mul_right, mod-eq_of_lt, div-eq_of_lt, le-div_iff_mul-le,
  pow-suc, mul-one, zero-mul, mul-lt-mul_of_pos_right, mul_assoc,
}
use nano_mujina.Types.U256.{
  WideRuint, IsWideRuint, Exponent, Decoded, up, down, max_256, narrow, shifted_div, div_by,
  div_f64,
}

-- A mantissa has at most 53 bits, and 53 where the exponent is not negative.
abbrev pub IsMantissa : ℕ → Exponent → Type 0
IsMantissa m (up k) = (2 ^ 52 ≤ m) × (m < 2 ^ 53)
IsMantissa m (down k) = (1 ≤ m) × (m < 2 ^ 53)

-- The rounded-down quotient by mantissa * 2 ^ k, or by mantissa / 2 ^ k with saturation.
abbrev pub quotient : ℕ → ℕ → Exponent → ℕ
quotient v m (up k) = v / (m * 2 ^ k)
quotient v m (down k) = min max_256 (v * 2 ^ k / m)

narrow-min : (r : WideRuint) (q : ℕ) → narrow r q ≡ min max_256 q
unfolding narrow
narrow-min r q = ground arith

up-large : (v m k : ℕ) → v < 2 ^ 256 → 2 ^ 52 ≤ m → 204 ≤ k → v / (m * 2 ^ k) ≡ 0
up-large v m k lv lm lk =
    let power : 2 ^ 204 ≤ 2 ^ k = pow-le-pow_right (omega arith) lk in
    let product : 2 ^ 52 * 2 ^ 204 ≤ m * 2 ^ k = mul-le-mul lm power in div-eq_of_lt (omega arith)

pow_add : (a b : ℕ) → 2 ^ (a + b) ≡ 2 ^ a * 2 ^ b
pow_add a zero = ap (λ n. 2 ^ n) (omega arith) ∙ sym (mul-one (2 ^ a))
pow_add a (suc b) =
    let e : a + suc b ≡ suc (a + b) = omega arith in
    ap (λ n. 2 ^ n) e
    ∙ (pow-suc 2 (a + b)
        ∙ (ap (λ x. x * 2) (pow_add a b)
            ∙ (mul_assoc (2 ^ a) (2 ^ b) 2 ∙ ap (λ x. 2 ^ a * x) (sym (pow-suc 2 b)))))

div_up :
    (r : WideRuint) (v m k : ℕ)
    → IsWideRuint r
    → v < 2 ^ 256
    → IsMantissa m (up k)
    → div_by r v m (up k) ≡ v / (m * 2 ^ k)
unfolding div_by
div_up r v m k laws lv (lm, um) =
    if-holds (λ x. x ≡ v / (m * 2 ^ k)) (ltb 256 (k + 53)) _ _
      (λ large. sym (up-large v m k lv lm (ground arith)))
      (λ small.
        let k_small : k ≤ 203 = ground arith in
        let power : 2 ^ k ≤ 2 ^ 203 = pow-le-pow_right (omega arith) k_small in
        let one_up : 1 ≤ 2 ^ k =
          pow-le-pow_right {n = 2} (omega arith) {i = 0} {j = k} (omega arith) in
        let m_small : m ≤ 2 ^ 53 - 1 = omega arith in
        let product : m * 2 ^ k ≤ (2 ^ 53 - 1) * 2 ^ 203 = mul-le-mul m_small power in
        let m_positive : 1 ≤ m = omega arith in
        let positive : 1 * 1 ≤ m * 2 ^ k = mul-le-mul m_positive one_up in
        let shifted : r.shl_256 m k ≡ m * 2 ^ k =
          laws.shl_256_lem m k ∙ mod-eq_of_lt (omega arith) in
        rw shifted (laws.div_256_lem v (m * 2 ^ k) (omega arith)))

shifted_exact :
    (r : WideRuint) (v m k : ℕ)
    → IsWideRuint r
    → 1 ≤ m
    → v * 2 ^ k < 2 ^ 512
    → narrow r (r.div_512 (r.shl_512 v k) m) ≡ min max_256 (v * 2 ^ k / m)
shifted_exact r v m k laws lm fits =
    let shifted : r.shl_512 v k ≡ v * 2 ^ k = laws.shl_512_lem v k ∙ mod-eq_of_lt fits in
    rw (shifted, laws.div_512_lem (v * 2 ^ k) m lm) (narrow-min r (v * 2 ^ k / m))

-- The guard of `shifted_div`: the quotient saturates.
saturates :
    (v m k bits : ℕ)
    → 2 ^ bits ≤ v * 2
    → m < 2 ^ 53
    → 1 ≤ m
    → 513 ≤ bits + k
    → max_256 ≡ min max_256 (v * 2 ^ k / m)
saturates v m k bits lower um lm large =
    let power : 2 ^ 513 ≤ 2 ^ (bits + k) = pow-le-pow_right (omega arith) large in
    let product : 2 ^ bits * 2 ^ k ≤ v * 2 * 2 ^ k = mul-le-mul_right (2 ^ k) lower in
    let split = pow_add bits k in
    let big : 2 ^ 512 ≤ v * 2 ^ k = omega arith in
    let above : 2 ^ 256 ≤ v * 2 ^ k / m = (le-div_iff_mul-le lm).1 (omega arith) in omega arith

within : (v k bits : ℕ) → v < 2 ^ bits → bits + k ≤ 512 → v * 2 ^ k < 2 ^ 512
within v k bits upper small =
    let power : 2 ^ (bits + k) ≤ 2 ^ 512 = pow-le-pow_right (omega arith) small in
    let one_up : 1 ≤ 2 ^ k = pow-le-pow_right {n = 2} (omega arith) {i = 0} {j = k} (omega arith) in
    let product : v * 2 ^ k < 2 ^ bits * 2 ^ k = mul-lt-mul_of_pos_right upper one_up in
    let split = pow_add bits k in omega arith

div_down :
    (r : WideRuint) (v m k : ℕ)
    → IsWideRuint r
    → v < 2 ^ 256
    → IsMantissa m (down k)
    → div_by r v m (down k) ≡ min max_256 (v * 2 ^ k / m)
unfolding div_by shifted_div
div_down r v m k laws lv (lm, um) =
    if-holds (λ x. x ≡ min max_256 (v * 2 ^ k / m))
      (not (v == 0) && ltb 512 (256 - r.leading_zeros v + k)) _ _
      (λ large.
        let v_positive : 1 ≤ v = ground arith in
        let bits_large : 513 ≤ 256 - r.leading_zeros v + k = ground arith in
        saturates v m k (256 - r.leading_zeros v) (laws.leading_zeros_lower v v_positive lv) um lm
          bits_large)
      (λ fits. shifted_exact r v m k laws lm (fits_512 r v k laws lv fits))
  where
    fits_512 :
        (r : WideRuint) (v k : ℕ)
        → IsWideRuint r
        → v < 2 ^ 256
        → (not (v == 0) && ltb 512 (256 - r.leading_zeros v + k)) ≡ false
        → v * 2 ^ k < 2 ^ 512
    fits_512 r zero k laws lv fits = rw (zero-mul (2 ^ k)) (omega arith)
    fits_512 r (suc n) k laws lv fits =
        let bits_small : 256 - r.leading_zeros (suc n) + k ≤ 512 = ground arith in
        within (suc n) k (256 - r.leading_zeros (suc n)) (laws.leading_zeros_upper (suc n) lv)
          bits_small

-- For every 256-bit number and every finite positive f64, given by a mantissa of at most 53 bits and
-- an exponent, the division returns the exact quotient rounded down, or 2 ^ 256 - 1 where that is
-- larger: no shift loses bits, and a divisor above 256 bits gives zero.
pub div_f64-quotient :
    (r : WideRuint) (v : ℕ) (rhs : Decoded)
    → IsWideRuint r
    → v < 2 ^ 256
    → IsMantissa rhs.mantissa rhs.exponent
    → div_f64 r v rhs ≡ quotient v rhs.mantissa rhs.exponent
unfolding div_f64
div_f64-quotient r v rhs laws lv h = by_exponent r v rhs.mantissa rhs.exponent laws lv h
  where
    by_exponent :
        (r : WideRuint) (v m : ℕ) (e : Exponent)
        → IsWideRuint r
        → v < 2 ^ 256
        → IsMantissa m e
        → div_by r v m e ≡ quotient v m e
    by_exponent r v m (up k) laws lv h = div_up r v m k laws lv h
    by_exponent r v m (down k) laws lv h = div_down r v m k laws lv h
