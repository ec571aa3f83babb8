-- ===== src/Types/U256/Tests.antt =====
-- u256.rs: runs on concrete inputs.
use nano_mujina.Prelude.{
  ℕ, zero, suc, ◌-◌, ◌*◌, ◌/◌, ◌%◌, ◌^◌, ◌≤◌, ◌<◌, ◌≡◌, refl, arith, ◌==◌, if◌then◌else◌, if-holds,
  Bool-cases, inl, inr, ap, ◌∙◌, subst,
}
use native.Mathlib.Nat.{pow-suc}
use nano_mujina.Types.U256.{WideRuint, IsWideRuint, Decoded, down, div_f64}
use nano_mujina.Types.U256.Division.{quotient, div_f64-quotient}

-- The bits of a number below 2 ^ fuel.
bits : ℕ → ℕ → ℕ
bits zero v = 0
bits (suc fuel) v = let rest = bits fuel (v / 2) in if v == 0 then 0 else suc rest

bits_le : (fuel v : ℕ) → bits fuel v ≤ fuel
unfolding bits
bits_le zero v = omega arith
bits_le (suc fuel) v =
    let rest = bits_le fuel (v / 2) in
    if-holds (λ n. n ≤ suc fuel) (v == 0) _ _ (λ _. omega arith) (λ _. omega arith)

bits_upper : (fuel v : ℕ) → v < 2 ^ fuel → v < 2 ^ bits fuel v
unfolding bits
bits_upper zero v h = h
bits_upper (suc fuel) v h =
    let e = pow-suc 2 fuel in
    let rest : v / 2 < 2 ^ bits fuel (v / 2) = bits_upper fuel (v / 2) (omega arith) in
    let e' = pow-suc 2 (bits fuel (v / 2)) in
    if-holds (λ n. v < 2 ^ n) (v == 0) 0 (suc (bits fuel (v / 2))) (λ z. ground arith)
      (λ _. omega arith)

bits-zero : (fuel : ℕ) → bits fuel 0 ≡ 0
unfolding bits
bits-zero zero = refl
bits-zero (suc fuel) = refl

bits_lower : (fuel v : ℕ) → 1 ≤ v → v < 2 ^ fuel → 2 ^ bits fuel v ≤ v * 2
unfolding bits
bits_lower zero v p h = absurd (omega arith)
bits_lower (suc fuel) v p h =
    let e = pow-suc 2 fuel in
    let e' = pow-suc 2 (bits fuel (v / 2)) in
    let rest : 2 ^ bits fuel (v / 2) ≤ v = elim (Bool-cases (v / 2 == 0)) [
      | inl z ↦
          (let half : v / 2 ≡ 0 = ground arith in
            let none_left : bits fuel (v / 2) ≡ 0 = ap (bits fuel) half ∙ bits-zero fuel in
            rw none_left p)
      | inr n ↦
          (let half : 1 ≤ v / 2 = ground arith in
            let below = bits_lower fuel (v / 2) half (omega arith) in omega arith)
    ] in
    if-holds (λ n. 2 ^ n ≤ v * 2) (v == 0) 0 (suc (bits fuel (v / 2))) (λ z. ground arith)
      (λ _. omega arith)

abbrev wide : WideRuint
wide = record {
  leading_zeros = λ v. 256 - bits 256 v;
  shl_256 = λ v s. v * 2 ^ s % 2 ^ 256;
  div_256 = λ v d. v / d;
  shl_512 = λ v s. v * 2 ^ s % 2 ^ 512;
  div_512 = λ v d. v / d;
}

wide-IsWideRuint : IsWideRuint wide
wide-IsWideRuint = record {
  leading_zeros_le = λ v. omega arith;
  leading_zeros_lower = λ v p h. subst (λ n. 2 ^ n ≤ v * 2) (back v) (bits_lower 256 v p h);
  leading_zeros_upper = λ v h. subst (λ n. v < 2 ^ n) (back v) (bits_upper 256 v h);
  shl_256_lem = λ v s. refl;
  div_256_lem = λ v d p. refl;
  shl_512_lem = λ v s. refl;
  div_512_lem = λ v d p. refl;
}
  where
    back : (v : ℕ) → bits 256 v ≡ 256 - (256 - bits 256 v)
    back v = let le = bits_le 256 v in omega arith

-- 1000 / 1.5, where 1.5 is 3 * 2 ^ 51 / 2 ^ 52.
abbrev one_and_a_half : Decoded
one_and_a_half = record { mantissa = 3 * 2 ^ 51; exponent = down 52 }

div_f64-quotient_example : div_f64 wide 1000 one_and_a_half ≡ quotient 1000 (3 * 2 ^ 51) (down 52)
div_f64-quotient_example =
    div_f64-quotient wide 1000 one_and_a_half wide-IsWideRuint (omega arith) (omega arith)

quotient_value : quotient 1000 (3 * 2 ^ 51) (down 52) ≡ 666
quotient_value = refl
