-- ===== src/Asic/Bm13xx/Pll.antt =====
-- protocol.rs: the PLL configuration of a chip and the search for one that meets a frequency.
-- `f32` is a parameter: a type with the operations that the search uses and no laws.
pub mod Limits
use nano_mujina.Prelude.{
  ℕ, ◌-◌, ◌*◌, ◌/◌, ◌^◌, bit_and, bit_or, Bool, not, ◌&&◌, List, [], ◌∷◌, leb, ◌==◌, if◌then◌else◌,
}
use nano_mujina.Prelude.Bytes.{u8, Bytes4, bytes4}

pub record PllConfig : Type 0 where
  pub flag : ℕ
  pub fb_div : ℕ
  pub ref_div : ℕ
  pub post_div : ℕ

-- The VCO frequency is fb_div * 25.0 / ref_div. At these sizes the f32 comparison with 2400.0 is the
-- exact one: the quotient is a multiple of 25 / ref_div, and 0.0 / 0.0 is not at least 2400.0.
unfoldable pub new : ℕ → ℕ → ℕ → PllConfig
new fb_div ref_div post_div =
    let fast = not (fb_div == 0) && leb (2400 * ref_div) (fb_div * 25) in
    record {
      flag = if fast then 0x50 else 0x40;
      fb_div = fb_div;
      ref_div = ref_div;
      post_div = post_div;
    }

-- `PllConfig::from(u32)`.
unfoldable pub from_raw : ℕ → PllConfig
from_raw raw = record {
  flag = u8 (bit_and raw 0xff);
  fb_div = u8 (bit_and (raw / 2 ^ 8) 0xff);
  ref_div = u8 (bit_and (raw / 2 ^ 16) 0xff);
  post_div = u8 (bit_and (raw / 2 ^ 24) 0xff);
}

unfoldable pub to_bytes : PllConfig → Bytes4
to_bytes config = bytes4 config.flag config.fb_div config.ref_div config.post_div

-- The operations on `f32`. `round_u8` is `.round() as u8`, which saturates.
pub record Float32 : Type 1 where
  pub F : Type 0
  pub of_nat : ℕ → F
  pub mul : F → F → F
  pub div : F → F → F
  pub sub : F → F → F
  pub abs : F → F
  pub lt : F → F → Bool
  pub max_value : F
  pub round_u8 : F → ℕ

module _ (f32 : Float32) where
  open f32 use {F, of_nat, mul, div, sub, abs, lt, max_value, round_u8}

  -- The best configuration so far and its error.
  pub record Search : Type 0 where
    pub best_config : PllConfig
    pub min_error : F

  -- `fb_div_f.round() as u8`.
  pub required_fb_div : F → ℕ → ℕ → ℕ → ℕ
  required_fb_div target_freq ref_div post_div1 post_div2 =
      round_u8
        (div (mul (mul (of_nat (post_div1 * post_div2)) target_freq) (of_nat ref_div)) (of_nat 25))

  -- `(target_freq - actual_freq).abs()`.
  frequency_error : F → ℕ → ℕ → ℕ → ℕ → F
  frequency_error target_freq fb_div ref_div post_div1 post_div2 = abs (
      sub target_freq (
        div (mul (of_nat 25) (of_nat fb_div))
          (mul (mul (of_nat ref_div) (of_nat post_div1)) (of_nat post_div2))))

  accept : F → ℕ → ℕ → ℕ → ℕ → Search → Search
  accept error fb_div ref_div post_div1 post_div2 s =
      if lt error s.min_error && lt error (of_nat 1)
      then record {
        best_config = new fb_div ref_div (bit_or ((post_div1 - 1) * 2 ^ 4) (post_div2 - 1));
        min_error = error;
      }
      else s

  -- The body of the three loops of `calculate_pll`.
  try_dividers : F → ℕ → ℕ → ℕ → Search → Search
  try_dividers target_freq ref_div post_div1 post_div2 s =
      let fb_div = required_fb_div target_freq ref_div post_div1 post_div2 in
      if leb post_div2 post_div1
      then (if leb 0xa0 fb_div && leb fb_div 0xef
          then accept (frequency_error target_freq fb_div ref_div post_div1 post_div2) fb_div
              ref_div post_div1 post_div2 s
          else s)
      else s

  -- `(1..=7).rev()`.
  abbrev pub dividers : List ℕ
  dividers = 7 ∷ 6 ∷ 5 ∷ 4 ∷ 3 ∷ 2 ∷ 1 ∷ []

  -- The three nested loops, each over the dividers that it has left.
  post_div2_loop : F → ℕ → ℕ → List ℕ → Search → Search
  unfolding try_dividers
  post_div2_loop target_freq ref_div post_div1 [] s = s
  post_div2_loop target_freq ref_div post_div1 (post_div2 ∷ rest) s =
      post_div2_loop target_freq ref_div post_div1 rest
        (try_dividers target_freq ref_div post_div1 post_div2 s)

  post_div1_loop : F → ℕ → List ℕ → Search → Search
  unfolding post_div2_loop
  post_div1_loop target_freq ref_div [] s = s
  post_div1_loop target_freq ref_div (post_div1 ∷ rest) s =
      post_div1_loop target_freq ref_div rest
        (post_div2_loop target_freq ref_div post_div1 dividers s)

  ref_div_loop : F → List ℕ → Search → Search
  unfolding post_div1_loop
  ref_div_loop target_freq [] s = s
  ref_div_loop target_freq (ref_div ∷ rest) s =
      ref_div_loop target_freq rest (post_div1_loop target_freq ref_div dividers s)

  pub calculate_pll : F → PllConfig
  calculate_pll target_freq =
      (ref_div_loop target_freq (2 ∷ 1 ∷ [])
        (record { best_config = new 0xa0 2 0x55; min_error = max_value })).best_config
