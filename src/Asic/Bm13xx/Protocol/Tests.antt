-- ===== src/Asic/Bm13xx/Protocol/Tests.antt =====
-- The theorems about the high-level operations at concrete inputs.
use nano_mujina.Prelude.{ℕ, ◌+◌, ◌-◌, ◌*◌, ◌/◌, ◌^◌, min, ◌≡◌, [], ◌∷◌, arith, ltb}
use nano_mujina.Asic.Bm13xx.Pll.{Float32}
use nano_mujina.Asic.Bm13xx.Protocol.{multi_chip_init, chip_address}
use nano_mujina.Asic.Bm13xx.Protocol.Chain.{assigned, assigned-multi_chip_init, chip_address_wraps}

-- Whole numbers of 1/1000 stand for floats: enough to run the search.
abbrev milli : Float32
milli = record {
  F = ℕ;
  of_nat = λ n. n * 1000;
  mul = λ a b. a * b / 1000;
  div = λ a b. a * 1000 / b;
  sub = λ a b. (a - b) + (b - a);
  abs = λ a. a;
  lt = ltb;
  max_value = 2 ^ 128;
  round_u8 = λ a. min ((a + 500) / 1000) 255;
}

assigned-multi_chip_init_example : assigned (multi_chip_init 4) ≡ 0 ∷ 2 ∷ 4 ∷ 6 ∷ []
assigned-multi_chip_init_example = assigned-multi_chip_init 4 (omega arith)

chip_address_wraps_example : chip_address 129 ≡ chip_address 1
chip_address_wraps_example = chip_address_wraps 1
