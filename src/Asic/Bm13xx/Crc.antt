-- ===== src/Asic/Bm13xx/Crc.antt =====
-- mujina-miner/src/asic/bm13xx/crc.rs. The crate crc_all is a parameter: `new` takes the polynomial,
-- the width, the initial value, the xor value and the reflection of an algorithm.
use nano_mujina.Prelude.{ℕ, Bool, false, List, ◌==◌}

pub record CrcAlgo : Type 0 where
  pub update_crc : ℕ → List ℕ → ℕ
  pub finish_crc : ℕ → ℕ

pub record CrcAll : Type 0 where
  pub new : ℕ → ℕ → ℕ → ℕ → Bool → CrcAlgo

abbrev pub crc5_init : ℕ
crc5_init = 0x1f

abbrev pub crc16_init : ℕ
crc16_init = 0xFFFF

module _ (lib : CrcAll) where
  abbrev pub crc5_algo : CrcAlgo
  crc5_algo = lib.new 0x5 5 crc5_init 0 false

  abbrev pub crc16_algo : CrcAlgo
  crc16_algo = lib.new 0x1021 16 crc16_init 0 false

  unfoldable pub crc5 : List ℕ → ℕ
  crc5 bytes = crc5_algo.finish_crc (crc5_algo.update_crc crc5_init bytes)

  unfoldable pub crc5_is_valid : List ℕ → Bool
  unfolding crc5
  crc5_is_valid bytes = crc5 bytes == 0

  unfoldable pub crc16 : List ℕ → ℕ
  crc16 bytes = crc16_algo.finish_crc (crc16_algo.update_crc crc16_init bytes)
