-- ===== src/Asic.antt =====
-- mujina-miner/src/asic: the mining chips and the protocol they speak.
pub mod Bm13xx
