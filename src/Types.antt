-- ===== src/Types.antt =====
-- mujina-miner/src/types: small value types that the rest of the miner shares.
pub mod DebouncedAlarm
pub mod HashrateEstimator
pub mod Bitcoin
pub mod Difficulty
pub mod U256
