-- ===== src/JobSource.antt =====
-- mujina-miner/src/job_source: mining jobs and the dimensions of the search space that they hand out.
pub mod Extranonce2
pub mod Version
pub mod Job
pub mod ForcedRate
pub mod StratumV1
