-- ===== src/JobSource/Extranonce2.antt =====
-- mujina-miner/src/job_source/extranonce2.rs: values, ranges and iterators of the extranonce2.
-- A u64 is a number below 2 ^ 64; `+` and `-` wrap, as in a build without overflow checks; usize
-- has 64 bits.
pub mod Value
pub mod Range
pub mod Iter
mod Tests
