-- ===== src/Asic/Bm13xx.antt =====
-- mujina-miner/src/asic/bm13xx: the serial protocol of the BM13xx chips (protocol.rs, crc.rs) and the thread
-- that drives them (thread.rs).
pub mod Pll
pub mod Ticket
pub mod Fields
pub mod Register
pub mod Crc
pub mod Hash
pub mod Command
pub mod Response
pub mod Frame
pub mod Protocol
pub mod Thread
