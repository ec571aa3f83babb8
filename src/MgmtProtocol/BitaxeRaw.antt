-- ===== src/MgmtProtocol/BitaxeRaw.antt =====
-- mujina-miner/src/mgmt_protocol/bitaxe_raw: the control protocol of the bitaxe-raw firmware.
pub mod Packet
pub mod Response
pub mod Codec
pub mod Channel
mod Tests
