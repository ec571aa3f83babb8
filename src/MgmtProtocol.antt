-- ===== src/MgmtProtocol.antt =====
-- mujina-miner/src/mgmt_protocol: control of a board's peripherals.
pub mod BitaxeRaw
