-- ===== src/Board.antt =====
-- mujina-miner/src/board and backplane.rs: which board handler a USB device gets.
pub mod Pattern
