-- ===== src/Wg/Laws.antt =====
-- What is proved of wg/wg.go.
pub mod Dumps
pub mod Writes
