-- ===== src/Api/Nets/Laws.antt =====
-- What is proved of the handlers of subnets.
pub mod Reserving
pub mod Undoing
