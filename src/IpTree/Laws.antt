-- ===== src/IpTree/Laws.antt =====
-- The laws of the operations on a network.
pub mod Puts
pub mod Deletes
pub mod Allocates
pub mod One
pub mod Ends
pub mod News
pub mod Orders
