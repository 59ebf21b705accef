-- ===== src/Subnets/Laws.antt =====
-- What the methods of the service do to the addresses in use.
pub mod Reserves
pub mod Assigns
pub mod Trees
pub mod News
pub mod Nets
pub mod Ats
pub mod Orders
