-- ===== src/System.antt =====
-- The services together: their transactions in any order.
pub mod Steps
pub mod Links
pub mod Backed
pub mod Reachable
