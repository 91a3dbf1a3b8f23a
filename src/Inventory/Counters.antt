-- ===== src/Inventory/Counters.antt =====
-- What src/services/inventory.service.ts keeps of its counters: what is reserved on a tier is what
-- the holding orders hold, and what is sold covers the admissions of paid orders.
pub mod Sums
pub mod Rows
pub mod Lapsed
pub mod Invariant
pub mod Releasing
pub mod Returning
pub mod Committing
pub mod Paid
pub mod Settling
pub mod Framing
