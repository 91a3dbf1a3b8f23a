-- ===== src/Inventory.antt =====
-- src/services/inventory.service.ts: the three counters of a ticket tier, and the transactions
-- that reserve, release and commit seats. Definitions are in `Seats`, `Locking`, `Reserve`,
-- `Release` and `Commit`; the other modules prove what they do.
pub mod Seats
pub mod Locking
pub mod Reserve
pub mod Release
pub mod Commit
pub mod Counters
