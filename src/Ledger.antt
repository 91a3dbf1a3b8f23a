-- ===== src/Ledger.antt =====
-- src/services/ledger.service.ts: appending transitions (`Record`), and the verification of the
-- hash chain.
pub mod Record
pub mod Chain
pub mod Linked
