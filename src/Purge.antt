-- ===== src/Purge.antt =====
-- src/services/purge.service.ts: removing orders that came to nothing.
pub mod Delete
pub mod Abandoned
pub mod Kept
pub mod Without
pub mod Consistency
