-- ===== src/Tenancy.antt =====
-- src/services/tenancy.service.ts: which events an administrator sees.
pub mod Scope
pub mod Isolation
