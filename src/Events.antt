-- ===== src/Events.antt =====
-- src/services/events.service.ts: what the public pages show of events and tiers, and the archive.
mod Sorting
pub mod Tiers
pub mod Listing
pub mod Archive
pub mod Prices
