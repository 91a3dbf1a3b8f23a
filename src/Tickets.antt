-- ===== src/Tickets.antt =====
-- src/services/tickets.service.ts: issuing the tickets of a paid order, admission at the gate, and
-- voiding.
pub mod Issue
pub mod CheckIn
pub mod Void
pub mod Admission
pub mod Steps
pub mod Once
pub mod Gate
pub mod Missing
pub mod Issuing
