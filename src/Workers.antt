-- ===== src/Workers.antt =====
-- src/queue/workers: the jobs that return lapsed holds, chase payments and issue tickets. What BullMQ
-- does with a job, its delays and its retries, is left out.
pub mod Expiry
pub mod Reconcile
pub mod Issuance
pub mod Keeping
pub mod Sweeping
pub mod Queued
pub mod Chasing
