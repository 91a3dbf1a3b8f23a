-- ===== src/Payments.antt =====
-- src/services/payments.service.ts: from a gateway's result to a settled order. `Apply` is
-- `applySettlement`, the one place where money turns into tickets; both the webhook and the
-- reconciler call it.
pub mod Settlement
pub mod Webhook
pub mod Settle
pub mod Apply
pub mod Consistency
pub mod Safety
pub mod Claim
