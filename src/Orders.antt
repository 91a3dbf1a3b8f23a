-- ===== src/Orders.antt =====
-- src/services/orders.service.ts: what the sale page and the confirmation page read of an order.
pub mod View
pub mod Redaction
