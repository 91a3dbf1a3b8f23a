-- ===== src/Schema/Status.antt =====
-- The enumerations of src/db/schema.ts and src/gateways/types.ts, with the texts that they are
-- stored as.
use ticketing_app.Prelude.{Bool, true, false, String}

-- eventStatus
pub data EventStatus : Type 0 where
  draft published closed cancelled : EventStatus

pub data TierStatus : Type 0 where
  active paused hidden closed : TierStatus

pub data OrderStatus : Type 0 where
  pending awaiting_payment paid failed expired cancelled refunded : OrderStatus

pub data PaymentStatus : Type 0 where
  pending succeeded failed cancelled timeout : PaymentStatus

pub data TicketStatus : Type 0 where
  issued checked_in void : TicketStatus

pub data WebhookStatus : Type 0 where
  received processed ignored failed : WebhookStatus

-- SettlementOutcome of src/gateways/types.ts
pub data SettlementOutcome : Type 0 where
  succeeded failed cancelled pending timeout : SettlementOutcome

-- ledgerEntity
pub data LedgerEntity : Type 0 where
  order payment inventory ticket webhook event : LedgerEntity

abbrev pub is_published : EventStatus → Bool
is_published EventStatus.published = true
is_published _ = false

abbrev pub is_active : TierStatus → Bool
is_active TierStatus.active = true
is_active _ = false

abbrev pub is_closed : TierStatus → Bool
is_closed TierStatus.closed = true
is_closed _ = false

abbrev pub is_paid : OrderStatus → Bool
is_paid OrderStatus.paid = true
is_paid _ = false

abbrev pub is_pending : PaymentStatus → Bool
is_pending PaymentStatus.pending = true
is_pending _ = false

abbrev pub is_issued : TicketStatus → Bool
is_issued TicketStatus.issued = true
is_issued _ = false

abbrev pub order_status_text : OrderStatus → String
order_status_text OrderStatus.pending = "pending"
order_status_text OrderStatus.awaiting_payment = "awaiting_payment"
order_status_text OrderStatus.paid = "paid"
order_status_text OrderStatus.failed = "failed"
order_status_text OrderStatus.expired = "expired"
order_status_text OrderStatus.cancelled = "cancelled"
order_status_text OrderStatus.refunded = "refunded"

abbrev pub payment_status_text : PaymentStatus → String
payment_status_text PaymentStatus.pending = "pending"
payment_status_text PaymentStatus.succeeded = "succeeded"
payment_status_text PaymentStatus.failed = "failed"
payment_status_text PaymentStatus.cancelled = "cancelled"
payment_status_text PaymentStatus.timeout = "timeout"

abbrev pub ticket_status_text : TicketStatus → String
ticket_status_text TicketStatus.issued = "issued"
ticket_status_text TicketStatus.checked_in = "checked_in"
ticket_status_text TicketStatus.void = "void"

abbrev pub outcome_text : SettlementOutcome → String
outcome_text SettlementOutcome.succeeded = "succeeded"
outcome_text SettlementOutcome.failed = "failed"
outcome_text SettlementOutcome.cancelled = "cancelled"
outcome_text SettlementOutcome.pending = "pending"
outcome_text SettlementOutcome.timeout = "timeout"
