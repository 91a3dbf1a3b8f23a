-- ===== src/Checkout/Payment.antt =====
-- The transaction of `createCheckout` that follows an accepted charge.
use ticketing_app.Prelude.{
  ℕ, String, Bool, true, false, Option, none, some, List, not, all, insert, update_where, str_eq,
  ◌==◌, ◌&&◌, ◌||◌,
}
use ticketing_app.Schema.{
  Order, OrderStatus, Payment, PaymentStatus, LedgerEntity, EntityId, Transition, Json, Object,
}
use ticketing_app.Store.{foreign_key_violation, unique_violation}
use ticketing_app.Store.Tx.{Tx, pure, throw_if, gets, modify, ◌>>=◌, ◌>>◌}
use ticketing_app.Ledger.Record.{record_transition}
use ticketing_app.Inventory.Release.{order_by_id}

-- ChargeResult of src/gateways/types.ts
pub record ChargeResult : Type 0 where
  pub gateway_ref : String
  pub customer_message : Option String

abbrev pub gateway_name : String
gateway_name = "mpesa"

unfoldable pub new_payment : ℕ → Order → List ℕ → ChargeResult → Payment
new_payment payment_id order phone charge = record {
  id = payment_id;
  order_id = order.id;
  gateway = gateway_name;
  gateway_ref = charge.gateway_ref;
  amount_cents = order.total_cents;
  payer_phone = phone;
  status = PaymentStatus.pending;
  result_code = none;
  result_desc = none;
  receipt = none;
  transaction_date = none;
  reconcile_attempts = 0;
  last_reconciled_at = none;
  claimed_at = none;
  settled_at = none;
}

-- the primary key and `payments_gateway_ref_key`
abbrev pub same_payment : Payment → Payment → Bool
same_payment p q = q.id == p.id || str_eq q.gateway p.gateway && str_eq q.gateway_ref p.gateway_ref

-- `payments.order_id` references an order
abbrev pub is_missing : Option Order → Bool
is_missing none = true
is_missing (some _) = false

unfoldable pub insert_payment : Payment → Tx Unit
insert_payment p = do
  found ← gets (order_by_id p.order_id)
  throw_if (is_missing found) foreign_key_violation
  payments ← gets (λ db. db.payments)
  throw_if (not (all (λ q. not (same_payment p q)) payments)) unique_violation
  modify (λ db. record db { payments = insert p db.payments })

abbrev pub await_row : Order → Order
await_row o = record o { status = OrderStatus.awaiting_payment }

-- the UPDATE of the order, whatever its status is by then
unfoldable pub await_payment : ℕ → Tx Unit
await_payment order_id =
    modify (λ db. record db { orders = update_where (λ o. o.id == order_id) await_row db.orders })

unfoldable pub payment_initiated : Order → Payment → Transition
payment_initiated order p = record {
  entity = LedgerEntity.payment;
  entity_id = EntityId.row p.id;
  event = "payment.initiated";
  from_state = none;
  to_state = "pending";
  actor = "system:checkout";
  order_id = some order.id;
  event_id = none;
  amount_cents = some order.total_cents;
  detail =
      Object.field "gateway" (Json.text gateway_name)
        (Object.field "gatewayRef" (Json.text p.gateway_ref) Object.end);
}

unfoldable pub order_awaiting : Order → Transition
order_awaiting order = record {
  entity = LedgerEntity.order;
  entity_id = EntityId.row order.id;
  event = "order.awaiting_payment";
  from_state = some "pending";
  to_state = "awaiting_payment";
  actor = "system:checkout";
  order_id = some order.id;
  event_id = none;
  amount_cents = some order.total_cents;
  detail = Object.end;
}

-- the body of the transaction
unfoldable pub initiate_payment : ℕ → Order → List ℕ → ChargeResult → Tx Payment
initiate_payment payment_id order phone charge = do
  let p = new_payment payment_id order phone charge
  insert_payment p
  await_payment order.id
  record_transition (payment_initiated order p)
  record_transition (order_awaiting order)
  pure p
