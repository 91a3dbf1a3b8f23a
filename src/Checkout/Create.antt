-- ===== src/Checkout/Create.antt =====
-- `createCheckout` and `cancelOrder`.
use ticketing_app.Prelude.{
  ℕ, ◌+◌, ◌*◌, String, Bool, true, false, Option, none, some, List, not, first, str_eq,
  if◌then◌else◌,
}
use ticketing_app.Schema.{Db, Event, Order, OrderStatus, is_paid, is_published}
use ticketing_app.Store.{
  Failure, Result, not_found, bad_request, conflict, is_retryable_pg_error, is_unique_violation,
  is_app_error, error_503,
}
use ticketing_app.Store.Tx
use ticketing_app.Store.Exec.{
  Exec, pure, throw, throw_if, gets, of_result, of_option, with_transaction, try_catch, quietly,
  call, call_quietly, cancel_order_expiry, invalidate_event, schedule_order_expiry,
  schedule_reconcile, ◌>>=◌, ◌>>◌,
}
use ticketing_app.Phone.{normalize_phone}
use ticketing_app.Inventory.Release.{TerminalStatus, release_order}
use ticketing_app.Checkout.Basket.{check_basket, assert_hold_capacity}
use ticketing_app.Checkout.Hold.{HoldInput, hold_order}
use ticketing_app.Checkout.Replay.{
  CheckoutInput, CheckoutResult, scoped_key, find_by_idempotency_key, build_replay_result,
  replay_or, or_text, default_message,
}
use ticketing_app.Checkout.Payment.{ChargeResult, initiate_payment, gateway_name}

-- ChargeRequest of src/gateways/types.ts, less its description
pub record ChargeRequest : Type 0 where
  pub order_id : ℕ
  pub reference : String
  pub amount_cents : ℕ
  pub currency : String
  pub phone : List ℕ

-- What is outside of this code: the gateway, the hash, the new ids and the reference, and what
-- other requests commit to the database while the gateway is asked.
pub record CheckoutOutside : Type 0 where
  pub is_configured : Bool
  pub charge : ChargeRequest → Result ChargeResult
  pub hash : String → String → String
  pub order_id : ℕ
  pub item_id : ℕ → ℕ
  pub payment_id : ℕ
  pub reference : String
  pub meanwhile : Db → Db

-- ORDER_HOLD_MINUTES and MAX_ACTIVE_HOLDS_PER_PHONE
pub record CheckoutSettings : Type 0 where
  pub order_hold_minutes : ℕ
  pub max_active_holds_per_phone : ℕ

abbrev pub hold_input :
    CheckoutOutside
    → CheckoutSettings
    → CheckoutInput
    → Event
    → List ℕ
    → Option String
    → ℕ
    → HoldInput
hold_input outside settings input event phone key now = record {
  order_id = outside.order_id;
  item_id = outside.item_id;
  event_id = event.id;
  currency = event.currency;
  reference = outside.reference;
  user_id = input.user_id;
  buyer_name = input.buyer_name;
  buyer_email = input.buyer_email;
  buyer_phone = phone;
  reserved_until = now + settings.order_hold_minutes * 60000;
  idempotency_key = key;
  terms_version = input.terms_version;
  metadata = input.metadata;
}

-- What the first `try` leaves: the order, or the result that the function returns at once.
pub data HoldOutcome : Type 0 where
  held : Order → HoldOutcome
  replayed : CheckoutResult → HoldOutcome

abbrev pub contended : Failure → Failure
contended e = if is_retryable_pg_error e then conflict "inventory_contended" true else e

unfoldable pub replay_lost_race : Option Order → Failure → Exec CheckoutResult
unfolding build_replay_result
replay_lost_race none e = throw (contended e)
replay_lost_race (some o) e = build_replay_result o

-- the first `catch`
unfoldable pub after_failed_hold : Option String → Failure → Exec CheckoutResult
after_failed_hold key e = do
  existing ← gets (λ db. if is_unique_violation e then find_by_idempotency_key key db else none)
  replay_lost_race existing e

unfoldable pub try_hold : HoldInput → CheckoutInput → ℕ → Exec HoldOutcome
try_hold hold input now =
    try_catch (do order ← with_transaction (hold_order hold now input.items); pure (held order))
      (λ e. do result ← after_failed_hold hold.idempotency_key e; pure (replayed result))

abbrev pub charge_request : Order → List ℕ → ChargeRequest
charge_request o phone = record {
  order_id = o.id;
  reference = o.reference;
  amount_cents = o.total_cents;
  currency = o.currency;
  phone = phone;
}

unfoldable pub started : Order → ChargeResult → CheckoutResult
started o charge = record {
  order_id = o.id;
  reference = o.reference;
  status = OrderStatus.awaiting_payment;
  total_cents = o.total_cents;
  currency = o.currency;
  expires_at = o.reserved_until;
  payment = some (record {
    gateway = gateway_name;
    gateway_ref = charge.gateway_ref;
    customer_message = or_text charge.customer_message default_message;
  });
  idempotent_replay = false;
}

-- what follows an accepted charge
unfoldable pub record_charge : CheckoutOutside → Order → List ℕ → ChargeResult → Exec CheckoutResult
record_charge outside order phone charge = do
  payment ← with_transaction (initiate_payment outside.payment_id order phone charge)
  call (schedule_reconcile payment.id 1)
  pure (started order charge)

-- other requests run while the gateway is asked
unfoldable pub ask_gateway : CheckoutOutside → Order → List ℕ → Exec ChargeResult
ask_gateway outside order phone = do
  with_transaction (Tx.modify outside.meanwhile)
  of_result (outside.charge (charge_request order phone))

-- the second `try`
unfoldable pub start_payment : CheckoutOutside → Order → List ℕ → Exec CheckoutResult
start_payment outside order phone = do
  call (schedule_order_expiry order.id order.reserved_until)
  charge ← ask_gateway outside order phone
  record_charge outside order phone charge

-- the second `catch`
unfoldable pub give_back : Order → ℕ → ℕ → Failure → Exec CheckoutResult
give_back order event_id now e = do
  quietly (with_transaction (release_order order.id TerminalStatus.failed now))
  call_quietly (cancel_order_expiry order.id)
  call_quietly (invalidate_event event_id)
  throw (if is_app_error e then e else error_503 "checkout_failed" true)

unfoldable pub after_hold : CheckoutOutside → Event → List ℕ → ℕ → HoldOutcome → Exec CheckoutResult
after_hold outside event phone now (replayed result) = pure result
after_hold outside event phone now (held order) = do
  call_quietly (invalidate_event event.id)
  try_catch (start_payment outside order phone) (give_back order event.id now)

-- `getEventRowBySlug` of src/services/events.service.ts
unfoldable pub get_event_row_by_slug : String → Exec Event
get_event_row_by_slug slug = do
  found ← gets (λ db. first (λ (e : Event). str_eq e.slug slug) db.events)
  of_option found not_found

-- `createCheckout` from the event on
unfoldable pub new_checkout :
    CheckoutOutside
    → CheckoutSettings
    → CheckoutInput
    → List ℕ
    → Option String
    → ℕ
    → Exec CheckoutResult
new_checkout outside settings input phone key now = do
  event ← get_event_row_by_slug input.event_slug
  throw_if (not (is_published event.status)) (conflict "event_not_on_sale" false)
  with_transaction (assert_hold_capacity settings.max_active_holds_per_phone phone)
  outcome ← try_hold (hold_input outside settings input event phone key now) input now
  after_hold outside event phone now outcome

-- createCheckout; `now` is the clock
unfoldable pub create_checkout :
    CheckoutOutside → CheckoutSettings → CheckoutInput → ℕ → Exec CheckoutResult
create_checkout outside settings input now = do
  with_transaction (check_basket input.items)
  phone ← of_result (normalize_phone input.buyer_phone)
  throw_if (not outside.is_configured) (error_503 "gateway_not_configured" false)
  let key = scoped_key outside.hash input
  existing ← gets (find_by_idempotency_key key)
  replay_or existing (new_checkout outside settings input phone key now)

-- cancelOrder
unfoldable pub cancel_order : String → ℕ → Exec OrderStatus
cancel_order reference now = do
  found ← gets (λ db. first (λ (o : Order). str_eq o.reference reference) db.orders)
  order ← of_option found bad_request
  throw_if (is_paid order.status) (conflict "order_already_paid" false)
  result ← with_transaction (release_order order.id TerminalStatus.cancelled now)
  call_quietly (cancel_order_expiry order.id)
  call_quietly (invalidate_event order.event_id)
  pure result.status
