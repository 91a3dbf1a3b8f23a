-- ===== src/Inventory/Commit.antt =====
-- `commitOrder`: a settled payment turns the seats of an order into sold ones.
use ticketing_app.Prelude.{
  ℕ, ◌+◌, ◌-◌, Bool, true, false, Option, none, some, List, [], ◌∷◌, update_where, ◌&&◌, ◌||◌, not,
  if◌then◌else◌, ◌==◌,
}
use ticketing_app.Schema.{
  Db, Tier, Order, OrderItem, OrderStatus, LedgerEntity, EntityId, Transition, Json, Object,
  order_status_text, is_paid,
}
use ticketing_app.Schema.Objects
use ticketing_app.Store.{not_found}
use ticketing_app.Store.Tx.{Tx, pure, gets, modify, or_throw, ◌>>=◌, ◌>>◌}
use ticketing_app.Ledger.Record.{record_transition, record_each}
use ticketing_app.Inventory.Seats.{is_null}
use ticketing_app.Inventory.Locking.{sort_for_locking}
use ticketing_app.Inventory.Reserve.{update_tiers, update_each, room_guard}
use ticketing_app.Inventory.Release.{order_by_id, items_of}

pub record CommitResult : Type 0 where
  pub committed : Bool
  pub already_paid : Bool
  pub requires_refund : Bool

-- the hold stands: reserved → sold
unfoldable pub sell_held_row : ℕ → Tier → Tier
sell_held_row quantity t = record t {
  quantity_reserved = t.quantity_reserved - quantity;
  quantity_sold = t.quantity_sold + quantity;
}

-- the hold has lapsed: available → sold
unfoldable pub sell_row : ℕ → Tier → Tier
sell_row quantity t = record t { quantity_sold = t.quantity_sold + quantity }

unfoldable pub sell_held_items : List OrderItem → Tx Unit
sell_held_items = update_each sell_held_row

abbrev pub is_empty {ℓ} : {A : Type ℓ} → List A → Bool
is_empty [] = true
is_empty (_ ∷ _) = false

-- The result is `requiresRefund`: whether some item could not be taken.
unfoldable pub sell_lapsed_items : List OrderItem → Bool → Tx Bool
unfolding sell_row
sell_lapsed_items [] requires_refund = pure requires_refund
sell_lapsed_items (i ∷ is) requires_refund = do
  rows ← update_tiers (λ t. t.id == i.tier_id && room_guard i.quantity t) (sell_row i.quantity)
  sell_lapsed_items is (requires_refund || is_empty rows)

-- The loop over the sorted items: `holdLapsed` is the same for all of them.
unfoldable pub sell_items : Bool → List OrderItem → Tx Bool
sell_items true items = sell_lapsed_items items false
sell_items false items = sell_held_items items >> pure false

-- The `metadata` that `commitOrder` writes.
unfoldable pub paid_metadata : Bool → Option Object → Option Object
unfolding Objects.set
paid_metadata true metadata =
    some (Objects.set "refundRequired" (Json.bool true) (Objects.or_empty metadata))
paid_metadata false metadata = metadata

unfoldable pub mark_paid : ℕ → ℕ → Option Object → Db → Db
mark_paid id now metadata db = record db {
  orders =
      update_where (λ o. o.id == id)
        (λ o. record o {
          status = OrderStatus.paid;
          paid_at = some now;
          released_at = none;
          metadata = metadata;
        })
        db.orders;
}

unfoldable pub order_paid : Order → Bool → Bool → Transition
order_paid order hold_lapsed requires_refund = record {
  entity = LedgerEntity.order;
  entity_id = EntityId.row order.id;
  event = "order.paid";
  from_state = some (order_status_text order.status);
  to_state = "paid";
  actor = "system:settlement";
  order_id = some order.id;
  event_id = some order.event_id;
  amount_cents = some order.total_cents;
  detail =
      Object.field "holdLapsed" (Json.bool hold_lapsed)
        (Object.field "requiresRefund" (Json.bool requires_refund) Object.end);
}

unfoldable pub inventory_sold : Order → Bool → OrderItem → Transition
inventory_sold order hold_lapsed item = record {
  entity = LedgerEntity.inventory;
  entity_id = EntityId.row item.tier_id;
  event = "inventory.sold";
  from_state = some (if hold_lapsed then "available" else "reserved");
  to_state = "sold";
  actor = "system:settlement";
  order_id = some order.id;
  event_id = some order.event_id;
  amount_cents = none;
  detail =
      Object.field "quantity" (Json.num item.quantity)
        (Object.field "recoveredAfterLapse" (Json.bool hold_lapsed) Object.end);
}

-- What `commitOrder` does to an order that is not paid.
unfoldable pub commit_unpaid : Order → ℕ → Tx CommitResult
commit_unpaid order now = do
  items ← gets (items_of order.id)
  let hold_lapsed = not (is_null order.released_at)
  requires_refund ← sell_items hold_lapsed (sort_for_locking (λ i. i.tier_id) items)
  modify (mark_paid order.id now (paid_metadata requires_refund order.metadata))
  record_transition (order_paid order hold_lapsed requires_refund)
  record_each (inventory_sold order hold_lapsed) items
  pure (record { committed = true; already_paid = false; requires_refund = requires_refund })

-- commitOrder
unfoldable pub commit_order : ℕ → ℕ → Tx CommitResult
unfolding commit_unpaid
commit_order order_id now = do
  found ← gets (order_by_id order_id)
  order ← or_throw found not_found
  if is_paid order.status
      then pure (record { committed = false; already_paid = true; requires_refund = false })
      else commit_unpaid order now
