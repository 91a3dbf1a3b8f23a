-- ===== src/Inventory/Release.antt =====
-- `releaseOrder`: returns the held seats of an order to the pool.
use ticketing_app.Prelude.{
  ℕ, ◌-◌, String, Bool, true, false, Option, none, some, List, [], ◌∷◌, select, first, update_where,
  if◌then◌else◌, ◌==◌,
}
use ticketing_app.Schema.{
  Db, Tier, Order, OrderItem, OrderStatus, LedgerEntity, EntityId, Transition, Json, Array, Object,
  order_status_text,
}
use ticketing_app.Store.{not_found}
use ticketing_app.Store.Tx.{Tx, pure, gets, modify, or_throw, ◌>>=◌, ◌>>◌}
use ticketing_app.Ledger.Record.{record_transition, record_each}
use ticketing_app.Inventory.Seats.{is_holding_inventory}
use ticketing_app.Inventory.Locking.{sort_for_locking}
use ticketing_app.Inventory.Reserve.{update_each}

-- Extract<OrderStatus, 'expired' | 'failed' | 'cancelled'>
pub data TerminalStatus : Type 0 where
  expired failed cancelled : TerminalStatus

abbrev pub to_status : TerminalStatus → OrderStatus
to_status TerminalStatus.expired = OrderStatus.expired
to_status TerminalStatus.failed = OrderStatus.failed
to_status TerminalStatus.cancelled = OrderStatus.cancelled

-- `order.${terminalStatus}`
abbrev released_event : TerminalStatus → String
released_event TerminalStatus.expired = "order.expired"
released_event TerminalStatus.failed = "order.failed"
released_event TerminalStatus.cancelled = "order.cancelled"

pub record ReleaseResult : Type 0 where
  pub released : Bool
  pub status : OrderStatus

abbrev pub order_by_id : ℕ → Db → Option Order
order_by_id id db = first (λ o. o.id == id) db.orders

abbrev pub items_of : ℕ → Db → List OrderItem
items_of id db = select (λ i. i.order_id == id) db.items

-- `GREATEST(quantity_reserved - quantity, 0)`, which is subtraction of natural numbers
unfoldable pub release_row : ℕ → Tier → Tier
release_row quantity t = record t { quantity_reserved = t.quantity_reserved - quantity }

-- the loop over the sorted items
unfoldable pub release_items : List OrderItem → Tx Unit
release_items = update_each release_row

seats_returned : List OrderItem → Array
seats_returned [] = Array.nil
seats_returned (i ∷ is) =
    Array.cons
      (Json.obj (
        Object.field "tierId" (Json.num i.tier_id)
          (Object.field "quantity" (Json.num i.quantity) Object.end)))
      (seats_returned is)

unfoldable pub order_released : Order → TerminalStatus → List OrderItem → Transition
unfolding seats_returned
order_released order terminal items = record {
  entity = LedgerEntity.order;
  entity_id = EntityId.row order.id;
  event = released_event terminal;
  from_state = some (order_status_text order.status);
  to_state = order_status_text (to_status terminal);
  actor = "system:release";
  order_id = some order.id;
  event_id = some order.event_id;
  amount_cents = some order.total_cents;
  detail = Object.field "seatsReturned" (Json.arr (seats_returned items)) Object.end;
}

unfoldable pub inventory_released : Order → TerminalStatus → OrderItem → Transition
inventory_released order terminal item = record {
  entity = LedgerEntity.inventory;
  entity_id = EntityId.row item.tier_id;
  event = "inventory.released";
  from_state = some "reserved";
  to_state = "available";
  actor = "system:release";
  order_id = some order.id;
  event_id = some order.event_id;
  amount_cents = none;
  detail =
      Object.field "quantity" (Json.num item.quantity)
        (Object.field "reason" (Json.text (order_status_text (to_status terminal))) Object.end);
}

unfoldable pub mark_released : ℕ → OrderStatus → ℕ → Db → Db
mark_released id status now db = record db {
  orders =
      update_where (λ o. o.id == id) (λ o. record o { status = status; released_at = some now })
        db.orders;
}

-- What `releaseOrder` does to an order that holds seats.
unfoldable pub release_held : Order → TerminalStatus → ℕ → Tx ReleaseResult
release_held order terminal now = do
  items ← gets (items_of order.id)
  release_items (sort_for_locking (λ i. i.tier_id) items)
  modify (mark_released order.id (to_status terminal) now)
  record_transition (order_released order terminal items)
  record_each (inventory_released order terminal) items
  pure (record { released = true; status = to_status terminal })

-- releaseOrder; `now` is the clock, and the `Tx` is the body of its `withTransaction`
unfoldable pub release_order : ℕ → TerminalStatus → ℕ → Tx ReleaseResult
unfolding release_held
release_order order_id terminal now = do
  found ← gets (order_by_id order_id)
  order ← or_throw found not_found
  if is_holding_inventory order
      then release_held order terminal now
      else pure (record { released = false; status = order.status })
