-- ===== src/Checkout/Hold.antt =====
-- The transaction of `createCheckout` that reserves the seats of a basket and creates the order.
-- The ids of the new rows and the order's reference are given.
use ticketing_app.Prelude.{
  ℕ, suc, ◌+◌, ◌*◌, Bool, true, false, String, Option, none, some, List, [], ◌∷◌, ◌++◌, map, ◌&&◌,
  ◌||◌, if◌then◌else◌, leb, ◌==◌, not, first, all, insert, str_eq,
}
use ticketing_app.Schema.{
  Tier, Order, OrderItem, OrderStatus, LedgerEntity, EntityId, Transition, Json, Array, Object,
  int8_max,
}
use ticketing_app.Store.{thrown, pg, check_violation, unique_violation}
use ticketing_app.Store.Tx.{Tx, pure, throw_if, gets, modify, or_throw, ◌>>=◌, ◌>>◌}
use ticketing_app.Ledger.Record.{record_transition, record_each}
use ticketing_app.Inventory.Locking.{sort_for_locking}
use ticketing_app.Inventory.Reserve.{ReservationRequest, reserve_tier, explain_reservation_failure}
use ticketing_app.Checkout.Basket.{CheckoutItem, seen}

-- What the transaction knows of the caller and the event, and the new ids.
pub record HoldInput : Type 0 where
  pub order_id : ℕ
  pub item_id : ℕ → ℕ
  pub event_id : ℕ
  pub currency : String
  pub reference : String
  pub user_id : Option String
  pub buyer_name : String
  pub buyer_email : String
  pub buyer_phone : List ℕ
  pub reserved_until : ℕ
  pub idempotency_key : Option String
  pub terms_version : Option String
  pub metadata : Option Object

-- An entry of the map `reservedTiers`.
pub record ReservedTier : Type 0 where
  pub tier_id : ℕ
  pub name : String
  pub price_cents : ℕ

pub record Line : Type 0 where
  pub tier_id : ℕ
  pub tier_name : String
  pub quantity : ℕ
  pub unit_price_cents : ℕ
  pub subtotal_cents : ℕ

abbrev pub to_request : CheckoutItem → ReservationRequest
to_request i = record { tier_id = i.tier_id; quantity = i.quantity }

abbrev pub request_tier : ReservationRequest → ℕ
request_tier r = r.tier_id

-- `if (!tier) await explainReservationFailure(…)`
abbrev pub or_explain : ℕ → ReservationRequest → ℕ → Option Tier → Tx Tier
or_explain event_id request now (some t) = pure t
or_explain event_id request now none = explain_reservation_failure event_id request now

-- the loop over the sorted requests
unfoldable pub reserve_requests : ℕ → ℕ → List ReservationRequest → Tx (List ReservedTier)
reserve_requests event_id now [] = pure []
reserve_requests event_id now (r ∷ rs) = do
  found ← reserve_tier event_id r now
  tier ← or_explain event_id r now found
  rest ← reserve_requests event_id now rs
  pure (record { tier_id = r.tier_id; name = tier.name; price_cents = tier.price_cents } ∷ rest)

-- `reservedTiers.get(id)`: a tier is reserved once in a basket
abbrev pub reserved_tier : ℕ → List ReservedTier → Option ReservedTier
reserved_tier id rs = first (λ r. r.tier_id == id) rs

abbrev pub line_of : CheckoutItem → ReservedTier → Line
line_of i t = record {
  tier_id = i.tier_id;
  tier_name = t.name;
  quantity = i.quantity;
  unit_price_cents = t.price_cents;
  subtotal_cents = t.price_cents * i.quantity;
}

-- A tier that is missing from the map is `undefined`, and reading its name throws.
unfoldable pub lines_of : List ReservedTier → List CheckoutItem → Tx (List Line)
lines_of reserved [] = pure []
lines_of reserved (i ∷ is) = do
  tier ← or_throw (reserved_tier i.tier_id reserved) thrown
  rest ← lines_of reserved is
  pure (line_of i tier ∷ rest)

unfoldable pub subtotal : List Line → ℕ
subtotal [] = 0
subtotal (l ∷ ls) = l.subtotal_cents + subtotal ls

unfoldable pub new_order : HoldInput → ℕ → List Line → Order
new_order input now lines = record {
  id = input.order_id;
  event_id = input.event_id;
  reference = input.reference;
  user_id = input.user_id;
  buyer_name = input.buyer_name;
  buyer_email = input.buyer_email;
  buyer_phone = input.buyer_phone;
  terms_version = input.terms_version;
  subtotal_cents = subtotal lines;
  fee_cents = 0;
  total_cents = subtotal lines;
  currency = input.currency;
  status = OrderStatus.pending;
  reserved_until = input.reserved_until;
  idempotency_key = input.idempotency_key;
  metadata = input.metadata;
  created_at = now;
  paid_at = none;
  released_at = none;
}

-- a key that is NULL is like no other
abbrev pub same_key : Option String → Option String → Bool
same_key (some k) (some l) = str_eq k l
same_key _ _ = false

-- the primary key, `orders_reference_key` and `orders_idempotency_key_key`
abbrev pub clashes : Order → Order → Bool
clashes o p =
    p.id == o.id || str_eq p.reference o.reference || same_key p.idempotency_key o.idempotency_key

abbrev pub none_clash : Order → List Order → Bool
none_clash o os = all (λ p. not (clashes o p)) os

-- the `bigint` columns of amounts
abbrev pub order_fits : Order → Bool
order_fits o = leb o.subtotal_cents int8_max && leb o.total_cents int8_max

unfoldable pub insert_order : Order → Tx Unit
insert_order o = do
  throw_if (not (order_fits o)) (pg "22003")
  orders ← gets (λ db. db.orders)
  throw_if (not (none_clash o orders)) unique_violation
  modify (λ db. record db { orders = insert o db.orders })

-- the rows of `order_items`, from the k-th on
unfoldable pub item_rows : HoldInput → ℕ → List Line → List OrderItem
item_rows input k [] = []
item_rows input k (l ∷ ls) =
    record {
      id = input.item_id k;
      order_id = input.order_id;
      tier_id = l.tier_id;
      tier_name = l.tier_name;
      quantity = l.quantity;
      unit_price_cents = l.unit_price_cents;
      subtotal_cents = l.subtotal_cents;
    }
    ∷ item_rows input (suc k) ls

-- the `bigint` column of an item
abbrev pub item_fits : OrderItem → Bool
item_fits i = leb i.subtotal_cents int8_max

-- `order_items_quantity_positive`
abbrev pub item_checks : OrderItem → Bool
item_checks i = leb 1 i.quantity

-- `order_items_order_id_tier_id_key`, among the rows of one order
abbrev pub tiers_differ : List ℕ → List OrderItem → Bool
tiers_differ before [] = true
tiers_differ before (i ∷ is) =
    if seen i.tier_id before then false else tiers_differ (i.tier_id ∷ before) is

unfoldable pub insert_items : List OrderItem → Tx Unit
insert_items rows = do
  throw_if (not (all item_fits rows)) (pg "22003")
  throw_if (not (all item_checks rows)) check_violation
  throw_if (not (tiers_differ [] rows)) unique_violation
  modify (λ db. record db { items = db.items ++ rows })

lines_json : List Line → Array
lines_json [] = Array.nil
lines_json (l ∷ ls) =
    Array.cons
      (Json.obj (
        Object.field "tierId" (Json.num l.tier_id) (
          Object.field "tierName" (Json.text l.tier_name) (
            Object.field "quantity" (Json.num l.quantity)
              (Object.field "unitPriceCents" (Json.num l.unit_price_cents) Object.end)))))
      (lines_json ls)

unfoldable pub order_created : Order → List Line → Transition
unfolding lines_json
order_created order lines = record {
  entity = LedgerEntity.order;
  entity_id = EntityId.row order.id;
  event = "order.created";
  from_state = none;
  to_state = "pending";
  actor = "system:checkout";
  order_id = some order.id;
  event_id = some order.event_id;
  amount_cents = some order.subtotal_cents;
  detail =
      Object.field "reference" (Json.text order.reference)
        (Object.field "items" (Json.arr (lines_json lines)) Object.end);
}

unfoldable pub inventory_reserved : Order → Line → Transition
inventory_reserved order line = record {
  entity = LedgerEntity.inventory;
  entity_id = EntityId.row line.tier_id;
  event = "inventory.reserved";
  from_state = some "available";
  to_state = "reserved";
  actor = "system:checkout";
  order_id = some order.id;
  event_id = some order.event_id;
  amount_cents = none;
  detail =
      Object.field "quantity" (Json.num line.quantity)
        (Object.field "tierName" (Json.text line.tier_name) Object.end);
}

-- the part of the transaction that inserts the order
unfoldable pub create_order : HoldInput → ℕ → List Line → Tx Order
create_order input now lines = do
  let order = new_order input now lines
  insert_order order
  insert_items (item_rows input 0 lines)
  record_transition (order_created order lines)
  record_each (inventory_reserved order) lines
  pure order

-- the transaction that holds the inventory
unfoldable pub hold_order : HoldInput → ℕ → List CheckoutItem → Tx Order
unfolding create_order
hold_order input now items = do
  reserved ←
      reserve_requests input.event_id now (sort_for_locking request_tier (map to_request items))
  lines ← lines_of reserved items
  create_order input now lines
