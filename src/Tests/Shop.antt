-- ===== src/Tests/Shop.antt =====
-- A shop with an order that waits for its payment and one that is paid.
use ticketing_app.Prelude.{ℕ, refl, true, none, some, List, [], ◌∷◌, arith}
use ticketing_app.Schema.{
  Db, Organisation, Event, EventStatus, Tier, TierStatus, Order, OrderStatus, OrderItem, Payment,
  PaymentStatus, Ticket, TicketStatus, fits_int4, tier_checks, no_oversell, order_bounds,
}
use ticketing_app.Store.{Result, ok, err}
use ticketing_app.Store.Exec.{World}
use ticketing_app.Codes.Generate.{generate_ticket_code}
use ticketing_app.Inventory.Seats.{is_holding_inventory}
use ticketing_app.Inventory.Locking.{sum_for}
use ticketing_app.Schema.Objects.{refund_required}
use ticketing_app.Inventory.Counters.Sums.{order_seats}
use ticketing_app.Inventory.Counters.Invariant.{IsConsistent, is_admitting, is_accounted}

abbrev pub organiser : Organisation
organiser = record { id = 1; slug = "eventify"; name = "Eventify"; verified_at = none }

abbrev pub concert : Event
concert = record {
  id = 1;
  organisation_id = 1;
  slug = "concert";
  name = "Concert";
  venue = none;
  currency = "KES";
  starts_at = 5000;
  ends_at = none;
  status = EventStatus.published;
  archived_at = none;
}

abbrev pub standard : Tier
standard = record {
  id = 7;
  event_id = 1;
  name = "Standard";
  price_cents = 150000;
  quantity_total = some 3;
  quantity_reserved = 2;
  quantity_sold = 1;
  min_per_order = 1;
  max_per_order = 4;
  sales_start_at = none;
  sales_end_at = none;
  status = TierStatus.active;
  sort_order = 0;
}

abbrev pub waiting : Order
waiting = record {
  id = 1;
  event_id = 1;
  reference = "TKT-AAAAAAAA";
  user_id = none;
  buyer_name = "Wanjiru";
  buyer_email = "wanjiru@example.com";
  buyer_phone = [];
  terms_version = none;
  subtotal_cents = 300000;
  fee_cents = 0;
  total_cents = 300000;
  currency = "KES";
  status = OrderStatus.awaiting_payment;
  reserved_until = 600;
  idempotency_key = none;
  metadata = none;
  created_at = 0;
  paid_at = none;
  released_at = none;
}

abbrev pub settled_before : Order
settled_before = record waiting {
  id = 2;
  reference = "TKT-BBBBBBBB";
  subtotal_cents = 150000;
  total_cents = 150000;
  status = OrderStatus.paid;
  paid_at = some 40;
}

abbrev pub two_seats : OrderItem
two_seats = record {
  id = 11;
  order_id = 1;
  tier_id = 7;
  tier_name = "Standard";
  quantity = 2;
  unit_price_cents = 150000;
  subtotal_cents = 300000;
}

abbrev pub one_seat : OrderItem
one_seat = record two_seats { id = 12; order_id = 2; quantity = 1; subtotal_cents = 150000 }

abbrev pub asked : Payment
asked = record {
  id = 21;
  order_id = 1;
  gateway = "mpesa";
  gateway_ref = "ws_CO_1";
  amount_cents = 300000;
  payer_phone = [];
  status = PaymentStatus.pending;
  result_code = none;
  result_desc = none;
  receipt = none;
  transaction_date = none;
  reconcile_attempts = 0;
  last_reconciled_at = none;
  claimed_at = none;
  settled_at = none;
}

abbrev pub bytes : List ℕ
bytes = 200 ∷ 31 ∷ 7 ∷ 64 ∷ 0 ∷ 1 ∷ 2 ∷ 3 ∷ 255 ∷ 128 ∷ 90 ∷ 17 ∷ []

abbrev pub badge : Ticket
badge = record {
  id = 31;
  event_id = 1;
  order_id = 2;
  order_item_id = 12;
  tier_id = 7;
  code = generate_ticket_code bytes;
  holder_name = some "Wanjiru";
  holder_email = none;
  status = TicketStatus.issued;
  checked_in_at = none;
  checked_in_by = none;
  sequence = 1;
}

abbrev pub shop : Db
shop = record {
  organisations = organiser ∷ [];
  members = record { organisation_id = 1; user_id = "achieng" } ∷ [];
  events = concert ∷ [];
  tiers = standard ∷ [];
  orders = waiting ∷ settled_before ∷ [];
  items = two_seats ∷ one_seat ∷ [];
  payments = asked ∷ [];
  tickets = badge ∷ [];
  webhooks = [];
  ledger = [];
}

abbrev pub world : World
world = record { db = shop; calls = []; redis_up = true }

pub shop-IsConsistent : IsConsistent shop
unfolding order_seats sum_for is_holding_inventory is_admitting is_accounted fits_int4 tier_checks
    no_oversell order_bounds refund_required
shop-IsConsistent = record {
  order_ids = (((omega arith), tt), (tt, tt));
  tier_ids = (tt, tt);
  storable = ((refl, refl), tt);
  reserved = (refl, tt);
  sold = ((omega arith), tt);
  accounted = (refl, (refl, tt));
}

unfoldable pub after : {A : Type 0} → Result (A × Db) → Db
after (ok (a, db)) = db
after (err e) = shop
