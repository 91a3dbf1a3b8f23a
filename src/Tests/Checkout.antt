-- ===== src/Tests/Checkout.antt =====
-- The theorem on holds at a shop with seats left.
use ticketing_app.Prelude.{◌+◌, refl, none, some, List, [], ◌∷◌, arith}
use ticketing_app.Schema.{Db, Tier, fits_int4, tier_checks, no_oversell, order_bounds}
use ticketing_app.Inventory.Seats.{is_holding_inventory}
use ticketing_app.Inventory.Locking.{sort_for_locking, sum_for}
use ticketing_app.Inventory.Reserve.{reserve_tier}
use ticketing_app.Ledger.Record.{record_transition, record_each}
use ticketing_app.Schema.Objects.{refund_required}
use ticketing_app.Inventory.Counters.Sums.{order_seats}
use ticketing_app.Inventory.Counters.Invariant.{IsConsistent, is_admitting, is_accounted}
use ticketing_app.Checkout.Basket.{CheckoutItem}
use ticketing_app.Checkout.Hold.{
  HoldInput, hold_order, reserve_requests, lines_of, insert_order, new_order, subtotal,
  insert_items, item_rows, order_created, inventory_reserved,
}
use ticketing_app.Checkout.Consistency.{hold_order-IsConsistent}
use ticketing_app.Tests.Shop.{standard, shop, after}

abbrev pub basket : List CheckoutItem
basket = record { tier_id = 8; quantity = 2 } ∷ record { tier_id = 7; quantity = 1 } ∷ []

abbrev pub vip : Tier
vip = record standard {
  id = 8;
  name = "VIP";
  quantity_total = none;
  quantity_reserved = 0;
  quantity_sold = 0;
}

-- Two tiers with seats left.
abbrev pub open_shop : Db
open_shop = record shop { tiers = record standard { quantity_total = some 10 } ∷ vip ∷ [] }

pub open_shop-IsConsistent : IsConsistent open_shop
unfolding order_seats sum_for is_holding_inventory is_admitting is_accounted fits_int4 tier_checks
    no_oversell order_bounds refund_required
open_shop-IsConsistent = record {
  order_ids = (((omega arith), tt), (tt, tt));
  tier_ids = (((omega arith), tt), (tt, tt));
  storable = ((refl, refl), ((refl, refl), tt));
  reserved = (refl, (refl, tt));
  sold = ((omega arith), ((omega arith), tt));
  accounted = (refl, (refl, tt));
}

abbrev pub buyer : HoldInput
buyer = record {
  order_id = 3;
  item_id = λ k. 13 + k;
  event_id = 1;
  currency = "KES";
  reference = "TKT-CCCCCCCC";
  user_id = none;
  buyer_name = "Otieno";
  buyer_email = "otieno@example.com";
  buyer_phone = [];
  reserved_until = 660;
  idempotency_key = none;
  terms_version = none;
  metadata = none;
}

hold_order-IsConsistent_example : IsConsistent (after (hold_order buyer 60 basket open_shop))
unfolding after hold_order reserve_requests sort_for_locking reserve_tier fits_int4 tier_checks
    lines_of insert_order new_order subtotal insert_items item_rows record_transition order_created
    record_each inventory_reserved
hold_order-IsConsistent_example =
    hold_order-IsConsistent buyer 60 basket open_shop
      {db' = after (hold_order buyer 60 basket open_shop)} ((omega arith), ((omega arith), tt))
      open_shop-IsConsistent refl
