-- ===== src/Tests/Buying.antt =====
-- The theorems on whole checkouts, at the shop with seats left.
use ticketing_app.Prelude.{◌+◌, ◌≡◌, refl, true, none, some, [], ◌∷◌, arith}
use ticketing_app.Schema.{Db, Order, fits_int4, tier_checks}
use ticketing_app.Store.{Failure, Result, ok, err, thrown}
use ticketing_app.Store.Exec.{World}
use ticketing_app.Inventory.Locking.{sort_for_locking}
use ticketing_app.Inventory.Reserve.{reserve_tier}
use ticketing_app.Inventory.Counters.Invariant.{IsConsistent}
use ticketing_app.Ledger.Record.{record_transition, record_each}
use ticketing_app.Checkout.Hold.{
  hold_order, reserve_requests, lines_of, insert_order, new_order, subtotal, insert_items,
  item_rows, order_created, inventory_reserved,
}
use ticketing_app.Checkout.Replay.{CheckoutInput}
use ticketing_app.Checkout.Create.{
  CheckoutOutside, CheckoutSettings, create_checkout, after_hold, held,
}
use ticketing_app.Checkout.Preview.{BuyerInput, check_distinct, preview_checkout, quote_basket}
use ticketing_app.Checkout.Quoted.{quote_of, quote_basket-preview_checkout}
use ticketing_app.Checkout.Starting.{create_checkout-IsConsistent}
use ticketing_app.Checkout.GivenBack.{SeatsAreBack, after_hold-SeatsAreBack}
use ticketing_app.Tests.Shop.{concert, waiting, world, after}
use ticketing_app.Tests.Checkout.{basket, open_shop, open_shop-IsConsistent, buyer}

abbrev request : CheckoutInput
request = record {
  event_slug = "concert";
  items = basket;
  buyer_name = "Otieno";
  buyer_email = "otieno@example.com";
  buyer_phone = 48 ∷ 55 ∷ 49 ∷ 50 ∷ 51 ∷ 52 ∷ 53 ∷ 54 ∷ 55 ∷ 56 ∷ [];
  idempotency_key = some "concert-basket";
  metadata = none;
  user_id = none;
  terms_version = none;
}

abbrev accepting : CheckoutOutside
accepting = record {
  is_configured = true;
  charge = λ _. ok (record { gateway_ref = "ws_CO_2"; customer_message = none });
  hash = λ key identity. key;
  order_id = 3;
  item_id = λ k. 13 + k;
  payment_id = 22;
  reference = "TKT-CCCCCCCC";
  meanwhile = λ db. db;
}

abbrev someone : BuyerInput
someone = record { name = "Otieno"; email = "otieno@example.com"; phone = [] }

abbrev settings : CheckoutSettings
settings = record { order_hold_minutes = 10; max_active_holds_per_phone = 3 }

abbrev open_world : World
open_world = record world { db = open_shop }

create_checkout-IsConsistent_example :
    IsConsistent (create_checkout accepting settings request 60 open_world).1.db
create_checkout-IsConsistent_example =
    create_checkout-IsConsistent accepting (λ db h. h) settings request 60 open_world
      ((omega arith), ((omega arith), tt)) open_shop-IsConsistent

unfoldable order_of : Result (Order × Db) → Order
order_of (ok (o, db)) = o
order_of (err e) = waiting

abbrev held_order : Order
held_order = order_of (hold_order buyer 60 basket open_shop)

abbrev held_shop : Db
held_shop = after (hold_order buyer 60 basket open_shop)

abbrev refusing : CheckoutOutside
refusing = record accepting { charge = λ _. err thrown }

after_hold-SeatsAreBack_example :
    SeatsAreBack open_shop
      (after_hold refusing concert [] 60 (held held_order) (record world { db = held_shop })).1.db
    × ((f : Failure) × ((after_hold refusing concert [] 60
            (held held_order)
            (record world { db = held_shop })).0
          ≡ err f))
unfolding after order_of hold_order reserve_requests sort_for_locking reserve_tier fits_int4
    tier_checks lines_of insert_order new_order subtotal insert_items item_rows record_transition
    order_created record_each inventory_reserved
after_hold-SeatsAreBack_example =
    after_hold-SeatsAreBack buyer 60 basket open_shop held_order held_shop
      ((omega arith), ((omega arith), tt)) open_shop-IsConsistent refl refusing concert [] thrown
      (record world { db = held_shop }) refl refl refl

quote_basket-preview_checkout_example :
    quote_basket "concert" basket open_world
    ≡ (quote_of (preview_checkout settings "concert" basket someone open_world).0, open_world)
quote_basket-preview_checkout_example =
    quote_basket-preview_checkout settings "concert" basket someone open_world
      (unfold check_distinct in refl)
