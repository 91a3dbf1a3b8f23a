-- ===== src/Checkout/Consistency.antt =====
-- Holding an order's seats keeps the counters consistent.
use mathlib.Core.Path.{subst}
use ticketing_app.Prelude.{
  ℕ, ◌+◌, ◌≡◌, ◌≢◌, sym, ◌∙◌, ap, Bool, true, List, [], ◌∷◌, ◌++◌, map, all-cons, if◌then◌else◌,
  not, arith, All, All-append, All-mono, All-zip, insert, ==_iff,
}
use ticketing_app.Schema.{Db, Tier, Order, OrderItem}
use ticketing_app.Store.{ok}
use ticketing_app.Store.Tx.{>>=-eq-ok}
use ticketing_app.Inventory.Seats.{is_holding_inventory}
use ticketing_app.Inventory.Locking.{sort_for_locking, sum_for, sum_for-sort_for_locking}
use ticketing_app.Inventory.Reserve.{ReservationRequest}
use ticketing_app.Inventory.Counters.Sums.{OrderIdsUnique}
use ticketing_app.Inventory.Counters.Rows.{IsStorable}
use ticketing_app.Inventory.Counters.Lapsed.{TierIdsUnique, All-map, map-TierIdsUnique}
use ticketing_app.Inventory.Counters.Invariant.{
  IsConsistent, is_admitting, seats_held, seats_admitted, ReservedIsHeld, SoldCoversAdmitted,
}
use ticketing_app.Checkout.Basket.{CheckoutItem}
use ticketing_app.Checkout.Hold.{
  HoldInput, Line, to_request, request_tier, reserve_requests, lines_of, new_order, none_clash,
  clashes, item_rows, hold_order,
}
use ticketing_app.Checkout.Reserving.{
  request_quantity, requested, each_reserved, each_reserved-keeps, reserve_requests_lem,
}
use ticketing_app.Checkout.Created.{
  line_tier, line_quantity, requested_basket, lines_of_lem, create_order_lem, new_order-holding,
  new_order-not-admitting, new_order-accounted, order_rows, order_seats-insert,
}

abbrev pub sorted_requests : List CheckoutItem → List ReservationRequest
sorted_requests items = sort_for_locking request_tier (map to_request items)

none_clash-fresh :
    (o : Order) (os : List Order) → none_clash o os ≡ true → All (λ (p : Order). p.id ≢ o.id) os
none_clash-fresh o [] h = tt
none_clash-fresh o (p ∷ os) h =
    let both = all-cons (λ (q : Order). not (clashes o q)) p os h in
    (
      (λ (e : p.id ≡ o.id). absurd (ground (arith, both.0, (==_iff p.id o.id).1 e))),
      none_clash-fresh o os both.1,
    )

insert-OrderIdsUnique :
    (o : Order) (os : List Order)
    → All (λ (p : Order). p.id ≢ o.id) os
    → OrderIdsUnique os
    → OrderIdsUnique (insert o os)
insert-OrderIdsUnique o [] h u = (tt, tt)
insert-OrderIdsUnique o (p ∷ os) h u = (
  All-append (λ (q : Order). q.id ≢ p.id) os (o ∷ []) u.0 ((λ (e : o.id ≡ p.id). h.0 (sym e)), tt),
  insert-OrderIdsUnique o os h.1 u.1,
)

module _ (input : HoldInput) (now : ℕ) (lines : List Line) (g : Tier → Tier) (db db' : Db)
    (tiers_e : db'.tiers ≡ map g db.tiers)
    (orders_e : db'.orders ≡ insert (new_order input now lines) db.orders)
    (items_e : db'.items ≡ db.items ++ item_rows input 0 lines)
    (fresh : All (λ (i : OrderItem). i.order_id ≢ input.order_id) db.items)
    (new_id : All (λ (o : Order). o.id ≢ input.order_id) db.orders) where
  pub held_more :
      (tier : ℕ)
      → seats_held db' tier ≡ seats_held db tier + sum_for line_tier line_quantity tier lines
  unfolding order_rows
  held_more tier =
      rw (orders_e, items_e)
        (order_seats-insert input now lines db.items fresh tier is_holding_inventory db.orders
            new_id
          ∙ ap
              (λ (b : Bool).
                seats_held db tier + (if b then sum_for line_tier line_quantity tier lines else 0))
              (new_order-holding input now lines))

  admitted_same : (tier : ℕ) → seats_admitted db' tier ≡ seats_admitted db tier
  unfolding order_rows
  admitted_same tier =
      rw (orders_e, items_e)
        (order_seats-insert input now lines db.items fresh tier is_admitting db.orders new_id
          ∙ ap
              (λ (b : Bool).
                seats_admitted db tier
                + (if b then sum_for line_tier line_quantity tier lines else 0))
              (new_order-not-admitting input now lines)
          ∙ omega arith)

  -- A database with the new order, its rows, and the seats of its lines reserved is consistent.
  created-IsConsistent :
      ((t : Tier) → ((g t).id ≡ t.id) × ((g t).quantity_sold ≡ t.quantity_sold))
      → All
          (λ (t : Tier).
            (g t).quantity_reserved
            ≡ t.quantity_reserved + sum_for line_tier line_quantity t.id lines)
          db.tiers
      → All IsStorable db'.tiers
      → IsConsistent db
      → IsConsistent db'
  created-IsConsistent keeps sums storable c = record {
    order_ids = rw orders_e (
        insert-OrderIdsUnique (new_order input now lines) db.orders (unfold new_order in new_id)
          c.order_ids);
    tier_ids = rw tiers_e (map-TierIdsUnique g (λ t. (keeps t).0) db.tiers c.tier_ids);
    storable = storable;
    reserved =
        rw tiers_e
          (All-map (ReservedIsHeld db') g db.tiers (All-zip db.tiers reserved_row c.reserved sums));
    sold =
        rw tiers_e
          (All-map (SoldCoversAdmitted db') g db.tiers (All-mono db.tiers sold_row c.sold));
    accounted = rw orders_e (
        All-append _ db.orders (new_order input now lines ∷ []) c.accounted
          (new_order-accounted input now lines, tt));
  }
    where
      reserved_row :
          (t : Tier)
          → ReservedIsHeld db t
          → (g t).quantity_reserved
            ≡ t.quantity_reserved + sum_for line_tier line_quantity t.id lines
          → ReservedIsHeld db' (g t)
      reserved_row t h s =
          let same = ap (seats_held db') (keeps t).0 in omega (arith, held_more t.id)

      sold_row : (t : Tier) → SoldCoversAdmitted db t → SoldCoversAdmitted db' (g t)
      sold_row t h =
          let same = ap (seats_admitted db') (keeps t).0 in
          let unsold = (keeps t).1 in omega (arith, admitted_same t.id)

-- What a hold that does not fail has done.
pub record Held (input : HoldInput) (now : ℕ) (items : List CheckoutItem) (db : Db) (o : Order)
    (db' : Db) : Type 0 where
  pub lines : List Line
  pub order_is : o ≡ new_order input now lines
  pub tiers_are :
      db'.tiers ≡ map (each_reserved input.event_id now (sorted_requests items)) db.tiers
  pub orders_are : db'.orders ≡ insert (new_order input now lines) db.orders
  pub items_are : db'.items ≡ db.items ++ item_rows input 0 lines
  pub payments_are : db'.payments ≡ db.payments
  pub new_id : All (λ (p : Order). p.id ≢ input.order_id) db.orders
  pub reserves :
      TierIdsUnique db.tiers
      → All
          (λ (t : Tier).
            (each_reserved input.event_id now (sorted_requests items) t).quantity_reserved
            ≡ t.quantity_reserved + sum_for line_tier line_quantity t.id lines)
          db.tiers
  pub storable : All IsStorable db.tiers → All IsStorable db'.tiers

pub hold_order-Held :
    (input : HoldInput) (now : ℕ) (items : List CheckoutItem) (db : Db) {o : Order} {db' : Db}
    → hold_order input now items db ≡ ok (o, db')
    → Held input now items db o db'
unfolding hold_order
hold_order-Held input now items db {o} {db'} h =
    let requests = sorted_requests items in
    let s1 = >>=-eq-ok (reserve_requests input.event_id now requests) _ db h in
    let s2 = >>=-eq-ok (lines_of s1.0.0 items) _ s1.0.1 s1.2 in
    let lines = s2.0.0 in
    let taken = reserve_requests_lem input.event_id now requests db s1.1 in
    let read = lines_of_lem s1.0.0 items s1.0.1 s2.1 in
    let before : s2.0.1
        ≡ record db { tiers = map (each_reserved input.event_id now requests) db.tiers } =
      read.0 ∙ taken.0 in
    let made = create_order_lem input now lines s2.0.1 s2.2 in
    let clear =
      ap (λ (d : Db). none_clash (new_order input now lines) d.orders) (sym before) ∙ made.3 in
    let same_seats : (tier : ℕ)
        → requested tier requests ≡ sum_for line_tier line_quantity tier lines =
      λ tier.
        sum_for-sort_for_locking request_tier request_quantity tier (map to_request items)
        ∙ requested_basket tier items
        ∙ sym (read.1 tier) in
    record {
      lines = lines;
      order_is = made.4;
      tiers_are = made.0 ∙ ap (λ (d : Db). d.tiers) before;
      orders_are = made.1 ∙ ap (λ (d : Db). insert (new_order input now lines) d.orders) before;
      items_are = made.2 ∙ ap (λ (d : Db). d.items ++ item_rows input 0 lines) before;
      payments_are = made.5 ∙ ap (λ (d : Db). d.payments) before;
      new_id = (unfold new_order in none_clash-fresh (new_order input now lines) db.orders clear);
      reserves = λ u.
          All-mono db.tiers
            (λ t
                (k : (each_reserved input.event_id now requests t).quantity_reserved
                  ≡ t.quantity_reserved + requested t.id requests).
              k ∙ ap (λ n. t.quantity_reserved + n) (same_seats t.id))
            (taken.2 u);
      storable =
          λ s. subst (All IsStorable) (sym (made.0 ∙ ap (λ (d : Db). d.tiers) read.0)) (taken.1 s);
    }

-- From a consistent database, a hold that does not fail leaves a consistent database: what it takes
-- off each tier is what the new order holds. The new order's id is that of no item yet.
pub hold_order-IsConsistent :
    (input : HoldInput) (now : ℕ) (items : List CheckoutItem) (db : Db) {o : Order} {db' : Db}
    → All (λ (i : OrderItem). i.order_id ≢ input.order_id) db.items
    → IsConsistent db
    → hold_order input now items db ≡ ok (o, db')
    → IsConsistent db'
hold_order-IsConsistent input now items db {o} {db'} fresh c h =
    let d = hold_order-Held input now items db h in
    created-IsConsistent input now d.lines
      (each_reserved input.event_id now (sorted_requests items)) db db' d.tiers_are d.orders_are
      d.items_are fresh d.new_id (each_reserved-keeps input.event_id now (sorted_requests items))
      (d.reserves c.tier_ids) (d.storable c.storable) c
