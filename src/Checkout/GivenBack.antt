-- ===== src/Checkout/GivenBack.antt =====
-- A checkout whose charge fails gives its seats back at once.
use mathlib.Core.Path.{subst}
use ticketing_app.Prelude.{
  ℕ, ◌≡◌, ◌≢◌, refl, sym, ap, ◌∙◌, true, some, List, [], ◌∷◌, ◌++◌, first, insert, ◌==◌, arith, All,
  All-mono, ==_refl, inl, inr, Bool-cases,
}
use ticketing_app.Schema.{Db, Tier, Event, Order, OrderItem}
use ticketing_app.Store.{Failure, ok, err, thrown}
use ticketing_app.Store.Exec.{World}
use ticketing_app.Inventory.Seats.{is_holding_inventory}
use ticketing_app.Inventory.Locking.{sum_for}
use ticketing_app.Inventory.Release.{TerminalStatus, order_by_id}
use ticketing_app.Inventory.Counters.Sums.{seats_in}
use ticketing_app.Inventory.Counters.Invariant.{IsConsistent, seats_held, ReservedIsHeld}
use ticketing_app.Inventory.Counters.Releasing.{
  after_release, held_falls, release_order-IsConsistent,
}
use ticketing_app.Inventory.Counters.Returning.{release_order-returns}
use ticketing_app.Checkout.Basket.{CheckoutItem}
use ticketing_app.Checkout.Hold.{HoldInput, hold_order, new_order, item_rows}
use ticketing_app.Checkout.Created.{
  line_tier, line_quantity, new_order-holding, seats_in-new, order_rows,
}
use ticketing_app.Checkout.Consistency.{
  hold_order-Held, hold_order-IsConsistent, held_more, sorted_requests,
}
use ticketing_app.Checkout.Reserving.{each_reserved}
use ticketing_app.Checkout.Create.{
  CheckoutOutside, charge_request, held, give_back, ask_gateway, start_payment, after_hold,
}

first-insert :
    (id : ℕ) (o : Order) (os : List Order)
    → o.id ≡ id
    → All (λ (p : Order). p.id ≢ id) os
    → first (λ (p : Order). p.id == id) (insert o os) ≡ some o
first-insert id o [] e h = rw (e, ==_refl id) refl
first-insert id o (p ∷ os) e h = ground (arith, h.0, first-insert id o os e h.1)

-- The tiers' counters are those of the orders of `before`.
abbrev pub SeatsAreBack : Db → Db → Type 0
SeatsAreBack before db = All (λ (t : Tier). t.quantity_reserved ≡ seats_held before t.id) db.tiers

module _ (hold : HoldInput) (now : ℕ) (items : List CheckoutItem) (db : Db) (o : Order) (db1 : Db)
    (fresh : All (λ (i : OrderItem). i.order_id ≢ hold.order_id) db.items) (c : IsConsistent db)
    (h : hold_order hold now items db ≡ ok (o, db1)) where
  order_id_is : o.id ≡ hold.order_id
  order_id_is =
      ap (λ (p : Order). p.id) (hold_order-Held hold now items db h).order_is
      ∙ (unfold new_order in refl)

  found_held : order_by_id o.id db1 ≡ some o
  found_held =
      let d = hold_order-Held hold now items db h in
      let orders_e : db1.orders ≡ insert o db.orders =
        d.orders_are ∙ ap (λ (p : Order). insert p db.orders) (sym d.order_is) in
      subst (λ (os : List Order). first (λ (p : Order). p.id == o.id) os ≡ some o) (sym orders_e)
        (first-insert o.id o db.orders refl
          (subst (λ n. All (λ (p : Order). p.id ≢ n) db.orders) (sym order_id_is) d.new_id))

  held_holding : is_holding_inventory o ≡ true
  held_holding =
      let d = hold_order-Held hold now items db h in
      rw d.order_is (new_order-holding hold now d.lines)

  seats_back_of :
      (tier : ℕ)
      → seats_held (after_release o TerminalStatus.failed now db1) tier ≡ seats_held db tier
  seats_back_of tier =
      let d = hold_order-Held hold now items db h in
      let c1 = hold_order-IsConsistent hold now items db fresh c h in
      let more =
        held_more hold now d.lines (each_reserved hold.event_id now (sorted_requests items)) db db1
          d.tiers_are d.orders_are d.items_are fresh d.new_id tier in
      let fewer = held_falls o TerminalStatus.failed now db1 c1 found_held held_holding tier in
      let seats : seats_in db1.items o.id tier ≡ sum_for line_tier line_quantity tier d.lines =
        ap (λ (is : List OrderItem). seats_in is o.id tier) d.items_are
        ∙ ap (λ n. seats_in (db.items ++ item_rows hold 0 d.lines) n tier) order_id_is
        ∙ (unfold order_rows in seats_in-new hold now d.lines db.items fresh tier) in
      omega (arith, more, fewer, seats)

  released_back : SeatsAreBack db (after_release o TerminalStatus.failed now db1)
  released_back =
      let c1 = hold_order-IsConsistent hold now items db fresh c h in
      let r =
        release_order-returns o.id TerminalStatus.failed now db1 o c1 found_held held_holding in
      let c2 = release_order-IsConsistent o.id TerminalStatus.failed now db1 c1 r in
      All-mono (after_release o TerminalStatus.failed now db1).tiers
        (λ (t : Tier) (k : ReservedIsHeld (after_release o TerminalStatus.failed now db1) t).
          k ∙ seats_back_of t.id)
        c2.reserved

  give_back-SeatsAreBack :
      (event_id : ℕ) (e : Failure) (w : World)
      → w.db ≡ db1
      → SeatsAreBack db (give_back o event_id now e w).1.db
        × ((f : Failure) × ((give_back o event_id now e w).0 ≡ err f))
  unfolding give_back
  give_back-SeatsAreBack event_id e w at_db =
      let c1 = hold_order-IsConsistent hold now items db fresh c h in
      let r =
        release_order-returns o.id TerminalStatus.failed now db1 o c1 found_held held_holding in
      elim (Bool-cases w.redis_up) [
        | inl up ↦ rw (at_db, r, up) (released_back, (_, refl))
        | inr down ↦ rw (at_db, r, down) (released_back, (_, refl))
      ]

  -- From a consistent database, if an order has been held and the charge fails, while nobody else
  -- changes the database, the checkout throws, and every tier counts again exactly what the orders
  -- before it held, whether or not Redis answers. The id of the order was that of no item yet.
  pub after_hold-SeatsAreBack :
      (outside : CheckoutOutside) (event : Event) (phone : List ℕ) (e : Failure) (w : World)
      → w.db ≡ db1
      → outside.meanwhile db1 ≡ db1
      → outside.charge (charge_request o phone) ≡ err e
      → SeatsAreBack db (after_hold outside event phone now (held o) w).1.db
        × ((f : Failure) × ((after_hold outside event phone now (held o) w).0 ≡ err f))
  unfolding after_hold start_payment ask_gateway
  after_hold-SeatsAreBack outside event phone e w at_db alone refused =
      elim (Bool-cases w.redis_up) [
        | inl up ↦ rw (up, at_db, alone, refused) (give_back-SeatsAreBack event.id e _ refl)
        | inr down ↦ rw (down, at_db) (give_back-SeatsAreBack event.id thrown _ refl)
      ]
