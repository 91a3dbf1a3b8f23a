-- ===== src/Checkout/Starting.antt =====
-- From a consistent database to a consistent database, over the whole of `createCheckout`.
use ticketing_app.Prelude.{
  ℕ, ◌≡◌, ◌≢◌, refl, ap, false, String, ltb, not, arith, Option, none, some, List, [], ◌∷◌, All,
  All-mono, All-append, inl, inr, sym, ◌∙◌,
}
use mathlib.Core.Path.{subst}
use ticketing_app.Schema.{Db, Event, Order, OrderItem, is_published}
use ticketing_app.Store.{Failure, Result, ok, err, bad_request, conflict, error_503, Result-cases}
use ticketing_app.Store.Tx
use ticketing_app.Store.Tx.{>>=-eq-ok}
use ticketing_app.Store.Exec.{
  World, Exec, continue, throw_if, of_result, gets, with_transaction, ◌>>=◌,
}
use ticketing_app.Store.Keeps.{TxKeeps, Keeps, keeps_rules, Turns, Turns-bind}
use ticketing_app.Phone.{normalize_phone}
use ticketing_app.Inventory.Counters.Invariant.{IsConsistent}
use ticketing_app.Checkout.Basket.{
  CheckoutItem, seen, check_items, check_basket, assert_hold_capacity,
}
use ticketing_app.Checkout.Hold.{HoldInput, hold_order, new_order}
use ticketing_app.Checkout.Consistency.{hold_order-Held, hold_order-IsConsistent}
use ticketing_app.Checkout.Replay.{
  CheckoutInput, CheckoutResult, scoped_key, find_by_idempotency_key, replay_or,
  build_replay_result,
}
use ticketing_app.Checkout.Create.{
  CheckoutOutside, CheckoutSettings, HoldOutcome, held, replayed, replay_lost_race,
  after_failed_hold, try_hold, after_hold, hold_input, get_event_row_by_slug, new_checkout,
  create_checkout,
}
use ticketing_app.Checkout.Keeping.{IsOpen, IsUnpaid, Keeps-after_hold}

-- Consistent, and no item has the id of the order to come.
pub record IsReady (id : ℕ) (db : Db) : Type 0 where
  pub consistent : IsConsistent db
  pub fresh : All (λ (i : OrderItem). i.order_id ≢ id) db.items

held-IsOpen :
    (input : CheckoutInput) (hold : HoldInput) (now : ℕ) (db : Db) {o : Order} {db' : Db}
    → IsReady hold.order_id db
    → hold_order hold now input.items db ≡ ok (o, db')
    → IsOpen hold.order_id db' × (o.id ≡ hold.order_id)
held-IsOpen input hold now db {o} {db'} r h =
    let d = hold_order-Held hold now input.items db h in
    (
      record {
        consistent = hold_order-IsConsistent hold now input.items db r.fresh r.consistent h;
        unpaid = subst (All (IsUnpaid hold.order_id)) (sym d.orders_are) (
            All-append (IsUnpaid hold.order_id) db.orders (new_order hold now d.lines ∷ [])
              (All-mono db.orders
                (λ (p : Order) (ne : p.id ≢ hold.order_id) (e : p.id ≡ hold.order_id).
                  absurd (ne e))
                d.new_id)
              ((λ _. (unfold new_order in refl)), tt));
      },
      ap (λ (p : Order). p.id) d.order_is ∙ (unfold new_order in refl),
    )

-- What the first `try` leaves.
abbrev AfterHold : ℕ → Result HoldOutcome → Db → Type 0
AfterHold id (ok (held o)) db = IsOpen id db × (o.id ≡ id)
AfterHold id (ok (replayed r)) db = IsConsistent db
AfterHold id (err e) db = IsConsistent db

Keeps-replay_lost_race :
    (o : Option Order) (e : Failure) → Keeps IsConsistent (replay_lost_race o e)
unfolding replay_lost_race build_replay_result
Keeps-replay_lost_race none e = search keeps_rules
Keeps-replay_lost_race (some o) e = search keeps_rules depth 8

Keeps-after_failed_hold :
    (key : Option String) (e : Failure) → Keeps IsConsistent (after_failed_hold key e)
unfolding after_failed_hold
Keeps-after_failed_hold key e = search (keeps_rules, Keeps-replay_lost_race) depth 8

replayed_after :
    (id : ℕ) (r : Result CheckoutResult) (w : World)
    → IsConsistent w.db
    → AfterHold id
        (continue r w (λ x w'. (ok (replayed x), w'))).0
        (continue r w (λ x w'. (ok (replayed x), w'))).1.db
replayed_after id (ok x) w c = c
replayed_after id (err e) w c = c

try_hold-AfterHold :
    (hold : HoldInput) (input : CheckoutInput) (now : ℕ) (w : World)
    → IsReady hold.order_id w.db
    → AfterHold hold.order_id (try_hold hold input now w).0 (try_hold hold input now w).1.db
unfolding try_hold
try_hold-AfterHold hold input now w r = elim (Result-cases (hold_order hold now input.items w.db)) [
  | inl ((o, db'), e) ↦ rw e (held-IsOpen input hold now w.db r e)
  | inr (x, e) ↦ rw e (
      replayed_after hold.order_id (after_failed_hold hold.idempotency_key x w).0
        (after_failed_hold hold.idempotency_key x w).1
        ((Keeps-after_failed_hold hold.idempotency_key x).at w r.consistent))
]

check_items_reads :
    (before : List ℕ) (items : List CheckoutItem) (db : Db) {r : Unit} {db' : Db}
    → check_items before items db ≡ ok (r, db')
    → db' ≡ db
unfolding check_items
check_items_reads before [] db h = ground (arith, h)
check_items_reads before (i ∷ is) db h =
    let s1 = >>=-eq-ok (Tx.throw_if (ltb i.quantity 1) bad_request) _ db h in
    let s2 = >>=-eq-ok (Tx.throw_if (seen i.tier_id before) bad_request) _ s1.0.1 s1.2 in
    let one : s1.0.1 ≡ db = ground (arith, s1.1) in
    let two : s2.0.1 ≡ s1.0.1 = ground (arith, s2.1) in
    check_items_reads (i.tier_id ∷ before) is s2.0.1 s2.2 ∙ two ∙ one

module _ {P : Db → Type 0} where
  TxKeeps-assert_hold_capacity :
      (cap : ℕ) (phone : List ℕ) → TxKeeps P (assert_hold_capacity cap phone)
  unfolding assert_hold_capacity
  TxKeeps-assert_hold_capacity cap phone = record {
    at = λ db r db' h e. let same : db' ≡ db = ground (arith, e) in subst P (sym same) h;
  }

  TxKeeps-check_basket : (items : List CheckoutItem) → TxKeeps P (check_basket items)
  unfolding check_basket
  TxKeeps-check_basket [] = record { at = λ db r db' h e. absurd (cc) }
  TxKeeps-check_basket (i ∷ is) = record {
    at = λ db r db' h e. subst P (sym (check_items_reads [] (i ∷ is) db e)) h;
  }

module _ (outside : CheckoutOutside)
    (meanwhile_keeps : (db : Db)
      → IsOpen outside.order_id db
      → IsOpen outside.order_id (outside.meanwhile db)) where
  after_hold-IsConsistent :
      (event : Event) (phone : List ℕ) (now : ℕ) (r : Result HoldOutcome) (w : World)
      → AfterHold outside.order_id r w.db
      → IsConsistent (continue r w (after_hold outside event phone now)).1.db
  unfolding after_hold
  after_hold-IsConsistent event phone now (ok (held o)) w h =
      let kept =
        (Keeps-after_hold outside.order_id outside event phone now o h.1 meanwhile_keeps).at w
          h.0 in
      kept.consistent
  after_hold-IsConsistent event phone now (ok (replayed r)) w h = h
  after_hold-IsConsistent event phone now (err e) w h = h

  hold_and_start :
      (hold : HoldInput) (input : CheckoutInput) (event : Event) (phone : List ℕ) (now : ℕ)
      → hold.order_id ≡ outside.order_id
      → Turns
          (IsReady outside.order_id)
          IsConsistent
          (try_hold hold input now >>= after_hold outside event phone now)
  hold_and_start hold input event phone now e = record {
    at = λ w r.
        after_hold-IsConsistent event phone now (try_hold hold input now w).0
          (try_hold hold input now w).1
          (subst (λ n. AfterHold n (try_hold hold input now w).0 (try_hold hold input now w).1.db) e
            (try_hold-AfterHold hold input now w (subst (λ n. IsReady n w.db) (sym e) r)));
  }

  new_checkout-Turns :
      (settings : CheckoutSettings) (input : CheckoutInput) (phone : List ℕ) (key : Option String)
      (now : ℕ)
      → Turns
          (IsReady outside.order_id)
          IsConsistent
          (new_checkout outside settings input phone key now)
  unfolding new_checkout get_event_row_by_slug
  new_checkout-Turns settings input phone key now =
      let weak : (db : Db) → IsReady outside.order_id db → IsConsistent db = λ db r. r.consistent in
      Turns-bind (get_event_row_by_slug input.event_slug) _ weak (search keeps_rules depth 8)
        (λ event.
          Turns-bind
            (throw_if (not (is_published event.status)) (conflict "event_not_on_sale" false)) _ weak
            (search keeps_rules)
            (λ _.
              Turns-bind
                (with_transaction (assert_hold_capacity settings.max_active_holds_per_phone phone))
                _ weak (search (keeps_rules, TxKeeps-assert_hold_capacity))
                (λ _.
                  hold_and_start (hold_input outside settings input event phone key now) input event
                    phone now refl)))

  replay_or-Turns :
      (o : Option Order) (rest : Exec CheckoutResult)
      → Turns (IsReady outside.order_id) IsConsistent rest
      → Turns (IsReady outside.order_id) IsConsistent (replay_or o rest)
  unfolding replay_or build_replay_result
  replay_or-Turns none rest k = k
  replay_or-Turns (some o) rest k = record { at = λ w r. r.consistent }

  -- From a consistent database, whatever the request, the gateway's answer and what other requests
  -- do in the meantime, as long as they keep it consistent and do not mark the new order paid, the
  -- checkout leaves a consistent database, whether it returns or throws. The id that the new order
  -- gets is that of no item yet.
  pub create_checkout-IsConsistent :
      (settings : CheckoutSettings) (input : CheckoutInput) (now : ℕ) (w : World)
      → All (λ (i : OrderItem). i.order_id ≢ outside.order_id) w.db.items
      → IsConsistent w.db
      → IsConsistent (create_checkout outside settings input now w).1.db
  unfolding create_checkout
  create_checkout-IsConsistent settings input now w fresh c =
      let weak : (db : Db) → IsReady outside.order_id db → IsConsistent db = λ db r. r.consistent in
      let turns =
        Turns-bind (with_transaction (check_basket input.items)) _ weak
          (search (keeps_rules, TxKeeps-check_basket))
          (λ _.
            Turns-bind (of_result (normalize_phone input.buyer_phone)) _ weak (search keeps_rules)
              (λ phone.
                Turns-bind
                  (throw_if (not outside.is_configured) (error_503 "gateway_not_configured" false))
                  _ weak (search keeps_rules)
                  (λ _.
                    Turns-bind (gets (find_by_idempotency_key (scoped_key outside.hash input))) _
                      weak (search keeps_rules)
                      (λ existing. replay_or-Turns existing _ (
                        new_checkout-Turns settings input phone (scoped_key outside.hash input)
                          now))))) in
      turns.at w (record { consistent = c; fresh = fresh })
