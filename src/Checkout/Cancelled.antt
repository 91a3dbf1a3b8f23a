-- ===== src/Checkout/Cancelled.antt =====
-- What `cancelOrder` does, whatever the order.
use ticketing_app.Prelude.{
  ℕ, ◌≡◌, ◌≢◌, refl, String, Bool, true, false, Option, none, some, List, [], ◌∷◌, first, str_eq,
  ◌==◌, arith, All-first, ==_refl, Bool-cases, Option-cases, inl, inr,
}
use ticketing_app.Schema.{Db, Order, OrderStatus, is_paid}
use ticketing_app.Store.{Result, ok, err, bad_request, conflict}
use ticketing_app.Store.Exec.{World}
use ticketing_app.Inventory.Seats.{is_holding_inventory}
use ticketing_app.Inventory.Release.{TerminalStatus, order_by_id}
use ticketing_app.Inventory.Counters.Sums.{OrderIdsUnique}
use ticketing_app.Inventory.Counters.Invariant.{IsConsistent}
use ticketing_app.Inventory.Counters.Releasing.{after_release}
use ticketing_app.Inventory.Counters.Returning.{release_order-returns, release_order-idle}
use ticketing_app.Checkout.Create.{cancel_order}

abbrev pub named_order : String → Db → Option Order
named_order reference db = first (λ (o : Order). str_eq o.reference reference) db.orders

-- What is answered, and what is left of the database: nothing changes for a reference of no order, a
-- paid order, which is denied, and an order that holds no seats, whose status is answered; an order
-- that holds seats is cancelled and gives them back.
pub data Cancels (reference : String) (now : ℕ) (db : Db) (answer : Result OrderStatus) (db' : Db)
    : Type 0 where
  unknown :
      named_order reference db ≡ none
      → answer ≡ err bad_request
      → db' ≡ db
      → Cancels reference now db answer db'
  denied :
      (o : Order)
      → named_order reference db ≡ some o
      → is_paid o.status ≡ true
      → answer ≡ err (conflict "order_already_paid" false)
      → db' ≡ db
      → Cancels reference now db answer db'
  over :
      (o : Order)
      → named_order reference db ≡ some o
      → is_paid o.status ≡ false
      → is_holding_inventory o ≡ false
      → answer ≡ ok o.status
      → db' ≡ db
      → Cancels reference now db answer db'
  cancelled :
      (o : Order)
      → named_order reference db ≡ some o
      → is_paid o.status ≡ false
      → is_holding_inventory o ≡ true
      → answer ≡ ok OrderStatus.cancelled
      → db' ≡ after_release o TerminalStatus.cancelled now db
      → Cancels reference now db answer db'

-- The first order that a test picks is found by its id.
first-by_id :
    (p : Order → Bool) (os : List Order) {o : Order}
    → OrderIdsUnique os
    → first p os ≡ some o
    → first (λ (q : Order). q.id == o.id) os ≡ some o
first-by_id p [] u e = absurd (cc)
first-by_id p (x ∷ xs) {o} u e = elim (Bool-cases (p x)) [
  | inl here ↦
      let picked : some x ≡ some o = rw here at e in
      let same : x ≡ o = cc (picked) in rw (same, ==_refl o.id) refl
  | inr away ↦
      let later : first p xs ≡ some o = rw away at e in
      let other : o.id ≢ x.id = All-first (λ (y : Order). y.id ≢ x.id) p xs u.0 later in
      let rest = first-by_id p xs u.1 later in ground (arith, other, rest)
]

-- In a consistent database, cancelOrder refuses an unknown reference and a paid order, answers the
-- status of an order that holds no seats any more, and changes nothing in these cases; an order that
-- holds seats it cancels, with every item's seats given back, and it does not fail.
pub cancel_order-Cancels :
    (reference : String) (now : ℕ) (w : World)
    → IsConsistent w.db
    → Cancels reference now w.db
        (cancel_order reference now w).0
        (cancel_order reference now w).1.db
unfolding cancel_order
cancel_order-Cancels reference now w c = elim (Option-cases (named_order reference w.db)) [
  | inl missing ↦ rw missing (unknown missing refl refl)
  | inr (o, found) ↦
      let by_id : order_by_id o.id w.db ≡ some o = first-by_id _ w.db.orders c.order_ids found in
      elim (Bool-cases (is_paid o.status)) [
        | inl paid ↦ rw (found, paid) (denied o found paid refl refl)
        | inr unpaid ↦ elim (Bool-cases (is_holding_inventory o)) [
          | inr quiet ↦
              let idle = release_order-idle o.id TerminalStatus.cancelled now w.db o by_id quiet in
              elim (Bool-cases w.redis_up) [
                | inl up ↦ rw (found, unpaid, idle, up) (over o found unpaid quiet refl refl)
                | inr down ↦ rw (found, unpaid, idle, down) (over o found unpaid quiet refl refl)
              ]
          | inl holding ↦
              let back =
                release_order-returns o.id TerminalStatus.cancelled now w.db o c by_id holding in
              elim (Bool-cases w.redis_up) [
                | inl up ↦ rw (found, unpaid, back, up) (cancelled o found unpaid holding refl refl)
                | inr down ↦
                    rw (found, unpaid, back, down) (cancelled o found unpaid holding refl refl)
              ]
        ]
      ]
]
