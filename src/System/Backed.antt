-- ===== src/System/Backed.antt =====
-- A paid order has a payment, under every transaction.
use mathlib.Core.Path.{subst}
use ticketing_app.Prelude.{
  ℕ, ◌≡◌, sym, ◌∙◌, true, false, List, [], ◌∷◌, insert, update_where, ◌==◌, arith, All, All-append,
  All-mono, All-update_where, ==_iff,
}
use ticketing_app.Schema.{Db, Order, Payment, Transition, is_paid}
use ticketing_app.Store.Keeps.{TxKeeps, tx_rules, TxKeeps-modify}
use ticketing_app.Ledger.Record.{record_transition}
use ticketing_app.Inventory.Release.{TerminalStatus, ReleaseResult, to_status, mark_released}
use ticketing_app.Inventory.Commit.{CommitResult, mark_paid}
use ticketing_app.Inventory.Counters.Releasing.{
  Released, idle, returned, after_release, found_by_id,
}
use ticketing_app.Inventory.Counters.Committing.{Committed, already, sold, after_commit}
use ticketing_app.Checkout.Payment.{
  ChargeResult, await_row, await_payment, insert_payment, initiate_payment,
}
use ticketing_app.Checkout.Hold.{HoldInput, new_order}
use ticketing_app.Checkout.Basket.{CheckoutItem}
use ticketing_app.Checkout.Consistency.{Held}
use ticketing_app.System.Steps.{has_payment}

abbrev pub HasPayment : List Payment → Order → Type 0
HasPayment ps o = is_paid o.status ≡ true → has_payment o.id ps ≡ true

abbrev pub Backed : Db → Type 0
Backed db = All (HasPayment db.payments) db.orders

pub record IsBacked (db : Db) : Type 0 where
  pub backed : Backed db

has_payment-insert :
    (id : ℕ) (p : Payment) (ps : List Payment)
    → has_payment id ps ≡ true
    → has_payment id (insert p ps) ≡ true
has_payment-insert id p [] h = absurd (cc)
has_payment-insert id p (q ∷ ps) h = ground (arith, has_payment-insert id p ps)

TxKeeps-insert_payment : (p : Payment) → TxKeeps IsBacked (insert_payment p)
unfolding insert_payment
TxKeeps-insert_payment p = record {
  at = λ db r db' h e.
      let after : db' ≡ record db { payments = insert p db.payments } = ground (arith, e) in
      subst IsBacked (sym after) (record {
        backed =
            All-mono db.orders
              (λ (o : Order) (k : HasPayment db.payments o) (paid : is_paid o.status ≡ true).
                has_payment-insert o.id p db.payments (k paid))
              h.backed;
      });
}

awaited-IsBacked :
    (id : ℕ) (db : Db)
    → IsBacked db
    → IsBacked (record db { orders = update_where (λ (o : Order). o.id == id) await_row db.orders })
awaited-IsBacked id db h = record {
  backed =
      All-update_where (HasPayment db.payments) (λ (o : Order). o.id == id) await_row db.orders
        (λ o _ _ (paid : false ≡ true). absurd (cc)) h.backed;
}

TxKeeps-await_payment : (id : ℕ) → TxKeeps IsBacked (await_payment id)
unfolding await_payment
TxKeeps-await_payment id = TxKeeps-modify _ (awaited-IsBacked id)

TxKeeps-record_transition : (entry : Transition) → TxKeeps IsBacked (record_transition entry)
unfolding record_transition
TxKeeps-record_transition entry = record {
  at = λ db r db' h e.
      let payments_e : db'.payments ≡ db.payments = ground arith in
      let orders_e : db'.orders ≡ db.orders = ground arith in
      record { backed = rw (payments_e, orders_e) h.backed };
}

pub TxKeeps-initiate_payment :
    (payment_id : ℕ) (order : Order) (phone : List ℕ) (charge : ChargeResult)
    → TxKeeps IsBacked (initiate_payment payment_id order phone charge)
unfolding initiate_payment
TxKeeps-initiate_payment payment_id order phone charge =
    search (tx_rules, TxKeeps-insert_payment, TxKeeps-await_payment, TxKeeps-record_transition)
      depth 10

pub Released-IsBacked :
    {n : ℕ} {terminal : TerminalStatus} {now : ℕ} {db db' : Db} {r : ReleaseResult}
    → Released n terminal now db r db'
    → IsBacked db
    → IsBacked db'
unfolding after_release mark_released
Released-IsBacked (idle o _ _ _ e) h = subst IsBacked (sym e) h
Released-IsBacked {terminal} {db} (returned o _ _ _ e _) h = subst IsBacked (sym e) (record {
  backed =
      All-update_where (HasPayment db.payments) (λ (p : Order). p.id == o.id) _ db.orders
        (λ p _ _ (paid : is_paid (to_status terminal) ≡ true). absurd (ground arith)) h.backed;
})

pub Committed-IsBacked :
    {id now : ℕ} {db db' : Db} {r : CommitResult}
    → Committed id now db r db'
    → has_payment id db.payments ≡ true
    → IsBacked db
    → IsBacked db'
unfolding after_commit mark_paid
Committed-IsBacked (already _ _ _ _ e) p h = subst IsBacked (sym e) h
Committed-IsBacked {id} {now} {db} (sold o found _ refund _ e _ _) p h =
    subst IsBacked (sym e) (record {
      backed =
          All-update_where (HasPayment db.payments) (λ (x : Order). x.id == o.id) _ db.orders
            (λ x (here : (x.id == o.id) ≡ true) _ _.
              subst (λ n. has_payment n db.payments ≡ true)
                (sym ((==_iff x.id o.id).0 here ∙ found_by_id id db found)) p)
            h.backed;
    })

pub Held-IsBacked :
    {input : HoldInput} {now : ℕ} {items : List CheckoutItem} {db db' : Db} {o : Order}
    → Held input now items db o db'
    → IsBacked db
    → IsBacked db'
unfolding new_order
Held-IsBacked {input} {now} {items} {db} d h = record {
  backed =
      rw (d.orders_are, d.payments_are)
        (All-append (HasPayment db.payments) db.orders (new_order input now d.lines ∷ []) h.backed
          ((λ (paid : false ≡ true). absurd (cc)), tt));
}
