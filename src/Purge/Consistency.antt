-- ===== src/Purge/Consistency.antt =====
-- A purge keeps the counters consistent, and takes nothing but abandoned orders.
use mathlib.Core.Path.{subst}
use ticketing_app.Prelude.{
  ℕ, ◌≡◌, refl, sym, ap, ◌∙◌, ◌⊎◌, String, true, false, List, [], ◌∷◌, select, not, arith, All-mono,
  inl, inr,
}
use ticketing_app.Schema.{Db, Order, Transition}
use ticketing_app.Store.{Result-cases, ok}
use ticketing_app.Store.Exec.{World, pure}
use ticketing_app.Store.Keeps.{
  TxKeeps, Keeps, keeps_rules, Keeps-bind, Keeps-pure, Keeps-with_transaction,
}
use ticketing_app.Ledger.Record.{record_transition, record_standalone_transition}
use ticketing_app.Inventory.Counters.Invariant.{IsConsistent}
use ticketing_app.Inventory.Counters.Framing.{same_counters}
use ticketing_app.Checkout.Basket.{seen}
use ticketing_app.Purge.Delete.{delete_abandoned, delete_items, delete_orders}
use ticketing_app.Purge.Abandoned.{
  is_abandoned, candidates, ids_of, record_purged, order_purged, purge, purge_abandoned_orders,
  cutoff_at, purge_result,
}
use ticketing_app.Purge.Kept.{chosen, not_chosen, others_stay, payments_stay}
use ticketing_app.Purge.Without.{without, without-IsConsistent}

-- The tables that entries in the ledger leave alone.
pub record Same (a b : Db) : Type 0 where
  pub tiers : b.tiers ≡ a.tiers
  pub orders : b.orders ≡ a.orders
  pub items : b.items ≡ a.items
  pub payments : b.payments ≡ a.payments
  pub tickets : b.tickets ≡ a.tickets

TxKeeps-record_transition :
    (a : Db) (entry : Transition) → TxKeeps (Same a) (record_transition entry)
unfolding record_transition
TxKeeps-record_transition a entry = record {
  at = λ db r db' h e. record {
    tiers = (let s : db'.tiers ≡ db.tiers = ground arith in s ∙ h.tiers);
    orders = (let s : db'.orders ≡ db.orders = ground arith in s ∙ h.orders);
    items = (let s : db'.items ≡ db.items = ground arith in s ∙ h.items);
    payments = (let s : db'.payments ≡ db.payments = ground arith in s ∙ h.payments);
    tickets = (let s : db'.tickets ≡ db.tickets = ground arith in s ∙ h.tickets);
  };
}

Keeps-record_purged :
    (a : Db) (iso : ℕ → String) (days : ℕ) (os : List Order)
    → Keeps (Same a) (record_purged iso days os)
unfolding record_purged record_standalone_transition
Keeps-record_purged a iso days [] = search keeps_rules
Keeps-record_purged a iso days (o ∷ os) =
    Keeps-bind (record_standalone_transition (order_purged iso days o))
      (λ _. record_purged iso days os)
      (Keeps-with_transaction (record_transition (order_purged iso days o))
        (TxKeeps-record_transition a (order_purged iso days o)))
      (λ _. Keeps-record_purged a iso days os)

-- What a purge may have left: the database without the chosen orders, or the same.
abbrev pub PurgedTo : ℕ → Db → Db → Type 0
PurgedTo cutoff db db' = Same db db' ⊎ Same (without (chosen cutoff db) db) db'

same : (db : Db) → Same db db
same db = record { tiers = refl; orders = refl; items = refl; payments = refl; tickets = refl }

delete_abandoned-without :
    (ids : List ℕ) (db : Db) {db' : Db} {u : Unit}
    → delete_abandoned ids db ≡ ok (u, db')
    → db' ≡ without ids db
unfolding delete_abandoned delete_items delete_orders
delete_abandoned-without ids db h = ground (arith, h)

purge-PurgedTo :
    (iso : ℕ → String) (days cutoff : ℕ) (w : World) (os : List Order)
    → ids_of os ≡ chosen cutoff w.db
    → PurgedTo cutoff w.db (purge iso days os w).1.db
unfolding purge
purge-PurgedTo iso days cutoff w [] e = inl (same w.db)
purge-PurgedTo iso days cutoff w (o ∷ os) e =
    elim (Result-cases (delete_abandoned (ids_of (o ∷ os)) w.db)) [
      | inl ((u, db1), done) ↦
          let at : db1 ≡ without (chosen cutoff w.db) w.db =
            delete_abandoned-without (ids_of (o ∷ os)) w.db done ∙ ap (λ ids. without ids w.db) e in
          let target = without (chosen cutoff w.db) w.db in
          let kept =
            (Keeps-bind (record_purged iso days (o ∷ os)) (λ _. pure (purge_result (o ∷ os)))
                (Keeps-record_purged target iso days (o ∷ os))
                (λ _. Keeps-pure (purge_result (o ∷ os)))).at
              (record w { db = db1 }) (subst (Same target) (sym at) (same target)) in
          rw done (inr kept)
      | inr (x, refused) ↦ rw refused (inl (same w.db))
    ]

Same-IsConsistent : {a b : Db} → Same a b → IsConsistent a → IsConsistent b
Same-IsConsistent s c = same_counters s.tiers s.orders s.items c

PurgedTo-IsConsistent :
    (cutoff : ℕ) (db db' : Db) → PurgedTo cutoff db db' → IsConsistent db → IsConsistent db'
PurgedTo-IsConsistent cutoff db db' (inl s) c = Same-IsConsistent s c
PurgedTo-IsConsistent cutoff db db' (inr s) c =
    Same-IsConsistent s (without-IsConsistent cutoff db c)

-- The orders that are not abandoned.
abbrev pub others : ℕ → Db → List Order → List Order
others cutoff db os = select (λ (o : Order). not (is_abandoned cutoff db o)) os

-- What every purge leaves as it was.
pub record Spares (cutoff : ℕ) (db : Db) (db' : Db) : Type 0 where
  pub payments : db'.payments ≡ db.payments
  pub tickets : db'.tickets ≡ db.tickets
  pub tiers : db'.tiers ≡ db.tiers
  pub orders : others cutoff db db'.orders ≡ others cutoff db db.orders

PurgedTo-Spares :
    (cutoff : ℕ) (db db' : Db) → IsConsistent db → PurgedTo cutoff db db' → Spares cutoff db db'
PurgedTo-Spares cutoff db db' c (inl s) = record {
  payments = s.payments;
  tickets = s.tickets;
  tiers = s.tiers;
  orders = ap (others cutoff db) s.orders;
}
PurgedTo-Spares cutoff db db' c (inr s) = record {
  payments = s.payments ∙ payments_stay cutoff db;
  tickets = s.tickets;
  tiers = s.tiers;
  orders =
      ap (others cutoff db) s.orders
      ∙ others_stay cutoff db c.order_ids (λ (o : Order). not (is_abandoned cutoff db o)) db.orders
          (All-mono db.orders
            (λ (o : Order)
                (k : is_abandoned cutoff db o ≡ false → seen o.id (chosen cutoff db) ≡ false)
                (e : not (is_abandoned cutoff db o) ≡ true).
              k (ground (arith, e)))
            (not_chosen cutoff db c.order_ids));
}

-- From a consistent database, a purge leaves a consistent one, whether it returns or throws: every
-- payment, ticket and tier is as it was, and so are the orders that are not abandoned, which are
-- those of another status, those that are not old enough, and those with a payment or a ticket.
pub purge_abandoned_orders-Spares :
    (iso : ℕ → String) (days now : ℕ) (w : World)
    → IsConsistent w.db
    → IsConsistent (purge_abandoned_orders iso days now w).1.db
      × Spares (cutoff_at days now) w.db (purge_abandoned_orders iso days now w).1.db
unfolding purge_abandoned_orders
purge_abandoned_orders-Spares iso days now w c =
    let cutoff = cutoff_at days now in
    let to = purge-PurgedTo iso days cutoff w (candidates cutoff w.db) refl in
    (PurgedTo-IsConsistent cutoff w.db _ to c, PurgedTo-Spares cutoff w.db _ c to)
