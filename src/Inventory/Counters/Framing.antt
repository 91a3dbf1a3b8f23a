-- ===== src/Inventory/Counters/Framing.antt =====
-- The invariant of the counters under transactions: a transaction that leaves the tiers, the orders
-- and the items alone keeps it, and so do `releaseOrder` and `commitOrder`.
use mathlib.Core.Path.{subst}
use ticketing_app.Prelude.{ℕ, sym, ◌∙◌, arith, ◌≡◌}
use ticketing_app.Schema.{Db, Transition}
use ticketing_app.Store.{ok}
use ticketing_app.Store.Tx.{Tx, >>=-eq-ok, ◌>>◌}
use ticketing_app.Store.Keeps.{TxKeeps, keeps_rules}
use ticketing_app.Ledger.Record.{record_transition}
use ticketing_app.Inventory.Release.{TerminalStatus, release_order}
use ticketing_app.Inventory.Commit.{commit_order}
use ticketing_app.Inventory.Counters.Invariant.{IsConsistent}
use ticketing_app.Inventory.Counters.Releasing.{release_order-IsConsistent}
use ticketing_app.Inventory.Counters.Settling.{commit_order-IsConsistent}

-- The invariant reads the tiers, the orders and the items alone.
pub same_counters :
    {db db' : Db}
    → db'.tiers ≡ db.tiers
    → db'.orders ≡ db.orders
    → db'.items ≡ db.items
    → IsConsistent db
    → IsConsistent db'
same_counters {db} {db'} et eo ei c =
    let here : IsConsistent
        (record db' { tiers = db.tiers; orders = db.orders; items = db.items }) =
      record {
        order_ids = c.order_ids;
        tier_ids = c.tier_ids;
        storable = c.storable;
        reserved = c.reserved;
        sold = c.sold;
        accounted = c.accounted;
      } in
    subst IsConsistent (sym (λ i. record db' { tiers = et i; orders = eo i; items = ei i })) here

-- A transaction that leaves the counters, the orders and the items alone.
pub record Frames {A : Type 0} (t : Tx A) : Type 0 where
  pub tiers_stay : (db : Db) (r : A) (db' : Db) → t db ≡ ok (r, db') → db'.tiers ≡ db.tiers
  pub orders_stay : (db : Db) (r : A) (db' : Db) → t db ≡ ok (r, db') → db'.orders ≡ db.orders
  pub items_stay : (db : Db) (r : A) (db' : Db) → t db ≡ ok (r, db') → db'.items ≡ db.items

pub TxKeeps-Frames : {A : Type 0} (t : Tx A) → Frames t → TxKeeps IsConsistent t
TxKeeps-Frames t f = record {
  at = λ db r db' c h.
      same_counters (f.tiers_stay db r db' h) (f.orders_stay db r db' h) (f.items_stay db r db' h)
        c;
}

pub Frames->> : {A B : Type 0} (s : Tx A) (t : Tx B) → Frames s → Frames t → Frames (s >> t)
Frames->> s t fs ft = record {
  tiers_stay = λ db r db' h.
      let p = >>=-eq-ok s (λ _. t) db h in
      ft.tiers_stay p.0.1 r db' p.2 ∙ fs.tiers_stay db p.0.0 p.0.1 p.1;
  orders_stay = λ db r db' h.
      let p = >>=-eq-ok s (λ _. t) db h in
      ft.orders_stay p.0.1 r db' p.2 ∙ fs.orders_stay db p.0.0 p.0.1 p.1;
  items_stay = λ db r db' h.
      let p = >>=-eq-ok s (λ _. t) db h in
      ft.items_stay p.0.1 r db' p.2 ∙ fs.items_stay db p.0.0 p.0.1 p.1;
}

pub TxKeeps-release_order :
    (id : ℕ) (terminal : TerminalStatus) (now : ℕ)
    → TxKeeps IsConsistent (release_order id terminal now)
TxKeeps-release_order id terminal now = record {
  at = λ db r db' c h. release_order-IsConsistent id terminal now db c h;
}

pub TxKeeps-commit_order : (id now : ℕ) → TxKeeps IsConsistent (commit_order id now)
TxKeeps-commit_order id now = record {
  at = λ db r db' c h. commit_order-IsConsistent id now db c h;
}

pub Frames-record_transition : (entry : Transition) → Frames (record_transition entry)
unfolding record_transition
Frames-record_transition entry = record {
  tiers_stay = λ db r db' h. ground arith;
  orders_stay = λ db r db' h. ground arith;
  items_stay = λ db r db' h. ground arith;
}

pub ruleset counter_rules = (
  keeps_rules, TxKeeps-Frames, TxKeeps-release_order, TxKeeps-commit_order, Frames->>,
  Frames-record_transition,
)
