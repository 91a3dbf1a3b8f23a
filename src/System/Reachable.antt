-- ===== src/System/Reachable.antt =====
-- What holds of every state that the services reach, whatever the order of their transactions.
use mathlib.Core.Path.{subst}
use ticketing_app.Prelude.{
  ℕ, ◌≡◌, refl, sym, ap, true, false, List, All, All-mono, inl, inr, Bool-cases,
}
use ticketing_app.Schema.{Db, Order, OrderStatus, is_paid}
use ticketing_app.Inventory.Counters.Invariant.{IsConsistent, NotOversold, consistent-NotOversold}
use ticketing_app.Inventory.Counters.Framing.{same_counters}
use ticketing_app.Inventory.Counters.Releasing.{release_order-IsConsistent, release_order-Released}
use ticketing_app.Inventory.Counters.Committing.{commit_order-Committed}
use ticketing_app.Inventory.Counters.Settling.{commit_order-IsConsistent}
use ticketing_app.Checkout.Consistency.{hold_order-Held, hold_order-IsConsistent}
use ticketing_app.Checkout.Keeping.{IsOpen, IsUnpaid, TxKeeps-initiate_payment}
use ticketing_app.System.Steps.{
  State, has_id, has_payment, order_ids, ended, Step, hold, initiate, give_up, release, commit,
  touched, Reach, here, next,
}
use ticketing_app.System.Links.{
  Links, Links-same, Held-fresh, Held-Links, give_up-Links, starting-no_payment,
  initiate_payment-Links, Released-KeepsLinks, Committed-KeepsLinks, found-has_payment,
}
use ticketing_app.System.Backed as B

-- The counters are consistent, every paid order has a payment, items and payments are of orders
-- that are there, and no checkout that is starting has a payment.
pub record IsSound (s : State) : Type 0 where
  pub consistent : IsConsistent s.db
  pub backed : B.IsBacked s.db
  pub links : Links s.starting s.db

IsUnpaid-without_payment :
    (id : ℕ) (db : Db)
    → has_payment id db.payments ≡ false
    → B.IsBacked db
    → All (IsUnpaid id) db.orders
IsUnpaid-without_payment id db none_yet h =
    All-mono db.orders
      (λ (o : Order) (k : B.HasPayment db.payments o) (e : o.id ≡ id).
        not_paid o.status (λ (paid : is_paid o.status ≡ true).
          let some_then : has_payment id db.payments ≡ true =
            subst (λ n. has_payment n db.payments ≡ true) e (k paid) in
          cc))
      h.backed
  where
    not_paid : (s : OrderStatus) → (is_paid s ≡ true → ⊥) → is_paid s ≡ false
    not_paid s never = elim (Bool-cases (is_paid s)) [ inl paid ↦ absurd (never paid) | inr e ↦ e ]

Links-at :
    {starting starting' : List ℕ} {db : Db}
    → starting' ≡ starting
    → Links starting db
    → Links starting' db
Links-at {db = db} e h = subst (λ l. Links l db) (sym e) h

-- Every transaction keeps a sound state sound.
pub Step-IsSound : {s s' : State} → Step s s' → IsSound s → IsSound s'
Step-IsSound {s} (hold input now items o h e) sound =
    let held = hold_order-Held input now items s.db h in
    record {
      consistent =
          hold_order-IsConsistent input now items s.db (Held-fresh held sound.links)
            sound.consistent h;
      backed = B.Held-IsBacked held sound.backed;
      links = Links-at e (Held-Links held sound.links);
    }
Step-IsSound {s} {s'} (initiate payment_id o phone charge p own h e) sound =
    let none_yet = starting-no_payment o.id sound.links own in
    let open_db : IsOpen o.id s.db = record {
      consistent = sound.consistent;
      unpaid = IsUnpaid-without_payment o.id s.db none_yet sound.backed;
    } in
    let after =
      (TxKeeps-initiate_payment o.id payment_id o phone charge refl).at s.db p s'.db open_db h in
    record {
      consistent = after.consistent;
      backed =
          (B.TxKeeps-initiate_payment payment_id o phone charge).at s.db p s'.db sound.backed h;
      links =
          Links-at e
            (initiate_payment-Links payment_id o phone charge s.starting s.db sound.links h);
    }
Step-IsSound {s} (give_up id same e) sound = record {
  consistent = subst IsConsistent (sym same) sound.consistent;
  backed = subst B.IsBacked (sym same) sound.backed;
  links =
      Links-at e (subst (Links (ended id s.starting)) (sym same) (give_up-Links id sound.links));
}
Step-IsSound {s} (release id terminal now r h e) sound =
    let done = release_order-Released id terminal now s.db h in
    let (oe, ie, pe) = Released-KeepsLinks done in
    record {
      consistent = release_order-IsConsistent id terminal now s.db sound.consistent h;
      backed = B.Released-IsBacked done sound.backed;
      links = Links-at e (Links-same oe ie pe sound.links);
    }
Step-IsSound {s} (commit payment_id now p r found h e) sound =
    let done = commit_order-Committed p.order_id now s.db h in
    let (oe, ie, pe) = Committed-KeepsLinks done in
    record {
      consistent = commit_order-IsConsistent p.order_id now s.db sound.consistent h;
      backed =
          B.Committed-IsBacked done (found-has_payment payment_id s.db.payments found) sound.backed;
      links = Links-at e (Links-same oe ie pe sound.links);
    }
Step-IsSound {s} {s'} (touched te oe ie pe e) sound = record {
  consistent = same_counters te oe ie sound.consistent;
  backed = record {
    backed =
        subst (λ (os : List Order). All (B.HasPayment s'.db.payments) os) (sym oe)
          (All-mono s.db.orders
            (λ (o : Order) (k : B.HasPayment s.db.payments o) (paid : is_paid o.status ≡ true).
              subst (λ ids. has_id o.id ids ≡ true) (sym pe) (k paid))
            sound.backed.backed);
  };
  links = Links-at e (Links-same (ap order_ids oe) ie pe sound.links);
}

pub Reach-IsSound : {s s' : State} → Reach s s' → IsSound s → IsSound s'
Reach-IsSound here sound = sound
Reach-IsSound (next r step) sound = Step-IsSound step (Reach-IsSound r sound)

-- From a database with consistent counters, a payment for every paid order, and items and payments
-- of orders that are there, and with checkouts under way that have no payment yet: whatever
-- checkouts hold seats, enter their payment or give up, whatever orders are released, and whatever
-- payments' orders are committed, in whatever order, no capped tier ever has more seats held and
-- admitted than it has.
pub Reach-NotOversold :
    {s s' : State} → IsSound s → Reach s s' → All (NotOversold s'.db) s'.db.tiers
Reach-NotOversold {s' = s'} sound r =
    consistent-NotOversold s'.db (Reach-IsSound r sound).consistent
