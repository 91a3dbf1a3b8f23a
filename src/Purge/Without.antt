-- ===== src/Purge/Without.antt =====
-- The counters once the chosen orders are gone.
use ticketing_app.Prelude.{
  ℕ, ◌+◌, ◌≡◌, refl, sym, ap, ◌∙◌, Bool, true, false, List, [], ◌∷◌, select, not, ◌==◌, arith, All,
  All-mono, All-select, inl, inr, Bool-cases, ==_iff, if◌then◌else◌,
}
use ticketing_app.Schema.{Db, Order, OrderItem, Payment}
use ticketing_app.Inventory.Seats.{is_holding_inventory}
use ticketing_app.Inventory.Locking.{sum_for}
use ticketing_app.Inventory.Counters.Sums.{item_tier, item_quantity, seats_in, order_seats}
use ticketing_app.Inventory.Counters.Invariant.{
  IsConsistent, is_admitting, is_accounted, ReservedIsHeld, SoldCoversAdmitted,
}
use ticketing_app.Checkout.Basket.{seen}
use ticketing_app.Purge.Abandoned.{is_abandoned}
use ticketing_app.Purge.Kept.{select-OrderIdsUnique, chosen, chosen-abandoned}

-- The database without the orders of some ids.
abbrev pub without : List ℕ → Db → Db
without ids db = record db {
  items = select (λ (i : OrderItem). not (seen i.order_id ids)) db.items;
  orders = select (λ (o : Order). not (seen o.id ids)) db.orders;
  payments = select (λ (p : Payment). not (seen p.order_id ids)) db.payments;
}

module _ (ids : List ℕ) where
  items_of_kept :
      (k : ℕ) (is : List OrderItem)
      → seen k ids ≡ false
      → select
          (λ (i : OrderItem). i.order_id == k)
          (select (λ (i : OrderItem). not (seen i.order_id ids)) is)
        ≡ select (λ (i : OrderItem). i.order_id == k) is
  items_of_kept k [] h = refl
  items_of_kept k (i ∷ is) h = elim (Bool-cases (i.order_id == k)) [
    | inl here ↦
        let at_k : seen i.order_id ids ≡ false =
          ap (λ n. seen n ids) ((==_iff i.order_id k).0 here) ∙ h in
        rw (at_k, here) (ap (λ (r : List OrderItem). i ∷ r) (items_of_kept k is h))
    | inr away ↦ elim (Bool-cases (seen i.order_id ids)) [
      | inl gone ↦ rw (gone, away) (items_of_kept k is h)
      | inr stays ↦ rw (stays, away) (items_of_kept k is h)
    ]
  ]

  -- Orders that do not count may go.
  order_seats-without :
      (counts : Order → Bool) (items : List OrderItem) (tier : ℕ) (os : List Order)
      → All (λ (o : Order). seen o.id ids ≡ true → counts o ≡ false) os
      → order_seats counts
          (select (λ (i : OrderItem). not (seen i.order_id ids)) items)
          tier
          (select (λ (o : Order). not (seen o.id ids)) os)
        ≡ order_seats counts items tier os
  unfolding order_seats
  order_seats-without counts items tier [] h = refl
  order_seats-without counts items tier (o ∷ os) h = elim (Bool-cases (seen o.id ids)) [
    | inl gone ↦ rw (gone, h.0 gone) (omega (arith, order_seats-without counts items tier os h.1))
    | inr stays ↦
        let seats = ap (sum_for item_tier item_quantity tier) (items_of_kept o.id items stays) in
        rw stays (
          ap
            (λ n.
              (if counts o then n else 0)
              + order_seats counts (select (λ (i : OrderItem). not (seen i.order_id ids)) items)
                  tier (select (λ (p : Order). not (seen p.id ids)) os))
            seats
          ∙ ap (λ n. (if counts o then seats_in items o.id tier else 0) + n)
              (order_seats-without counts items tier os h.1))
  ]

abandoned-not-holding :
    (cutoff : ℕ) (db : Db) (o : Order)
    → is_abandoned cutoff db o ≡ true
    → is_holding_inventory o ≡ false
unfolding is_abandoned is_holding_inventory
abandoned-not-holding cutoff db o h = ground (arith, h)

abandoned-not-admitting :
    (cutoff : ℕ) (db : Db) (o : Order) → is_abandoned cutoff db o ≡ true → is_admitting o ≡ false
unfolding is_abandoned is_admitting
abandoned-not-admitting cutoff db o h = ground (arith, h)

pub without-IsConsistent :
    (cutoff : ℕ) (db : Db) → IsConsistent db → IsConsistent (without (chosen cutoff db) db)
without-IsConsistent cutoff db c =
    let ids = chosen cutoff db in
    let gone = chosen-abandoned cutoff db c.order_ids in
    let held = λ (tier : ℕ). order_seats-without ids is_holding_inventory db.items tier db.orders (
      All-mono db.orders
        (λ (o : Order) (k : seen o.id ids ≡ true → is_abandoned cutoff db o ≡ true)
            (e : seen o.id ids ≡ true).
          abandoned-not-holding cutoff db o (k e))
        gone) in
    let admitted = λ (tier : ℕ). order_seats-without ids is_admitting db.items tier db.orders (
      All-mono db.orders
        (λ (o : Order) (k : seen o.id ids ≡ true → is_abandoned cutoff db o ≡ true)
            (e : seen o.id ids ≡ true).
          abandoned-not-admitting cutoff db o (k e))
        gone) in
    record {
      order_ids = select-OrderIdsUnique (λ (o : Order). not (seen o.id ids)) db.orders c.order_ids;
      tier_ids = c.tier_ids;
      storable = c.storable;
      reserved = All-mono db.tiers (λ t (k : ReservedIsHeld db t). k ∙ sym (held t.id)) c.reserved;
      sold =
          All-mono db.tiers (λ t (k : SoldCoversAdmitted db t). omega (arith, admitted t.id))
            c.sold;
      accounted =
          All-select (λ (o : Order). is_accounted o ≡ true) (λ (o : Order). not (seen o.id ids))
            db.orders c.accounted;
    }
