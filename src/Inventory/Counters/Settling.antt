-- ===== src/Inventory/Counters/Settling.antt =====
-- `commitOrder` keeps the counters consistent, whether the hold still stands or has lapsed.
use mathlib.Core.Path.{subst}
use ticketing_app.Prelude.{
  ℕ, ◌≡◌, refl, sym, Bool, true, false, some, List, first, All, All-mono, All-zip, ◌==◌,
  All-update_where, All-first,
}
use ticketing_app.Schema.{Db, Tier, Order, OrderItem, is_paid}
use ticketing_app.Store.{ok}
use ticketing_app.Inventory.Commit.{CommitResult, paid_metadata, commit_order}
use ticketing_app.Inventory.Counters.Sums.{update_where-OrderIdsUnique}
use ticketing_app.Inventory.Counters.Rows.{IsStorable, each_updated-sell_held}
use ticketing_app.Inventory.Counters.Lapsed.{map-TierIdsUnique, All-map, each_taken_grows}
use ticketing_app.Inventory.Counters.Invariant.{IsConsistent, ReservedIsHeld, SoldCoversAdmitted}
use ticketing_app.Inventory.Counters.Releasing.{sorted_items, found_here}
use ticketing_app.Inventory.Counters.Committing.{
  sold_row, lapsed, after_commit, Sells, Committed, already, sold, commit_order-Committed,
}
use ticketing_app.Inventory.Counters.Paid.{
  paid_as, paid-accounted, flagged-not-admitting, standing-holding, lapsed-not-holding,
  standing_reserved, standing_sold, lapsed_reserved, lapsed_sold, flagged_sold,
}

sold_row_id : (b : Bool) (items : List OrderItem) (t : Tier) → (sold_row b items t).id ≡ t.id
sold_row_id true items t = (each_taken_grows items t).0
sold_row_id false items t = (each_updated-sell_held items t).0

abbrev ReservedRows : Order → Bool → ℕ → Db → Bool → Type 0
ReservedRows o refund now db b =
    All (λ t. ReservedIsHeld (after_commit o refund now db) (sold_row b (sorted_items o db) t))
      db.tiers

abbrev SoldRows : Order → Bool → ℕ → Db → Bool → Type 0
SoldRows o refund now db b =
    All (λ t. SoldCoversAdmitted (after_commit o refund now db) (sold_row b (sorted_items o db) t))
      db.tiers

late_rows :
    (o : Order) (refund : Bool) (now : ℕ) (db : Db)
    → IsConsistent db
    → first (λ p. p.id == o.id) db.orders ≡ some o
    → is_paid o.status ≡ false
    → Sells true (sorted_items o db) refund db
    → SoldRows o refund now db true
late_rows o true now db c found unpaid sells =
    All-mono db.tiers (flagged_sold o true now db c found unpaid (flagged-not-admitting now o))
      c.sold
late_rows o false now db c found unpaid sells =
    All-zip db.tiers (lapsed_sold o false now db c found unpaid) c.sold (sells c.tier_ids refl)

module _ (o : Order) (refund : Bool) (now : ℕ) (db : Db) (c : IsConsistent db)
    (found : first (λ p. p.id == o.id) db.orders ≡ some o) (unpaid : is_paid o.status ≡ false) where
  -- What the two loops must give for the settled database to be consistent.
  after_commit-IsConsistent :
      All IsStorable (after_commit o refund now db).tiers
      → ReservedRows o refund now db (lapsed o)
      → SoldRows o refund now db (lapsed o)
      → IsConsistent (after_commit o refund now db)
  unfolding after_commit
  after_commit-IsConsistent storable reserved covered = record {
    order_ids =
        update_where-OrderIdsUnique o.id (paid_as now (paid_metadata refund o.metadata)) (λ p. refl)
          db.orders c.order_ids;
    tier_ids = map-TierIdsUnique _ (sold_row_id (lapsed o) (sorted_items o db)) db.tiers c.tier_ids;
    storable = storable;
    reserved = All-map _ _ db.tiers reserved;
    sold = All-map _ _ db.tiers covered;
    accounted =
        All-update_where _ _ _ db.orders
          (λ p _ _. paid-accounted now (paid_metadata refund o.metadata) p) c.accounted;
  }

  settled-IsConsistent :
      (b : Bool)
      → lapsed o ≡ b
      → All IsStorable (after_commit o refund now db).tiers
      → Sells b (sorted_items o db) refund db
      → IsConsistent (after_commit o refund now db)
  settled-IsConsistent false standing storable sells =
      let accounted = All-first _ (λ p. p.id == o.id) db.orders c.accounted found in
      let holding = standing-holding o unpaid accounted standing in
      after_commit-IsConsistent storable
        (subst (ReservedRows o refund now db) (sym standing)
          (All-mono db.tiers (standing_reserved o refund now db c found unpaid holding) c.reserved))
        (subst (SoldRows o refund now db) (sym standing)
          (All-mono db.tiers (standing_sold o refund now db c found unpaid) c.sold))
  settled-IsConsistent true late storable sells =
      let quiet = lapsed-not-holding o late in
      after_commit-IsConsistent storable
        (subst (ReservedRows o refund now db) (sym late)
          (All-mono db.tiers (lapsed_reserved o refund now db c found unpaid quiet) c.reserved))
        (subst (SoldRows o refund now db) (sym late)
          (late_rows o refund now db c found unpaid sells))

Committed-IsConsistent :
    {id now : ℕ} {db db' : Db} {r : CommitResult}
    → Committed id now db r db'
    → IsConsistent db
    → IsConsistent db'
Committed-IsConsistent (already _ _ _ _ e) c = rw e c
Committed-IsConsistent {id} {now} {db} (sold o found unpaid refund _ e storable sells) c = rw e (
    settled-IsConsistent o refund now db c (found_here id db found) unpaid (lapsed o) refl
      (rw e at storable c.storable) sells)

-- From a consistent database, a settlement that does not fail leaves a consistent database, whether
-- the hold still stands, has lapsed, or the order was paid before.
pub commit_order-IsConsistent :
    (id now : ℕ) (db : Db) {r : CommitResult} {db' : Db}
    → IsConsistent db
    → commit_order id now db ≡ ok (r, db')
    → IsConsistent db'
commit_order-IsConsistent id now db c h =
    Committed-IsConsistent (commit_order-Committed id now db h) c
