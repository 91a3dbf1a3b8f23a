-- ===== src/Inventory/Counters/Committing.antt =====
-- What `commitOrder` does to a consistent database, whether the hold still stands or has lapsed.
use mathlib.Core.Path.{subst}
use ticketing_app.Prelude.{
  ℕ, ◌+◌, ◌≡◌, refl, sym, ◌∙◌, ap, Bool, true, false, some, List, [], ◌++◌, ◌∷◌, map, arith, All,
  inl, inr, Bool-cases, not, Option-cases,
}
use ticketing_app.Schema.{Db, Tier, Order, OrderItem, is_paid}
use ticketing_app.Store.{ok, ok-injective}
use ticketing_app.Store.Tx.{>>=-eq-ok}
use ticketing_app.Ledger.Record.{record_transition-row, record_each-rows}
use ticketing_app.Inventory.Seats.{is_null}
use ticketing_app.Inventory.Release.{order_by_id, items_of}
use ticketing_app.Inventory.Commit.{
  CommitResult, sell_items, sell_held_items, sell_held_row, paid_metadata, mark_paid, order_paid,
  inventory_sold, commit_unpaid, commit_order,
}
use ticketing_app.Inventory.Counters.Rows.{IsStorable, each_updated, update_each_lem, item_sum}
use ticketing_app.Inventory.Counters.Lapsed.{TierIdsUnique, each_taken, sell_lapsed_items_lem}
use ticketing_app.Inventory.Counters.Releasing.{sorted_items}

-- What the sale does to one tier row.
abbrev pub sold_row : Bool → List OrderItem → Tier → Tier
sold_row true = each_taken
sold_row false = each_updated sell_held_row

abbrev pub lapsed : Order → Bool
lapsed o = not (is_null o.released_at)

-- The database after a sale, given whether some item could not be taken.
unfoldable pub after_commit : Order → Bool → ℕ → Db → Db
unfolding mark_paid
after_commit o refund now db = record db {
  tiers = map (sold_row (lapsed o) (sorted_items o db)) db.tiers;
  orders = (mark_paid o.id now (paid_metadata refund o.metadata) db).orders;
  ledger =
      (db.ledger ++ order_paid o (lapsed o) refund ∷ [])
      ++ map (inventory_sold o (lapsed o)) (items_of o.id db);
}

-- What the loop has sold: everything while the hold stands, and in any case what it did not flag.
abbrev pub Sells : Bool → List OrderItem → Bool → Db → Type 0
Sells true items refund db =
    TierIdsUnique db.tiers
    → refund ≡ false
    → All (λ (t : Tier). (each_taken items t).quantity_sold ≡ t.quantity_sold + item_sum t.id items)
        db.tiers
Sells false items refund db = refund ≡ false

sell_items_lem :
    (was_lapsed : Bool) (items : List OrderItem) (db : Db) {d : Db} {refund : Bool}
    → sell_items was_lapsed items db ≡ ok (refund, d)
    → (d ≡ record db { tiers = map (sold_row was_lapsed items) db.tiers })
      × (All IsStorable db.tiers → All IsStorable d.tiers)
      × Sells was_lapsed items refund db
unfolding sell_items sell_held_items
sell_items_lem true items db h =
    let loop = sell_lapsed_items_lem items false db h in (loop.0, loop.1, λ u f. (loop.2 u f).1)
sell_items_lem false items db {d} {refund} h =
    let split = >>=-eq-ok (sell_held_items items) _ db h in
    let loop = update_each_lem sell_held_row items db split.1 in
    let same = ok-injective split.2 in
    let same_db : d ≡ split.0.1 = sym (ap (λ (p : Bool × Db). p.1) same) in
    (
      same_db ∙ loop.0,
      λ s. subst (λ e. All IsStorable e.tiers) (sym same_db) (loop.1 s),
      sym (ap (λ (p : Bool × Db). p.0) same),
    )

commit_unpaid-eq :
    (o : Order) (now : ℕ) (refund : Bool) (db d : Db)
    → sell_items (lapsed o) (sorted_items o db) db ≡ ok (refund, d)
    → d ≡ record db { tiers = map (sold_row (lapsed o) (sorted_items o db)) db.tiers }
    → commit_unpaid o now db
      ≡ ok (
        record { committed = true; already_paid = false; requires_refund = refund },
        after_commit o refund now db,
      )
unfolding commit_unpaid after_commit order_paid inventory_sold
commit_unpaid-eq o now refund db d h e = rw (
  h,
  record_transition-row (order_paid o (lapsed o) refund) o.id,
  record_each-rows (inventory_sold o (lapsed o)) (λ i. i.tier_id) (λ i. refl),
  e,
)

-- What `commit_unpaid` has done if it did not fail.
abbrev SoldTo : Order → ℕ → Db → CommitResult → Db → Bool → Type 0
SoldTo o now db r db' refund =
    (r ≡ record { committed = true; already_paid = false; requires_refund = refund })
    × (db' ≡ after_commit o refund now db)
    × (All IsStorable db.tiers → All IsStorable db'.tiers)
    × Sells (lapsed o) (sorted_items o db) refund db

commit_unpaid-SoldTo :
    (o : Order) (now : ℕ) (db : Db) {r : CommitResult} {db' : Db}
    → commit_unpaid o now db ≡ ok (r, db')
    → record { refund : Bool; sold_to : SoldTo o now db r db' refund }
unfolding commit_unpaid after_commit
commit_unpaid-SoldTo o now db {r} {db'} h =
    let split = >>=-eq-ok (sell_items (lapsed o) (sorted_items o db)) _ db h in
    let refund = split.0.0 in
    let loop = sell_items_lem (lapsed o) (sorted_items o db) db split.1 in
    let same = ok-injective (sym h ∙ commit_unpaid-eq o now refund db split.0.1 split.1 loop.0) in
    let left : db' ≡ after_commit o refund now db = ap (λ (p : CommitResult × Db). p.1) same in
    let tiers_e : db'.tiers ≡ split.0.1.tiers =
      ap (λ (d : Db). d.tiers) left ∙ sym (ap (λ (d : Db). d.tiers) loop.0) in
    record {
      refund = refund;
      sold_to =
          (ap (λ (p : CommitResult × Db). p.0) same, left, λ s. rw tiers_e (loop.1 s), loop.2);
    }

-- What a settlement that does not fail has done.
pub data Committed (id : ℕ) (now : ℕ) (db : Db) (r : CommitResult) (db' : Db) : Type 0 where
  already :
      (o : Order)
      → order_by_id id db ≡ some o
      → is_paid o.status ≡ true
      → r ≡ record { committed = false; already_paid = true; requires_refund = false }
      → db' ≡ db
      → Committed id now db r db'
  sold :
      (o : Order)
      → order_by_id id db ≡ some o
      → is_paid o.status ≡ false
      → (refund : Bool)
      → r ≡ record { committed = true; already_paid = false; requires_refund = refund }
      → db' ≡ after_commit o refund now db
      → (All IsStorable db.tiers → All IsStorable db'.tiers)
      → Sells (lapsed o) (sorted_items o db) refund db
      → Committed id now db r db'

pub commit_order-Committed :
    (id now : ℕ) (db : Db) {r : CommitResult} {db' : Db}
    → commit_order id now db ≡ ok (r, db')
    → Committed id now db r db'
unfolding commit_order
commit_order-Committed id now db {r} {db'} h = elim (Option-cases (order_by_id id db)) [
  | inl missing ↦ absurd (ground arith)
  | inr (o, found) ↦ elim (Bool-cases (is_paid o.status)) [
    | inl paid ↦ already o found paid (ground arith) (ground arith)
    | inr unpaid ↦
        let run_e : commit_unpaid o now db ≡ ok (r, db') = ground arith in
        let done = commit_unpaid-SoldTo o now db run_e in
        let s = done.sold_to in sold o found unpaid done.refund s.0 s.1 s.2 s.3
  ]
]
