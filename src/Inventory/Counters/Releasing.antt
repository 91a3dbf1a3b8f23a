-- ===== src/Inventory/Counters/Releasing.antt =====
-- What `releaseOrder` does to a consistent database.
use mathlib.Core.Path.{subst}
use ticketing_app.Prelude.{
  ℕ, ◌+◌, ◌≡◌, refl, sym, ◌∙◌, ap, Bool, true, false, some, List, [], ◌++◌, ◌∷◌, map, first, arith,
  All, All-mono, ◌==◌, ==_iff, if◌then◌else◌, inl, inr, Bool-cases, first_holds, Option-cases,
  All-update_where,
}
use ticketing_app.Schema.{Db, Tier, Order, OrderItem, OrderStatus}
use ticketing_app.Store.{ok, ok-injective}
use ticketing_app.Store.Tx.{>>=-eq-ok}
use ticketing_app.Ledger.Record.{record_transition-row, record_each-rows}
use ticketing_app.Inventory.Seats.{is_holding_inventory}
use ticketing_app.Inventory.Locking.{sort_for_locking, sum_for-sort_for_locking}
use ticketing_app.Inventory.Release.{
  TerminalStatus, ReleaseResult, to_status, order_by_id, items_of, release_row, release_items,
  release_held, release_order, mark_released, order_released, inventory_released,
}
use ticketing_app.Inventory.Counters.Sums.{
  item_tier, item_quantity, order_seats-update_where, update_where-OrderIdsUnique, seats_in,
}
use ticketing_app.Inventory.Counters.Rows.{
  IsStorable, each_updated, update_each_lem, each_updated-release,
}
use ticketing_app.Inventory.Counters.Lapsed.{map-TierIdsUnique, All-map}
use ticketing_app.Inventory.Counters.Invariant.{
  IsConsistent, is_admitting, is_accounted, seats_held, seats_admitted, ReservedIsHeld,
  SoldCoversAdmitted, holding-not-admitting,
}

abbrev pub sorted_items : Order → Db → List OrderItem
sorted_items order db = sort_for_locking item_tier (items_of order.id db)

-- The database after a release: the tier rows, the order, and the entries in the ledger.
unfoldable pub after_release : Order → TerminalStatus → ℕ → Db → Db
unfolding mark_released
after_release order terminal now db = record db {
  tiers = map (each_updated release_row (sorted_items order db)) db.tiers;
  orders = (mark_released order.id (to_status terminal) now db).orders;
  ledger =
      (db.ledger ++ order_released order terminal (items_of order.id db) ∷ [])
      ++ map (inventory_released order terminal) (items_of order.id db);
}

-- Once the loop over the items has not failed, nothing else does.
pub release_held-eq :
    (order : Order) (terminal : TerminalStatus) (now : ℕ) (db d : Db)
    → release_items (sorted_items order db) db ≡ ok (tt, d)
    → d ≡ record db { tiers = map (each_updated release_row (sorted_items order db)) db.tiers }
    → release_held order terminal now db
      ≡ ok (
        record { released = true; status = to_status terminal },
        after_release order terminal now db,
      )
unfolding release_held after_release order_released inventory_released
release_held-eq order terminal now db d h e = rw (
  h,
  record_transition-row (order_released order terminal (items_of order.id db)) order.id,
  record_each-rows (inventory_released order terminal) (λ i. i.tier_id) (λ i. refl),
  e,
)

-- What a release that does not fail has done.
pub data Released (id : ℕ) (terminal : TerminalStatus) (now : ℕ) (db : Db) (r : ReleaseResult)
    (db' : Db) : Type 0 where
  idle :
      (o : Order)
      → order_by_id id db ≡ some o
      → is_holding_inventory o ≡ false
      → r ≡ record { released = false; status = o.status }
      → db' ≡ db
      → Released id terminal now db r db'
  returned :
      (o : Order)
      → order_by_id id db ≡ some o
      → is_holding_inventory o ≡ true
      → r ≡ record { released = true; status = to_status terminal }
      → db' ≡ after_release o terminal now db
      → (All IsStorable db.tiers → All IsStorable db'.tiers)
      → Released id terminal now db r db'

release_held-Released :
    (o : Order) (terminal : TerminalStatus) (now : ℕ) (db : Db) {r : ReleaseResult} {db' : Db}
    → release_held o terminal now db ≡ ok (r, db')
    → (r ≡ record { released = true; status = to_status terminal })
      × (db' ≡ after_release o terminal now db)
      × (All IsStorable db.tiers → All IsStorable db'.tiers)
unfolding release_held release_items after_release
release_held-Released o terminal now db {r} {db'} h =
    let split = >>=-eq-ok (release_items (sorted_items o db)) _ db h in
    let loop = update_each_lem release_row (sorted_items o db) db split.1 in
    let e = release_held-eq o terminal now db split.0.1 split.1 loop.0 in
    let same = ok-injective (sym h ∙ e) in
    let left : db' ≡ after_release o terminal now db = ap (λ (p : ReleaseResult × Db). p.1) same in
    let tiers_e : db'.tiers ≡ split.0.1.tiers =
      ap (λ (d : Db). d.tiers) left ∙ sym (ap (λ (d : Db). d.tiers) loop.0) in
    (ap (λ (p : ReleaseResult × Db). p.0) same, left, λ s. rw tiers_e (loop.1 s))

pub release_order-Released :
    (id : ℕ) (terminal : TerminalStatus) (now : ℕ) (db : Db) {r : ReleaseResult} {db' : Db}
    → release_order id terminal now db ≡ ok (r, db')
    → Released id terminal now db r db'
unfolding release_order
release_order-Released id terminal now db {r} {db'} h = elim (Option-cases (order_by_id id db)) [
  | inl missing ↦ absurd (ground arith)
  | inr (o, found) ↦ elim (Bool-cases (is_holding_inventory o)) [
    | inl holding ↦
        let held : release_held o terminal now db ≡ ok (r, db') = ground arith in
        let done = release_held-Released o terminal now db held in
        returned o found holding done.0 done.1 done.2
    | inr quiet ↦ idle o found quiet (ground arith) (ground arith)
  ]
]

-- Orders keep their ids when they are released.
abbrev released_as : OrderStatus → ℕ → Order → Order
released_as status now o = record o { status = status; released_at = some now }

module _ (terminal : TerminalStatus) (now : ℕ) (o : Order) where
  released-not-holding : is_holding_inventory (released_as (to_status terminal) now o) ≡ false
  unfolding is_holding_inventory
  released-not-holding = refl

  released-not-admitting : is_admitting (released_as (to_status terminal) now o) ≡ false
  unfolding is_admitting
  released-not-admitting = ground arith

  released-accounted : is_accounted (released_as (to_status terminal) now o) ≡ true
  unfolding is_accounted is_holding_inventory
  released-accounted = ground arith

-- The seats that an order counts for under a test.
abbrev pub counted : Bool → ℕ → ℕ
counted b n = if b then n else 0

pub counted-true : {b : Bool} (n : ℕ) → b ≡ true → counted b n ≡ n
counted-true n h = rw h

pub counted-false : {b : Bool} (n : ℕ) → b ≡ false → counted b n ≡ 0
counted-false n h = rw h

module _ (o : Order) (terminal : TerminalStatus) (now : ℕ) (db : Db) (c : IsConsistent db)
    (found : first (λ p. p.id == o.id) db.orders ≡ some o)
    (holding : is_holding_inventory o ≡ true) where
  -- What is held of a tier falls by the order's seats.
  pub held_falls :
      (tier : ℕ)
      → seats_held (after_release o terminal now db) tier + seats_in db.items o.id tier
        ≡ seats_held db tier
  unfolding after_release
  held_falls tier =
      let before = counted-true (seats_in db.items o.id tier) holding in
      let after =
        counted-false (seats_in db.items o.id tier) (released-not-holding terminal now o) in
      omega (
        arith,
        order_seats-update_where o.id (released_as (to_status terminal) now) (λ p. refl)
            is_holding_inventory db.items tier o db.orders c.order_ids found,
      )

  admitted_stays :
      (tier : ℕ) → seats_admitted (after_release o terminal now db) tier ≡ seats_admitted db tier
  unfolding after_release
  admitted_stays tier =
      let before = counted-false (seats_in db.items o.id tier) (holding-not-admitting o holding) in
      let after =
        counted-false (seats_in db.items o.id tier) (released-not-admitting terminal now o) in
      omega (
        arith,
        order_seats-update_where o.id (released_as (to_status terminal) now) (λ p. refl)
            is_admitting db.items tier o db.orders c.order_ids found,
      )

  row_reserved :
      (t : Tier)
      → ReservedIsHeld db t
      → ReservedIsHeld
          (after_release o terminal now db)
          (each_updated release_row (sorted_items o db) t)
  row_reserved t h =
      let row = each_updated-release (sorted_items o db) t in
      let same = ap (seats_held (after_release o terminal now db)) row.0 in
      let sorted = sum_for-sort_for_locking item_tier item_quantity t.id (items_of o.id db) in
      omega (arith, held_falls t.id)

  row_sold :
      (t : Tier)
      → SoldCoversAdmitted db t
      → SoldCoversAdmitted
          (after_release o terminal now db)
          (each_updated release_row (sorted_items o db) t)
  row_sold t h =
      let row = each_updated-release (sorted_items o db) t in
      let same = ap (seats_admitted (after_release o terminal now db)) row.0 in
      omega (arith, admitted_stays t.id)

  pub after_release-IsConsistent :
      All IsStorable (after_release o terminal now db).tiers
      → IsConsistent (after_release o terminal now db)
  unfolding after_release
  after_release-IsConsistent storable = record {
    order_ids =
        update_where-OrderIdsUnique o.id (released_as (to_status terminal) now) (λ p. refl)
          db.orders c.order_ids;
    tier_ids =
        map-TierIdsUnique _ (λ t. (each_updated-release (sorted_items o db) t).0) db.tiers
          c.tier_ids;
    storable = storable;
    reserved = All-map _ _ db.tiers (All-mono db.tiers row_reserved c.reserved);
    sold = All-map _ _ db.tiers (All-mono db.tiers row_sold c.sold);
    accounted =
        All-update_where _ _ _ db.orders (λ p _ _. released-accounted terminal now p) c.accounted;
  }

pub found_by_id : (id : ℕ) (db : Db) {o : Order} → order_by_id id db ≡ some o → o.id ≡ id
found_by_id id db found = (==_iff _ _).0 (first_holds (λ o. o.id == id) db.orders found)

pub found_here :
    (id : ℕ) (db : Db) {o : Order} → order_by_id id db ≡ some o → order_by_id o.id db ≡ some o
found_here id db {o} found =
    subst (λ n. order_by_id n db ≡ some o) (sym (found_by_id id db found)) found

Released-IsConsistent :
    {id : ℕ} {terminal : TerminalStatus} {now : ℕ} {db db' : Db} {r : ReleaseResult}
    → Released id terminal now db r db'
    → IsConsistent db
    → IsConsistent db'
Released-IsConsistent (idle o _ _ _ e) c = rw e c
Released-IsConsistent {id} {terminal} {now} {db} (returned o found holding _ e storable) c =
    let here = found_here id db found in
    rw e (after_release-IsConsistent o terminal now db c here holding (rw e at storable c.storable))

-- From a consistent database, a release that does not fail, whatever the order and the terminal
-- status, leaves a consistent database.
pub release_order-IsConsistent :
    (id : ℕ) (terminal : TerminalStatus) (now : ℕ) (db : Db) {r : ReleaseResult} {db' : Db}
    → IsConsistent db
    → release_order id terminal now db ≡ ok (r, db')
    → IsConsistent db'
release_order-IsConsistent id terminal now db c h =
    Released-IsConsistent (release_order-Released id terminal now db h) c
