-- ===== src/Inventory/Counters/Paid.antt =====
-- What a settlement moves in the counts, row by row.
use ticketing_app.Prelude.{
  ℕ, ◌+◌, ◌≤◌, ◌≡◌, refl, ap, Bool, true, false, Option, none, some, first, arith, ◌==◌, inl, inr,
  Bool-cases,
}
use ticketing_app.Schema.{Db, Tier, Order, OrderStatus, Object, is_paid}
use ticketing_app.Schema.Objects.{refund_required-set}
use ticketing_app.Inventory.Seats.{is_holding_inventory}
use ticketing_app.Inventory.Locking.{sum_for-sort_for_locking}
use ticketing_app.Inventory.Release.{items_of}
use ticketing_app.Inventory.Commit.{paid_metadata}
use ticketing_app.Inventory.Counters.Sums.{
  item_tier, item_quantity, order_seats-update_where, seats_in,
}
use ticketing_app.Inventory.Counters.Rows.{each_updated-sell_held, item_sum}
use ticketing_app.Inventory.Counters.Lapsed.{each_taken, each_taken_grows}
use ticketing_app.Inventory.Counters.Invariant.{
  IsConsistent, is_admitting, is_accounted, seats_held, seats_admitted, ReservedIsHeld,
  SoldCoversAdmitted,
}
use ticketing_app.Inventory.Counters.Releasing.{sorted_items, counted, counted-true, counted-false}
use ticketing_app.Inventory.Counters.Committing.{sold_row, lapsed, after_commit}

abbrev pub paid_as : ℕ → Option Object → Order → Order
paid_as now metadata o = record o {
  status = OrderStatus.paid;
  paid_at = some now;
  released_at = none;
  metadata = metadata;
}

module _ (now : ℕ) (metadata : Option Object) (o : Order) where
  paid-not-holding : is_holding_inventory (paid_as now metadata o) ≡ false
  unfolding is_holding_inventory
  paid-not-holding = refl

  pub paid-accounted : is_accounted (paid_as now metadata o) ≡ true
  unfolding is_accounted
  paid-accounted = refl

pub flagged-not-admitting :
    (now : ℕ) (o : Order) → is_admitting (paid_as now (paid_metadata true o.metadata) o) ≡ false
unfolding is_admitting paid_metadata
flagged-not-admitting now o = ground (arith, refund_required-set o.metadata)

unpaid-not-admitting : (o : Order) → is_paid o.status ≡ false → is_admitting o ≡ false
unfolding is_admitting
unpaid-not-admitting o h = ground arith

-- An unpaid order of a consistent database holds its seats or has had them returned.
pub standing-holding :
    (o : Order)
    → is_paid o.status ≡ false
    → is_accounted o ≡ true
    → lapsed o ≡ false
    → is_holding_inventory o ≡ true
unfolding is_accounted
standing-holding o unpaid h k = ground arith

pub lapsed-not-holding : (o : Order) → lapsed o ≡ true → is_holding_inventory o ≡ false
unfolding is_holding_inventory
lapsed-not-holding o h = ground arith

module _ (o : Order) (refund : Bool) (now : ℕ) (db : Db) (c : IsConsistent db)
    (found : first (λ p. p.id == o.id) db.orders ≡ some o) (unpaid : is_paid o.status ≡ false) where
  abbrev pub settled : Order
  settled = paid_as now (paid_metadata refund o.metadata) o

  abbrev after : Db
  after = after_commit o refund now db

  abbrev seats : ℕ → ℕ
  seats tier = seats_in db.items o.id tier

  held_moves :
      (tier : ℕ)
      → seats_held after tier + counted (is_holding_inventory o) (seats tier) ≡ seats_held db tier
  unfolding after_commit
  held_moves tier =
      let later =
        counted-false (seats tier) (paid-not-holding now (paid_metadata refund o.metadata) o) in
      omega (
        arith,
        order_seats-update_where o.id (paid_as now (paid_metadata refund o.metadata)) (λ p. refl)
            is_holding_inventory db.items tier o db.orders c.order_ids found,
      )

  admitted_moves :
      (tier : ℕ)
      → seats_admitted after tier
        ≡ seats_admitted db tier + counted (is_admitting settled) (seats tier)
  unfolding after_commit
  admitted_moves tier =
      let before = counted-false (seats tier) (unpaid-not-admitting o unpaid) in
      omega (
        arith,
        order_seats-update_where o.id (paid_as now (paid_metadata refund o.metadata)) (λ p. refl)
            is_admitting db.items tier o db.orders c.order_ids found,
      )

  admitted_at_most : (tier : ℕ) → seats_admitted after tier ≤ seats_admitted db tier + seats tier
  admitted_at_most tier = elim (Bool-cases (is_admitting settled)) [
    | inl e ↦ let more = counted-true (seats tier) e in omega (arith, admitted_moves tier)
    | inr e ↦ let none_more = counted-false (seats tier) e in omega (arith, admitted_moves tier)
  ]

  items_sum_seats : (t : Tier) → item_sum t.id (sorted_items o db) ≡ seats t.id
  items_sum_seats t = sum_for-sort_for_locking item_tier item_quantity t.id (items_of o.id db)

  -- The hold stands: the row's seats go from reserved to sold.
  pub standing_reserved :
      is_holding_inventory o ≡ true
      → (t : Tier) → ReservedIsHeld db t
      → ReservedIsHeld after (sold_row false (sorted_items o db) t)
  standing_reserved holding t h =
      let row = each_updated-sell_held (sorted_items o db) t in
      let same = ap (seats_held after) row.0 in
      let before = counted-true (seats t.id) holding in
      omega (arith, held_moves t.id, items_sum_seats t)

  pub standing_sold :
      (t : Tier)
      → SoldCoversAdmitted db t
      → SoldCoversAdmitted after (sold_row false (sorted_items o db) t)
  standing_sold t h =
      let row = each_updated-sell_held (sorted_items o db) t in
      let same = ap (seats_admitted after) row.0 in
      omega (arith, admitted_at_most t.id, items_sum_seats t)

  -- The hold has lapsed: nothing reserved moves.
  pub lapsed_reserved :
      is_holding_inventory o ≡ false
      → (t : Tier) → ReservedIsHeld db t
      → ReservedIsHeld after (sold_row true (sorted_items o db) t)
  lapsed_reserved quiet t h =
      let row = each_taken_grows (sorted_items o db) t in
      let same = ap (seats_held after) row.0 in
      let before = counted-false (seats t.id) quiet in omega (arith, held_moves t.id)

  -- If nothing was flagged the row has sold the order's seats.
  pub lapsed_sold :
      (t : Tier)
      → SoldCoversAdmitted db t
      → (each_taken (sorted_items o db) t).quantity_sold
        ≡ t.quantity_sold + item_sum t.id (sorted_items o db)
      → SoldCoversAdmitted after (sold_row true (sorted_items o db) t)
  lapsed_sold t h all_sold =
      let row = each_taken_grows (sorted_items o db) t in
      let same = ap (seats_admitted after) row.0 in
      omega (arith, admitted_at_most t.id, items_sum_seats t)

  -- If something was flagged the order admits nobody.
  pub flagged_sold :
      is_admitting settled ≡ false
      → (t : Tier) → SoldCoversAdmitted db t
      → SoldCoversAdmitted after (sold_row true (sorted_items o db) t)
  flagged_sold flagged t h =
      let row = each_taken_grows (sorted_items o db) t in
      let same = ap (seats_admitted after) row.0 in
      let none_more = counted-false (seats t.id) flagged in omega (arith, admitted_moves t.id)
