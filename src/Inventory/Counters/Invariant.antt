-- ===== src/Inventory/Counters/Invariant.antt =====
-- The invariant of the counters, and what it promises buyers.
use ticketing_app.Prelude.{
  ℕ, ◌+◌, ◌≤◌, ◌≡◌, Bool, true, false, some, ◌&&◌, ◌||◌, not, arith, All, All-zip,
}
use ticketing_app.Schema.{Db, Tier, Order, is_paid, tier_checks}
use ticketing_app.Schema.Objects.{refund_required}
use ticketing_app.Inventory.Seats.{is_holding_inventory, is_null}
use ticketing_app.Inventory.Counters.Sums.{order_seats, OrderIdsUnique}
use ticketing_app.Inventory.Counters.Rows.{IsStorable}
use ticketing_app.Inventory.Counters.Lapsed.{TierIdsUnique}

-- The orders that tickets may be issued for: paid, and not flagged for a refund.
unfoldable pub is_admitting : Order → Bool
is_admitting o = is_paid o.status && not (refund_required o.metadata)

-- An order that is neither paid nor holding seats has had them returned.
unfoldable pub is_accounted : Order → Bool
is_accounted o = is_paid o.status || is_holding_inventory o || not (is_null o.released_at)

-- The seats of one tier that pending orders hold, and those that admissions stand for.
abbrev pub seats_held : Db → ℕ → ℕ
seats_held db tier = order_seats is_holding_inventory db.items tier db.orders

abbrev pub seats_admitted : Db → ℕ → ℕ
seats_admitted db tier = order_seats is_admitting db.items tier db.orders

abbrev pub ReservedIsHeld : Db → Tier → Type 0
ReservedIsHeld db t = t.quantity_reserved ≡ seats_held db t.id

abbrev pub SoldCoversAdmitted : Db → Tier → Type 0
SoldCoversAdmitted db t = seats_admitted db t.id ≤ t.quantity_sold

abbrev pub AllReservedIsHeld : Db → Type 0
AllReservedIsHeld db = All (ReservedIsHeld db) db.tiers

abbrev pub AllSoldCoversAdmitted : Db → Type 0
AllSoldCoversAdmitted db = All (SoldCoversAdmitted db) db.tiers

-- Keys are unique, rows are storable, every `quantity_reserved` is exactly what the holding orders
-- hold, and every `quantity_sold` covers the admissions.
pub record IsConsistent (db : Db) : Type 0 where
  pub order_ids : OrderIdsUnique db.orders
  pub tier_ids : TierIdsUnique db.tiers
  pub storable : All IsStorable db.tiers
  pub reserved : AllReservedIsHeld db
  pub sold : AllSoldCoversAdmitted db
  pub accounted : All (λ (o : Order). is_accounted o ≡ true) db.orders

-- A capped tier never promises more seats than it has.
abbrev pub NotOversold : Db → Tier → Type 0
NotOversold db t =
    (total : ℕ)
    → t.quantity_total ≡ some total
    → seats_held db t.id + seats_admitted db t.id ≤ total

storable-total :
    (t : Tier) (total : ℕ)
    → tier_checks t ≡ true
    → t.quantity_total ≡ some total
    → t.quantity_reserved + t.quantity_sold ≤ total
unfolding tier_checks
storable-total t total h e = ground arith

-- In a consistent database, for every capped tier, the seats that pending orders hold and the seats
-- of paid orders that are not flagged for a refund are together no more than the tier's total.
pub consistent-NotOversold : (db : Db) → IsConsistent db → All (NotOversold db) db.tiers
consistent-NotOversold db c =
    All-zip db.tiers
      (λ t (k : IsStorable t × ReservedIsHeld db t) (s : SoldCoversAdmitted db t) total e.
        omega (arith, storable-total t total k.0.1 e))
      (All-zip db.tiers (λ t k r. (k, r)) c.storable c.reserved) c.sold

-- An order that holds seats admits nobody yet.
pub holding-not-admitting : (o : Order) → is_holding_inventory o ≡ true → is_admitting o ≡ false
unfolding is_holding_inventory is_admitting
holding-not-admitting o h = ground arith
