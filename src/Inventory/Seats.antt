-- ===== src/Inventory/Seats.antt =====
-- How many seats are left, and whether an order holds some.
use ticketing_app.Prelude.{ℕ, ◌+◌, Bool, true, false, Option, none, some, ◌&&◌}
use ticketing_app.Prelude.Int.{ℤ, sub_ℕ, at_least}
use ticketing_app.Schema.{Tier, Order, OrderStatus}

-- availableSeats; `none` is `null`, an uncapped tier
unfoldable pub available_seats : Tier → Option ℤ
available_seats t = elim t.quantity_total [
  | none ↦ none
  | some total ↦ some (sub_ℕ total (t.quantity_reserved + t.quantity_sold))
]

-- hasRoomFor
unfoldable pub has_room_for : Tier → ℕ → Bool
unfolding available_seats
has_room_for t quantity = elim (available_seats t) [
  | none ↦ true
  | some available ↦ at_least available quantity
]

-- HOLDING_STATUSES.includes
abbrev pub is_holding_status : OrderStatus → Bool
is_holding_status OrderStatus.pending = true
is_holding_status OrderStatus.awaiting_payment = true
is_holding_status _ = false

abbrev pub is_null {ℓ} : {A : Type ℓ} → Option A → Bool
is_null none = true
is_null (some _) = false

-- isHoldingInventory, and holdingInventoryFilter, which is the same rule in SQL
unfoldable pub is_holding_inventory : Order → Bool
is_holding_inventory order = is_null order.released_at && is_holding_status order.status
