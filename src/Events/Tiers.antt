-- ===== src/Events/Tiers.antt =====
-- What a buyer is shown of a tier (`toPublicTier`, `getAvailability`), and that it is what a
-- reservation goes by.
use ticketing_app.Prelude.{
  ℕ, ◌≡◌, ◌≤◌, refl, String, Bool, true, false, Option, none, some, leb, ◌&&◌, ◌||◌, not, arith,
}
use ticketing_app.Prelude.Int.{ℤ, pos_part}
use ticketing_app.Schema.{Tier, is_active, is_closed}
use ticketing_app.Inventory.Seats.{available_seats, is_null}
use ticketing_app.Inventory.Reserve.{
  has_started, has_closed, has_not_ended, room_guard, can_reserve,
}

-- PublicTier; `available` is `none` for a tier without a limit
pub record PublicTier : Type 0 where
  pub id : ℕ
  pub name : String
  pub price_cents : ℕ
  pub currency : String
  pub min_per_order : ℕ
  pub max_per_order : ℕ
  pub sales_start_at : Option ℕ
  pub sales_end_at : Option ℕ
  pub available : Option ℕ
  pub uncapped : Bool
  pub sold_out : Bool
  pub closed_by_organiser : Bool
  pub on_sale : Bool

-- `remaining === null ? null : Math.max(remaining, 0)`
abbrev pub shown_seats : Option ℤ → Option ℕ
shown_seats none = none
shown_seats (some a) = some (pos_part a)

-- `available !== null && available <= 0`
abbrev pub none_left : Option ℕ → Bool
none_left none = false
none_left (some n) = leb n 0

abbrev pub is_sold_out : Tier → Bool
is_sold_out t = is_closed t.status || none_left (shown_seats (available_seats t))

-- toPublicTier; `now` is the clock
unfoldable pub to_public_tier : Tier → String → ℕ → PublicTier
unfolding available_seats
to_public_tier t currency now = record {
  id = t.id;
  name = t.name;
  price_cents = t.price_cents;
  currency = currency;
  min_per_order = t.min_per_order;
  max_per_order = t.max_per_order;
  sales_start_at = t.sales_start_at;
  sales_end_at = t.sales_end_at;
  available = shown_seats (available_seats t);
  uncapped = is_null t.quantity_total;
  sold_out = is_sold_out t;
  closed_by_organiser = is_closed t.status;
  on_sale =
      is_active t.status
      && has_started t.sales_start_at now
      && not (has_closed t.sales_end_at now)
      && not (is_sold_out t);
}

-- An entry of what `getAvailability` returns
pub record Availability : Type 0 where
  pub tier_id : ℕ
  pub available : Option ℕ
  pub uncapped : Bool
  pub sold_out : Bool
  pub closed_by_organiser : Bool

unfoldable pub availability_of : Tier → Availability
unfolding available_seats
availability_of t = record {
  tier_id = t.id;
  available = shown_seats (available_seats t);
  uncapped = is_null (available_seats t);
  sold_out = is_sold_out t;
  closed_by_organiser = is_closed t.status;
}

-- at least so many seats are shown
abbrev pub shows : ℕ → Option ℕ → Bool
shows quantity none = true
shows quantity (some n) = leb quantity n

-- What a buyer concludes from the page: so many seats are within the limits and are there.
abbrev pub offers : PublicTier → ℕ → Bool
offers p quantity =
    p.on_sale
    && (leb p.min_per_order quantity && leb quantity p.max_per_order)
    && shows quantity p.available

closed_later : (end : Option ℕ) (now : ℕ) → has_not_ended end now ≡ not (has_closed end now)
closed_later none now = refl
closed_later (some end) now = ground arith

-- A reservation of at least one seat of a tier at its own event is admitted exactly when what the
-- buyer is shown at that moment offers that many seats.
pub can_reserve-to_public_tier :
    (t : Tier) (currency : String) (quantity now : ℕ)
    → 1 ≤ quantity
    → can_reserve t.event_id (record { tier_id = t.id; quantity = quantity }) now t
      ≡ offers (to_public_tier t currency now) quantity
unfolding can_reserve to_public_tier room_guard available_seats
can_reserve-to_public_tier t currency quantity now one =
    ground (arith, closed_later t.sales_end_at now)
