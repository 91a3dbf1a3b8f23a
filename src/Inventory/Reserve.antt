-- ===== src/Inventory/Reserve.antt =====
-- `reserveTier` and `explainReservationFailure`, and the UPDATE of tier rows that they and the
-- other transactions send.
use ticketing_app.Prelude.{
  ℕ, ◌+◌, Bool, true, false, Option, none, some, List, [], ◌∷◌, map, ◌&&◌, select, first,
  update_where, all, if◌then◌else◌, leb, ltb, ◌==◌,
}
use ticketing_app.Prelude.Int.{pos, negsuc, sub_ℕ, at_least}
use ticketing_app.Schema.{Tier, OrderItem, is_active, is_closed, tier_checks, fits_int4}
use ticketing_app.Store.{ok, err, pg, check_violation, conflict, not_found}
use ticketing_app.Store.Tx.{Tx, pure, throw, throw_if, gets, or_throw, ◌>>=◌, ◌>>◌}
use ticketing_app.Inventory.Seats.{available_seats}

abbrev pub out_of_range : Tx (List Tier)
out_of_range = throw (pg "22003")

-- UPDATE ticket_tiers SET f WHERE p RETURNING *: the new rows, if they fit their columns and meet
-- the constraints; else the statement fails.
unfoldable pub update_tiers : (Tier → Bool) → (Tier → Tier) → Tx (List Tier)
update_tiers p f db =
    let rows = map f (select p db.tiers) in
    if all fits_int4 rows
    then (if all tier_checks rows
        then ok (rows, record db { tiers = update_where p f db.tiers })
        else err check_violation)
    else out_of_range db

-- `for (const item of items) await tx.update(ticketTiers).set(f(item.quantity)).where(id = item.tierId)`
unfoldable pub update_each : (ℕ → Tier → Tier) → List OrderItem → Tx Unit
update_each f [] = pure tt
update_each f (i ∷ is) = update_tiers (λ t. t.id == i.tier_id) (f i.quantity) >> update_each f is

-- ReservationRequest
pub record ReservationRequest : Type 0 where
  pub tier_id : ℕ
  pub quantity : ℕ

-- `start IS NULL OR start <= now()`
abbrev pub has_started : Option ℕ → ℕ → Bool
has_started none now = true
has_started (some start) now = leb start now

-- `end IS NULL OR end > now()`
abbrev pub has_not_ended : Option ℕ → ℕ → Bool
has_not_ended none now = true
has_not_ended (some end) now = ltb now end

-- `total IS NULL OR total - reserved - sold >= quantity`
unfoldable pub room_guard : ℕ → Tier → Bool
room_guard quantity t = elim t.quantity_total [
  | none ↦ true
  | some total ↦ at_least (sub_ℕ total (t.quantity_reserved + t.quantity_sold)) quantity
]

-- The WHERE clause of `reserveTier`.
unfoldable pub can_reserve : ℕ → ReservationRequest → ℕ → Tier → Bool
unfolding room_guard
can_reserve event_id request now t =
    t.id == request.tier_id
    && t.event_id == event_id
    && is_active t.status
    && (leb t.min_per_order request.quantity && leb request.quantity t.max_per_order)
    && has_started t.sales_start_at now
    && has_not_ended t.sales_end_at now
    && room_guard request.quantity t

unfoldable pub reserve_row : ℕ → Tier → Tier
reserve_row quantity t = record t { quantity_reserved = t.quantity_reserved + quantity }

abbrev pub head? : List Tier → Option Tier
head? [] = none
head? (t ∷ _) = some t

-- reserveTier
unfoldable pub reserve_tier : ℕ → ReservationRequest → ℕ → Tx (Option Tier)
unfolding update_tiers can_reserve reserve_row
reserve_tier event_id request now = do
  rows ← update_tiers (can_reserve event_id request now) (reserve_row request.quantity)
  pure (head? rows)

-- The last two throws of `explainReservationFailure`.
unfoldable pub explain_availability : {A : Type 0} → Tier → Tx A
unfolding available_seats
explain_availability t = elim (available_seats t) [
  | none ↦ throw (conflict "tier_unavailable" true)
  | some (pos n) ↦ throw (conflict "insufficient_inventory" (ltb 0 n))
  | some (negsuc _) ↦ throw (conflict "insufficient_inventory" false)
]

-- `tier.salesStartAt && tier.salesStartAt.getTime() > now`
abbrev pub opens_later : Option ℕ → ℕ → Bool
opens_later none now = false
opens_later (some start) now = ltb now start

-- `tier.salesEndAt && tier.salesEndAt.getTime() <= now`
abbrev pub has_closed : Option ℕ → ℕ → Bool
has_closed none now = false
has_closed (some end) now = leb end now

-- explainReservationFailure, which always throws
unfoldable pub explain_reservation_failure : {A : Type 0} → ℕ → ReservationRequest → ℕ → Tx A
unfolding explain_availability
explain_reservation_failure event_id request now = do
  found ← gets (λ db. first (λ t. t.id == request.tier_id && t.event_id == event_id) db.tiers)
  tier ← or_throw found not_found
  throw_if (is_closed tier.status) (conflict "insufficient_inventory" false)
  throw_if (if is_active tier.status then false else true) (conflict "tier_unavailable" false)
  throw_if (opens_later tier.sales_start_at now) (conflict "sales_not_open" false)
  throw_if (has_closed tier.sales_end_at now) (conflict "sales_closed" false)
  throw_if
      (if ltb request.quantity tier.min_per_order
        then true
        else ltb tier.max_per_order request.quantity)
      (conflict "quantity_out_of_bounds" false)
  explain_availability tier
