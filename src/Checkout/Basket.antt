-- ===== src/Checkout/Basket.antt =====
-- What `createCheckout` checks before it holds seats: the shape of the basket, and
-- `assertHoldCapacity`.
use ticketing_app.Prelude.{
  ℕ, Bool, true, false, List, [], ◌∷◌, ◌&&◌, if◌then◌else◌, ltb, leb, ◌==◌, select, take, length,
}
use ticketing_app.Schema.{Order}
use ticketing_app.Store.{bad_request, conflict}
use ticketing_app.Store.Tx.{Tx, pure, throw, throw_if, gets, ◌>>=◌, ◌>>◌}
use ticketing_app.Codes.Text.{list_eq}
use ticketing_app.Inventory.Seats.{is_holding_inventory}

-- CheckoutItemInput
pub record CheckoutItem : Type 0 where
  pub tier_id : ℕ
  pub quantity : ℕ

-- `seenTiers.has`
abbrev pub seen : ℕ → List ℕ → Bool
seen n [] = false
seen n (m ∷ ms) = if n == m then true else seen n ms

-- the loop over the items, with the tiers seen before
unfoldable pub check_items : List ℕ → List CheckoutItem → Tx Unit
check_items before [] = pure tt
check_items before (i ∷ is) = do
  throw_if (ltb i.quantity 1) bad_request
  throw_if (seen i.tier_id before) bad_request
  check_items (i.tier_id ∷ before) is

-- the checks on `input.items`
unfoldable pub check_basket : List CheckoutItem → Tx Unit
unfolding check_items
check_basket [] = throw bad_request
check_basket (i ∷ is) = check_items [] (i ∷ is)

-- assertHoldCapacity, with the cap MAX_ACTIVE_HOLDS_PER_PHONE. The order in which the holds are read
-- decides only which of them the message names.
unfoldable pub assert_hold_capacity : ℕ → List ℕ → Tx Unit
assert_hold_capacity cap phone = do
  held ← gets (λ db.
      take cap
        (select (λ (o : Order). list_eq o.buyer_phone phone && is_holding_inventory o) db.orders))
  throw_if (leb cap (length held)) (conflict "too_many_active_holds" true)
