-- ===== src/Events/Prices.antt =====
-- The page of an event quotes the price that the listing quotes.
use ticketing_app.Prelude.{
  ℕ, ◌≡◌, refl, ap, ◌∙◌, Bool, true, false, Option, none, some, List, [], ◌∷◌, select, ◌==◌, ◌&&◌,
  arith, Bool-cases, inl, inr,
}
use ticketing_app.Schema.{Organisation, Event, Tier, is_active, is_closed}
use ticketing_app.Events.Sorting.{fold, fold-order_by}
use ticketing_app.Events.Listing.{
  lower, min_price, cheapest, lowest, listed, shown_tiers, public_event, comes_before, is_shown,
}

lower_swap : (a b : ℕ) (found : Option ℕ) → lower a (lower b found) ≡ lower b (lower a found)
lower_swap a b none = ap some (omega arith)
lower_swap a b (some n) = ap some (omega arith)

-- Counting a price in first or last comes to the same.
lowest-lower :
    (price : ℕ) (found : Option ℕ) (ts : List Tier)
    → lowest (lower price found) ts ≡ lower price (lowest found ts)
unfolding lowest
lowest-lower price found [] = refl
lowest-lower price found (t ∷ ts) =
    ap (λ f. lowest f ts) (lower_swap t.price_cents price found)
    ∙ lowest-lower price (lower t.price_cents found) ts

lowest-min_price : (ts : List Tier) → lowest none ts ≡ min_price ts
unfolding lowest
lowest-min_price [] = refl
lowest-min_price (t ∷ ts) =
    lowest-lower t.price_cents none ts ∙ ap (lower t.price_cents) (lowest-min_price ts)

-- the price of a tier, if it is on sale
abbrev counted : Bool → Tier → Option ℕ → Option ℕ
counted true t found = lower t.price_cents found
counted false t found = found

abbrev count_active : Tier → Option ℕ → Option ℕ
count_active t found = counted (is_active t.status) t found

counted_swap :
    (p q : Bool) (x y : Tier) (found : Option ℕ)
    → counted p x (counted q y found) ≡ counted q y (counted p x found)
counted_swap true true x y found = lower_swap x.price_cents y.price_cents found
counted_swap true false x y found = refl
counted_swap false true x y found = refl
counted_swap false false x y found = refl

abbrev priced : List Tier → Option ℕ
priced = fold comes_before count_active (λ x y f. counted_swap _ _ x y f) none

min_price-select :
    (ts : List Tier) → min_price (select (λ (t : Tier). is_active t.status) ts) ≡ priced ts
min_price-select [] = refl
min_price-select (t ∷ ts) = elim (Bool-cases (is_active t.status)) [
  | inl e ↦ rw e (ap (lower t.price_cents) (min_price-select ts))
  | inr e ↦ rw e (min_price-select ts)
]

-- Of the tiers that are shown, those on sale are all that are on sale.
priced-select :
    (event_id : ℕ) (ts : List Tier)
    → priced (select (λ (t : Tier). t.event_id == event_id && is_shown t) ts)
      ≡ min_price (select (λ (t : Tier). t.event_id == event_id && is_active t.status) ts)
priced-select event_id [] = refl
priced-select event_id (t ∷ ts) = elim (Bool-cases (t.event_id == event_id)) [
  | inr other ↦ rw other (priced-select event_id ts)
  | inl own ↦ elim (Bool-cases (is_active t.status)) [
    | inl active ↦
        rw (own, active)
          (ap
              (λ b.
                counted b t
                  (priced (select (λ (x : Tier). x.event_id == event_id && is_shown x) ts)))
              active
            ∙ ap (lower t.price_cents) (priced-select event_id ts))
    | inr not_active ↦ elim (Bool-cases (is_closed t.status)) [
      | inl closed ↦
          rw (own, not_active, closed)
            (ap
                (λ b.
                  counted b t
                    (priced (select (λ (x : Tier). x.event_id == event_id && is_shown x) ts)))
                not_active
              ∙ priced-select event_id ts)
      | inr hidden ↦ rw (own, not_active, hidden) (priced-select event_id ts)
    ]
  ]
]

-- What the page of an event says of the event is what the listing says of it, its lowest price
-- included, which the two compute differently.
pub public_event-listed :
    (now : ℕ) (tiers : List Tier) (row : Event × Organisation)
    → (public_event now tiers row).listed ≡ listed (cheapest row.0.id tiers) row
unfolding public_event shown_tiers cheapest
public_event-listed now tiers row =
    let shown = select (λ (t : Tier). t.event_id == row.0.id && is_shown t) tiers in
    ap (λ price. listed price row)
      (lowest-min_price _
        ∙ min_price-select (shown_tiers row.0.id tiers)
        ∙ fold-order_by comes_before count_active (λ x y f. counted_swap _ _ x y f) none shown
        ∙ priced-select row.0.id tiers)
