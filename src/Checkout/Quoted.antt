-- ===== src/Checkout/Quoted.antt =====
-- A preview and a quote of one basket agree.
use ticketing_app.Prelude.{
  ℕ, ◌+◌, ◌*◌, ◌≡◌, refl, ap, ◌∙◌, String, List, [], ◌∷◌, first, str_eq, arith, inl, inr,
  Option-cases,
}
use ticketing_app.Schema.{Event, Tier}
use ticketing_app.Store.{Result, Result-cases, ok, err}
use ticketing_app.Store.Exec.{World}
use ticketing_app.Checkout.Basket.{CheckoutItem}
use ticketing_app.Checkout.Create.{CheckoutSettings, get_event_row_by_slug}
use ticketing_app.Checkout.Preview.{
  BuyerInput, Issue, PreviewLine, CheckoutPreview, Quote, preview_line, preview_lines,
  preview_subtotal, preview_of, last_tier, tiers_of, check_distinct, preview_checkout, quote_items,
  quote_basket,
}

-- What a quote says of a preview.
abbrev pub quote_of : Result CheckoutPreview → Result Quote
quote_of (ok v) = ok (record { subtotal_cents = v.total_cents; currency = v.currency })
quote_of (err e) = err e

abbrev summed : ℕ → Result (List (PreviewLine × List Issue)) → Result ℕ
summed sum (ok lines) = ok (sum + preview_subtotal lines)
summed sum (err e) = err e

-- The two loops come to one sum, and throw alike.
quote_items-preview_lines :
    (tiers : List Tier) (sum : ℕ) (items : List CheckoutItem)
    → quote_items tiers sum items ≡ summed sum (preview_lines tiers items)
unfolding quote_items preview_lines preview_subtotal preview_line
quote_items-preview_lines tiers sum [] = ap ok (omega arith)
quote_items-preview_lines tiers sum (i ∷ is) = elim (Option-cases (last_tier i.tier_id tiers)) [
  | inl absent ↦ rw (quote_items, preview_lines, absent) refl
  | inr (t, found) ↦
      let rest = quote_items-preview_lines tiers (sum + t.price_cents * i.quantity) is in
      elim (Result-cases (preview_lines tiers is)) [
        | inl (lines, e) ↦
            rw (quote_items, preview_lines, found, e)
              (rest ∙ ap (summed (sum + t.price_cents * i.quantity)) e ∙ ap ok (omega arith))
        | inr (x, e) ↦
            rw (quote_items, preview_lines, found, e)
              (rest ∙ ap (summed (sum + t.price_cents * i.quantity)) e)
      ]
]

-- Of a basket in which no tier appears twice, the quote is that of the preview: the same total in
-- the same currency, or the same error; and it writes nothing.
pub quote_basket-preview_checkout :
    (settings : CheckoutSettings) (slug : String) (items : List CheckoutItem) (buyer : BuyerInput)
    (w : World)
    → check_distinct [] items ≡ ok tt
    → quote_basket slug items w ≡ (quote_of (preview_checkout settings slug items buyer w).0, w)
unfolding quote_basket preview_checkout get_event_row_by_slug preview_of
quote_basket-preview_checkout settings slug items buyer w distinct =
    elim (Option-cases (first (λ (e : Event). str_eq e.slug slug) w.db.events)) [
      | inl absent ↦ rw (distinct, absent) refl
      | inr (event, found) ↦
          let tiers = tiers_of event.id items w.db in
          let sums = quote_items-preview_lines tiers 0 items in
          elim (Result-cases (preview_lines tiers items)) [
            | inl (lines, e) ↦
                rw (distinct, found, sums, e)
                  (ap (λ n. (ok (record { subtotal_cents = n; currency = event.currency }), w))
                    (omega arith))
            | inr (x, e) ↦ rw (distinct, found, sums, e) refl
          ]
    ]
