-- ===== src/Checkout/Preview.antt =====
-- `previewCheckout` and `quoteBasket`: what a basket costs and what would be wrong with it today,
-- without holding anything.
use ticketing_app.Prelude.{
  ℕ, ◌+◌, ◌*◌, String, Bool, true, false, Option, none, some, List, [], ◌∷◌, ◌++◌, map, select, ltb,
  ◌==◌, ◌&&◌, ◌||◌, not, if◌then◌else◌,
}
use ticketing_app.Prelude.Int.{ℤ, pos, negsuc}
use ticketing_app.Schema.{Db, Event, Tier, is_active, is_closed, is_published}
use ticketing_app.Store.{Result, ok, err, bad_request}
use ticketing_app.Store.Exec.{Exec, pure, gets, of_result, ◌>>=◌, ◌>>◌}
use ticketing_app.Money.{cents_to_mpesa_amount}
use ticketing_app.Inventory.Seats.{available_seats, has_room_for, is_null}
use ticketing_app.Checkout.Basket.{CheckoutItem, seen}
use ticketing_app.Checkout.Create.{CheckoutSettings, get_event_row_by_slug}

-- BuyerInput
pub record BuyerInput : Type 0 where
  pub name : String
  pub email : String
  pub phone : List ℕ

-- The entries of `issues`, which are sentences about a tier, by its id, or about the basket
pub data Issue : Type 0 where
  event_not_on_sale not_chargeable : Issue
  sold_out not_on_sale : ℕ → Issue
  only_left : ℤ → ℕ → Issue
  allows_between : ℕ → ℕ → ℕ → Issue

-- An entry of `items` in CheckoutPreview
pub record PreviewLine : Type 0 where
  pub tier_id : ℕ
  pub tier_name : String
  pub quantity : ℕ
  pub unit_price_cents : ℕ
  pub subtotal_cents : ℕ
  pub available_now : Option ℤ
  pub uncapped : Bool
  pub sold_out : Bool
  pub sufficient : Bool

-- CheckoutPreview
pub record CheckoutPreview : Type 0 where
  pub slug : String
  pub name : String
  pub starts_at : ℕ
  pub buyer : BuyerInput
  pub items : List PreviewLine
  pub subtotal_cents : ℕ
  pub fee_cents : ℕ
  pub total_cents : ℕ
  pub currency : String
  pub mpesa_amount : ℕ
  pub hold_minutes : ℕ
  pub chargeable : Bool
  pub issues : List Issue

-- `available <= 0`
abbrev pub is_gone : ℤ → Bool
is_gone (pos n) = n == 0
is_gone (negsuc n) = true

abbrev pub when_true : Bool → Issue → List Issue
when_true true i = i ∷ []
when_true false i = []

abbrev pub shortage_of : Tier → Option ℤ → List Issue
shortage_of t none = []
shortage_of t (some n) = (if is_gone n then Issue.sold_out t.id else Issue.only_left n t.id) ∷ []

abbrev pub status_issue : Tier → List Issue
status_issue t =
    if is_closed t.status
    then Issue.sold_out t.id ∷ []
    else if is_active t.status
    then []
    else Issue.not_on_sale t.id ∷ []

-- The issues of one line
unfoldable pub line_issues : Tier → CheckoutItem → List Issue
line_issues t i =
    (if has_room_for t i.quantity then [] else shortage_of t (available_seats t))
    ++ status_issue t
    ++ when_true (ltb i.quantity t.min_per_order || ltb t.max_per_order i.quantity)
        (Issue.allows_between t.id t.min_per_order t.max_per_order)

abbrev pub is_gone_option : Option ℤ → Bool
is_gone_option none = false
is_gone_option (some n) = is_gone n

unfoldable pub preview_line : Tier → CheckoutItem → PreviewLine
preview_line t i = record {
  tier_id = t.id;
  tier_name = t.name;
  quantity = i.quantity;
  unit_price_cents = t.price_cents;
  subtotal_cents = t.price_cents * i.quantity;
  available_now = available_seats t;
  uncapped = is_null (available_seats t);
  sold_out = is_closed t.status || is_gone_option (available_seats t);
  sufficient = has_room_for t i.quantity && not (is_closed t.status);
}

-- The loop over the items, with the tiers seen before
unfoldable pub check_distinct : List ℕ → List CheckoutItem → Result {0} Unit
check_distinct before [] = ok tt
check_distinct before (i ∷ is) =
    let rest = check_distinct (i.tier_id ∷ before) is in
    if seen i.tier_id before then err bad_request else rest

abbrev pub item_tiers : List CheckoutItem → List ℕ
item_tiers = map (λ (i : CheckoutItem). i.tier_id)

-- The SELECT of the tiers, and `tierById.get`: a later row with the same id would win
unfoldable pub tiers_of : ℕ → List CheckoutItem → Db → List Tier
tiers_of event_id items db =
    select (λ (t : Tier). t.event_id == event_id && seen t.id (item_tiers items)) db.tiers

unfoldable pub last_tier : ℕ → List Tier → Option Tier
last_tier id [] = none
last_tier id (t ∷ ts) = elim (last_tier id ts) [
  | some later ↦ some later
  | none ↦ if t.id == id then some t else none
]

-- The lines, each with its issues; an unknown tier throws
unfoldable pub preview_lines :
    List Tier → List CheckoutItem → Result (List (PreviewLine × List Issue))
preview_lines tiers [] = ok []
preview_lines tiers (i ∷ is) =
    let rest = preview_lines tiers is in
    elim (last_tier i.tier_id tiers) [
      | none ↦ err bad_request
      | some t ↦ elim rest [
        | err e ↦ err e
        | ok lines ↦ ok ((preview_line t i, line_issues t i) ∷ lines)
      ]
    ]

unfoldable pub preview_subtotal : List (PreviewLine × List Issue) → ℕ
preview_subtotal [] = 0
preview_subtotal ((l, _) ∷ ls) = l.subtotal_cents + preview_subtotal ls

unfoldable pub all_issues : List (PreviewLine × List Issue) → List Issue
all_issues [] = []
all_issues ((_, is) ∷ ls) = is ++ all_issues ls

-- `centsToMpesaAmount`, or 0 with an issue
abbrev pub amount_or_issue : Result ℕ → ℕ × List Issue
amount_or_issue (ok n) = (n, [])
amount_or_issue (err e) = (0, Issue.not_chargeable ∷ [])

abbrev pub is_empty_issues : List Issue → Bool
is_empty_issues [] = true
is_empty_issues (_ ∷ _) = false

unfoldable pub issues_of : Event → List (PreviewLine × List Issue) → List Issue
unfolding all_issues preview_subtotal
issues_of event lines =
    when_true (not (is_published event.status)) Issue.event_not_on_sale
    ++ all_issues lines
    ++ (amount_or_issue (cents_to_mpesa_amount (preview_subtotal lines))).1

unfoldable pub preview_of :
    CheckoutSettings → Event → BuyerInput → List (PreviewLine × List Issue) → CheckoutPreview
unfolding issues_of preview_subtotal
preview_of settings event buyer lines = record {
  slug = event.slug;
  name = event.name;
  starts_at = event.starts_at;
  buyer = buyer;
  items = map (λ (l : PreviewLine × List Issue). l.0) lines;
  subtotal_cents = preview_subtotal lines;
  fee_cents = 0;
  total_cents = preview_subtotal lines;
  currency = event.currency;
  mpesa_amount = (amount_or_issue (cents_to_mpesa_amount (preview_subtotal lines))).0;
  hold_minutes = settings.order_hold_minutes;
  chargeable = is_empty_issues (issues_of event lines);
  issues = issues_of event lines;
}

-- previewCheckout
unfoldable pub preview_checkout :
    CheckoutSettings → String → List CheckoutItem → BuyerInput → Exec CheckoutPreview
preview_checkout settings slug items buyer = do
  of_result (check_distinct [] items)
  event ← get_event_row_by_slug slug
  tiers ← gets (tiers_of event.id items)
  lines ← of_result (preview_lines tiers items)
  pure (preview_of settings event buyer lines)

-- What `quoteBasket` returns
pub record Quote : Type 0 where
  pub subtotal_cents : ℕ
  pub currency : String

-- the `reduce` of the items, from the left
unfoldable pub quote_items : List Tier → ℕ → List CheckoutItem → Result ℕ
quote_items tiers sum [] = ok sum
quote_items tiers sum (i ∷ is) = elim (last_tier i.tier_id tiers) [
  | none ↦ err bad_request
  | some t ↦ quote_items tiers (sum + t.price_cents * i.quantity) is
]

-- quoteBasket
unfoldable pub quote_basket : String → List CheckoutItem → Exec Quote
quote_basket slug items = do
  event ← get_event_row_by_slug slug
  tiers ← gets (tiers_of event.id items)
  subtotal ← of_result (quote_items tiers 0 items)
  pure (record { subtotal_cents = subtotal; currency = event.currency })
