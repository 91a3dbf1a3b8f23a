-- ===== src/Inventory/Counters/Lapsed.antt =====
-- The loop of `commitOrder` over an order whose hold has lapsed: each item is taken from what is
-- still available, or the order is flagged for a refund.
use mathlib.Core.Path.{subst}
use ticketing_app.Prelude.{
  ℕ, ◌+◌, ◌≤◌, ◌≡◌, ◌≢◌, refl, sym, ◌∙◌, ap, Bool, true, false, List, [], ◌∷◌, map, select,
  if◌then◌else◌, ◌==◌, ◌&&◌, ◌||◌, arith, All, All-mono, All-zip, ==_iff, inl, inr, Bool-cases,
}
use ticketing_app.Schema.{Db, Tier, OrderItem}
use ticketing_app.Store.{ok}
use ticketing_app.Store.Tx.{>>=-eq-ok}
use ticketing_app.Inventory.Locking.{sum_for}
use ticketing_app.Inventory.Reserve.{update_tiers, room_guard}
use ticketing_app.Inventory.Commit.{sell_row, sell_lapsed_items, is_empty}
use ticketing_app.Inventory.Counters.Rows.{
  IsStorable, updated, update_tiers_lem, map-map, map_id, item_sum,
}

-- No two tiers have one id: the primary key.
abbrev pub TierIdsUnique : List Tier → Type 0
TierIdsUnique [] = Unit
TierIdsUnique (t ∷ ts) = All (λ (u : Tier). u.id ≢ t.id) ts × TierIdsUnique ts

module _ (g : Tier → Tier) (keeps_id : (t : Tier) → (g t).id ≡ t.id) where
  All-map_ids :
      (n : ℕ) (ts : List Tier)
      → All (λ (u : Tier). u.id ≢ n) ts
      → All (λ (u : Tier). u.id ≢ n) (map g ts)
  All-map_ids n [] h = tt
  All-map_ids n (t ∷ ts) h = (ground (arith, keeps_id t), All-map_ids n ts h.1)

  pub map-TierIdsUnique : (ts : List Tier) → TierIdsUnique ts → TierIdsUnique (map g ts)
  map-TierIdsUnique [] u = tt
  map-TierIdsUnique (t ∷ ts) u =
      (rw (keeps_id t) (All-map_ids t.id ts u.0), map-TierIdsUnique ts u.1)

pub All-map_back {ℓ} :
    (P : Tier → Type ℓ) (g : Tier → Tier) (ts : List Tier)
    → All P (map g ts)
    → All (λ t. P (g t)) ts
All-map_back P g [] h = tt
All-map_back P g (t ∷ ts) h = (h.0, All-map_back P g ts h.1)

pub All-map {ℓ} :
    (P : Tier → Type ℓ) (g : Tier → Tier) (ts : List Tier)
    → All (λ t. P (g t)) ts
    → All P (map g ts)
All-map P g [] h = tt
All-map P g (t ∷ ts) h = (h.0, All-map P g ts h.1)

pub All-true {ℓ} : {P : Tier → Type ℓ} (ts : List Tier) → ((t : Tier) → P t) → All P ts
All-true [] f = tt
All-true (t ∷ ts) f = (f t, All-true ts f)

-- The condition of the item's UPDATE.
abbrev pub takes : OrderItem → Tier → Bool
takes i t = t.id == i.tier_id && room_guard i.quantity t

none_absent :
    (i : OrderItem) (f : Tier → Tier) (ts : List Tier)
    → All (λ (u : Tier). u.id ≢ i.tier_id) ts
    → is_empty (map f (select (takes i) ts)) ≡ true
none_absent i f [] h = refl
none_absent i f (t ∷ ts) h = ground (arith, none_absent i f ts h.1)

-- Where the statement changed a row, every row of that tier had room: there is but one.
taken-has_room :
    (i : OrderItem) (f : Tier → Tier) (ts : List Tier)
    → TierIdsUnique ts
    → is_empty (map f (select (takes i) ts)) ≡ false
    → All (λ (t : Tier). t.id ≡ i.tier_id → room_guard i.quantity t ≡ true) ts
taken-has_room i f [] u h = tt
taken-has_room i f (t ∷ ts) u h = elim (Bool-cases (t.id == i.tier_id)) [
  | inl here ↦
      let at_tier : t.id ≡ i.tier_id = (==_iff _ _).0 here in
      let others : All (λ (v : Tier). v.id ≢ i.tier_id) ts = rw at_tier at u.0 in
      (
        λ _. ground (arith, none_absent i f ts others),
        All-mono ts (λ (v : Tier) (ne : v.id ≢ i.tier_id) (e : v.id ≡ i.tier_id). absurd (ne e))
            others,
      )
  | inr other ↦
      (λ (e : t.id ≡ i.tier_id). absurd (ground arith), taken-has_room i f ts u.1 (ground arith))
]

abbrev pub each_taken : List OrderItem → Tier → Tier
each_taken [] t = t
each_taken (i ∷ is) t = each_taken is (updated (takes i) (sell_row i.quantity) t)

updated-taken :
    (i : OrderItem) (t : Tier)
    → let t' = updated (takes i) (sell_row i.quantity) t in
      (t'.id ≡ t.id)
      × (t'.quantity_reserved ≡ t.quantity_reserved)
      × (t.quantity_sold ≤ t'.quantity_sold)
unfolding sell_row
updated-taken i t = ground arith

updated-taken_room :
    (i : OrderItem) (t : Tier)
    → (t.id ≡ i.tier_id → room_guard i.quantity t ≡ true)
    → (updated (takes i) (sell_row i.quantity) t).quantity_sold
      ≡ t.quantity_sold + (if t.id == i.tier_id then i.quantity else 0)
unfolding sell_row
updated-taken_room i t h = ground (arith, h)

-- Whatever could be taken, the loop leaves the reservations alone and never unsells.
pub each_taken_grows :
    (is : List OrderItem) (t : Tier)
    → let t' = each_taken is t in
      (t'.id ≡ t.id)
      × (t'.quantity_reserved ≡ t.quantity_reserved)
      × (t.quantity_sold ≤ t'.quantity_sold)
each_taken_grows [] t = (refl, refl, omega arith)
each_taken_grows (i ∷ is) t =
    let step = updated-taken i t in
    let rest = each_taken_grows is (updated (takes i) (sell_row i.quantity) t) in
    (rest.0 ∙ step.0, rest.1 ∙ step.1, omega arith)

each_taken_step :
    (i : OrderItem) (is : List OrderItem) (t : Tier)
    → (let t' = updated (takes i) (sell_row i.quantity) t in
        (each_taken is t').quantity_sold ≡ t'.quantity_sold + item_sum t'.id is)
    → (t.id ≡ i.tier_id → room_guard i.quantity t ≡ true)
    → (each_taken (i ∷ is) t).quantity_sold ≡ t.quantity_sold + item_sum t.id (i ∷ is)
unfolding sum_for
each_taken_step i is t later room =
    let same = ap (λ n. item_sum n is) (updated-taken i t).0 in
    omega (arith, updated-taken_room i t room)

-- The loop changes only tiers; if it flags nothing, every item has been sold.
pub sell_lapsed_items_lem :
    (is : List OrderItem) (r : Bool) (db : Db) {db' : Db} {r' : Bool}
    → sell_lapsed_items is r db ≡ ok (r', db')
    → (db' ≡ record db { tiers = map (each_taken is) db.tiers })
      × (All IsStorable db.tiers → All IsStorable db'.tiers)
      × (TierIdsUnique db.tiers
          → r' ≡ false
          → (r ≡ false)
            × All
                (λ (t : Tier). (each_taken is t).quantity_sold ≡ t.quantity_sold + item_sum t.id is)
                db.tiers)
unfolding sell_lapsed_items sum_for
sell_lapsed_items_lem [] r db {db'} {r'} h =
    let e : db' ≡ db = cc in
    let e' : r' ≡ r = cc in
    (
      e ∙ ap (λ (ts : List Tier). record db { tiers = ts }) (sym (map_id db.tiers)),
      λ s. subst (λ d. All IsStorable d.tiers) (sym e) s,
      λ _ f. (sym e' ∙ f, All-true db.tiers (λ t. omega arith)),
    )
sell_lapsed_items_lem (i ∷ is) r db {db'} {r'} h =
    let split =
      >>=-eq-ok (update_tiers (takes i) (sell_row i.quantity))
        (λ rows. sell_lapsed_items is (r || is_empty rows)) db h in
    let g = updated (takes i) (sell_row i.quantity) in
    let one = update_tiers_lem (takes i) (sell_row i.quantity) db split.1 in
    let rest = sell_lapsed_items_lem is (r || is_empty split.0.0) split.0.1 split.2 in
    (
      rest.0
          ∙ ap (λ (d : Db). record d { tiers = map (each_taken is) d.tiers }) one.0
          ∙ ap (λ (ts : List Tier). record db { tiers = ts }) (map-map (each_taken is) g db.tiers),
      λ s. rest.1 (one.2 s),
      λ u f.
          let tiers_e : split.0.1.tiers ≡ map g db.tiers = ap (λ (d : Db). d.tiers) one.0 in
          let u' : TierIdsUnique split.0.1.tiers =
            rw tiers_e (map-TierIdsUnique g (λ t. (updated-taken i t).0) db.tiers u) in
          let later = rest.2 u' f in
          let all_taken = All-map_back _ g db.tiers (rw tiers_e at later.1) in
          let none_missing : is_empty split.0.0 ≡ false = ground arith in
          let room = taken-has_room i (sell_row i.quantity) db.tiers u (rw one.1 at none_missing) in
          (ground arith, All-zip db.tiers (each_taken_step i is) all_taken room),
    )
