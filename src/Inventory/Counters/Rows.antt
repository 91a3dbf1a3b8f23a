-- ===== src/Inventory/Counters/Rows.antt =====
-- What the loops over an order's items do to each tier row.
use ticketing_app.Prelude.{
  ℕ, ◌+◌, ◌-◌, ◌≡◌, refl, ◌∙◌, ap, Bool, true, List, [], ◌∷◌, map, select, update_where, all,
  if◌then◌else◌, ◌==◌, arith, All, inl, inr, Bool-cases, all-cons, sym,
}
use mathlib.Core.Path.{subst}
use ticketing_app.Schema.{Db, Tier, OrderItem, tier_checks, fits_int4}
use ticketing_app.Store.{ok}
use ticketing_app.Store.Tx.{>>=-eq-ok}
use ticketing_app.Inventory.Locking.{sum_for}
use ticketing_app.Inventory.Reserve.{update_tiers, update_each}
use ticketing_app.Inventory.Release.{release_row}
use ticketing_app.Inventory.Commit.{sell_held_row}
use ticketing_app.Inventory.Counters.Sums.{item_tier, item_quantity}

-- The row fits its columns and meets the constraints.
abbrev pub IsStorable : Tier → Type 0
IsStorable t = (fits_int4 t ≡ true) × (tier_checks t ≡ true)

module _ (p : Tier → Bool) (f : Tier → Tier) where
  -- What `update_tiers` does to one row.
  abbrev pub updated : Tier → Tier
  updated t = if p t then f t else t

  update_where-eq-map : (ts : List Tier) → update_where p f ts ≡ map updated ts
  update_where-eq-map [] = refl
  update_where-eq-map (t ∷ ts) = ap (λ (r : List Tier). updated t ∷ r) (update_where-eq-map ts)

  map-updated-IsStorable :
      (ts : List Tier)
      → all fits_int4 (map f (select p ts)) ≡ true
      → all tier_checks (map f (select p ts)) ≡ true
      → All IsStorable ts
      → All IsStorable (map updated ts)
  map-updated-IsStorable [] h k s = tt
  map-updated-IsStorable (t ∷ ts) h k s = elim (Bool-cases (p t)) [
    | inl e ↦
        let fits = all-cons fits_int4 (f t) (map f (select p ts)) (rw e at h) in
        let checks = all-cons tier_checks (f t) (map f (select p ts)) (rw e at k) in
        rw e ((fits.0, checks.0), map-updated-IsStorable ts fits.1 checks.1 s.1)
    | inr e ↦ rw e (s.0, map-updated-IsStorable ts (rw e at h) (rw e at k) s.1)
  ]

  update_tiers-shape :
      (db : Db) {db' : Db} {rows : List Tier}
      → update_tiers p f db ≡ ok (rows, db')
      → (all fits_int4 (map f (select p db.tiers)) ≡ true)
        × (all tier_checks (map f (select p db.tiers)) ≡ true)
        × (db' ≡ record db { tiers = update_where p f db.tiers })
        × (rows ≡ map f (select p db.tiers))
  unfolding update_tiers
  update_tiers-shape db h = ground arith

  -- A statement that does not fail changes each row as `updated` says, and stores what may be stored.
  pub update_tiers_lem :
      (db : Db) {db' : Db} {rows : List Tier}
      → update_tiers p f db ≡ ok (rows, db')
      → (db' ≡ record db { tiers = map updated db.tiers })
        × (rows ≡ map f (select p db.tiers))
        × (All IsStorable db.tiers → All IsStorable db'.tiers)
  update_tiers_lem db {db'} h =
      let s = update_tiers-shape db h in
      let e : db' ≡ record db { tiers = map updated db.tiers } =
        s.2 ∙ ap (λ (ts : List Tier). record db { tiers = ts }) (update_where-eq-map db.tiers) in
      (
        e,
        s.3,
        λ st.
            subst (λ d. All IsStorable d.tiers) (sym e)
              (map-updated-IsStorable db.tiers s.0 s.1 st),
      )

-- What the loop of `f` over the items does to one row.
abbrev pub each_updated : (ℕ → Tier → Tier) → List OrderItem → Tier → Tier
each_updated f [] t = t
each_updated f (i ∷ is) t = each_updated f is (updated (λ u. u.id == i.tier_id) (f i.quantity) t)

pub map-map : (g h : Tier → Tier) (ts : List Tier) → map g (map h ts) ≡ map (λ t. g (h t)) ts
map-map g h [] = refl
map-map g h (t ∷ ts) = ap (λ (r : List Tier). g (h t) ∷ r) (map-map g h ts)

pub map_id : (ts : List Tier) → map (λ (t : Tier). t) ts ≡ ts
map_id [] = refl
map_id (t ∷ ts) = ap (λ (r : List Tier). t ∷ r) (map_id ts)

-- A loop that does not fail changes each row so, and nothing but the tiers.
pub update_each_lem :
    (f : ℕ → Tier → Tier) (is : List OrderItem) (db : Db) {db' : Db} {u : Unit}
    → update_each f is db ≡ ok (u, db')
    → (db' ≡ record db { tiers = map (each_updated f is) db.tiers })
      × (All IsStorable db.tiers → All IsStorable db'.tiers)
unfolding update_each
update_each_lem f [] db {db'} h =
    let e : db' ≡ db = cc in
    (
      e ∙ ap (λ (ts : List Tier). record db { tiers = ts }) (sym (map_id db.tiers)),
      λ s. subst (λ d. All IsStorable d.tiers) (sym e) s,
    )
update_each_lem f (i ∷ is) db {db'} h =
    let split =
      >>=-eq-ok (update_tiers (λ t. t.id == i.tier_id) (f i.quantity)) (λ _. update_each f is) db
        h in
    let one = update_tiers_lem (λ t. t.id == i.tier_id) (f i.quantity) db split.1 in
    let rest = update_each_lem f is split.0.1 split.2 in
    (
      rest.0
          ∙ ap (λ (d : Db). record d { tiers = map (each_updated f is) d.tiers }) one.0
          ∙ ap (λ (ts : List Tier). record db { tiers = ts })
              (map-map (each_updated f is) _ db.tiers),
      λ s. rest.1 (one.2 s),
    )

abbrev pub item_sum : ℕ → List OrderItem → ℕ
item_sum = sum_for item_tier item_quantity

-- One step of either loop.
updated-release :
    (i : OrderItem) (t : Tier)
    → let t' = updated (λ u. u.id == i.tier_id) (release_row i.quantity) t in
      (t'.id ≡ t.id)
      × (t'.quantity_reserved ≡ t.quantity_reserved - (if t.id == i.tier_id then i.quantity else 0))
      × (t'.quantity_sold ≡ t.quantity_sold)
unfolding release_row
updated-release i t = ground arith

updated-sell_held :
    (i : OrderItem) (t : Tier)
    → let t' = updated (λ u. u.id == i.tier_id) (sell_held_row i.quantity) t in
      (t'.id ≡ t.id)
      × (t'.quantity_reserved ≡ t.quantity_reserved - (if t.id == i.tier_id then i.quantity else 0))
      × (t'.quantity_sold ≡ t.quantity_sold + (if t.id == i.tier_id then i.quantity else 0))
unfolding sell_held_row
updated-sell_held i t = ground arith

-- The release loop takes the sum of the row's items off what is reserved.
pub each_updated-release :
    (is : List OrderItem) (t : Tier)
    → let t' = each_updated release_row is t in
      (t'.id ≡ t.id)
      × (t'.quantity_reserved ≡ t.quantity_reserved - item_sum t.id is)
      × (t'.quantity_sold ≡ t.quantity_sold)
unfolding sum_for
each_updated-release [] t = (refl, omega arith, refl)
each_updated-release (i ∷ is) t =
    let t1 = updated (λ u. u.id == i.tier_id) (release_row i.quantity) t in
    let step = updated-release i t in
    let rest = each_updated-release is t1 in
    let same = ap (λ n. item_sum n is) step.0 in (rest.0 ∙ step.0, omega arith, rest.2 ∙ step.2)

-- The settlement loop moves the sum of the row's items from reserved to sold.
pub each_updated-sell_held :
    (is : List OrderItem) (t : Tier)
    → let t' = each_updated sell_held_row is t in
      (t'.id ≡ t.id)
      × (t'.quantity_reserved ≡ t.quantity_reserved - item_sum t.id is)
      × (t'.quantity_sold ≡ t.quantity_sold + item_sum t.id is)
unfolding sum_for
each_updated-sell_held [] t = (refl, omega arith, omega arith)
each_updated-sell_held (i ∷ is) t =
    let t1 = updated (λ u. u.id == i.tier_id) (sell_held_row i.quantity) t in
    let step = updated-sell_held i t in
    let rest = each_updated-sell_held is t1 in
    let same = ap (λ n. item_sum n is) step.0 in (rest.0 ∙ step.0, omega arith, omega arith)
