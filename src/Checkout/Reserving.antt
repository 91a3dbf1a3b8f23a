-- ===== src/Checkout/Reserving.antt =====
-- What the reservation loop does to the tiers: the seats of every request, and nothing else.
use mathlib.Core.Path.{subst}
use ticketing_app.Prelude.{
  ℕ, ◌+◌, ◌≡◌, ◌≢◌, refl, sym, ◌∙◌, ap, true, Option, none, some, List, [], ◌∷◌, map, select, first,
  if◌then◌else◌, ◌==◌, ◌&&◌, arith, All, All-mono, All-zip, ==_iff, inl, inr, Bool-cases,
  Option-cases,
}
use ticketing_app.Schema.{Db, Tier}
use ticketing_app.Store.{ok}
use ticketing_app.Store.Tx.{pure, >>=-eq-ok}
use ticketing_app.Inventory.Seats.{available_seats}
use ticketing_app.Inventory.Locking.{sum_for}
use ticketing_app.Inventory.Reserve.{
  ReservationRequest, update_tiers, can_reserve, reserve_row, head?, reserve_tier,
  explain_availability, explain_reservation_failure,
}
use ticketing_app.Inventory.Counters.Rows.{IsStorable, updated, update_tiers_lem, map-map, map_id}
use ticketing_app.Inventory.Counters.Lapsed.{
  TierIdsUnique, All-true, map-TierIdsUnique, All-map_back,
}
use ticketing_app.Checkout.Hold.{ReservedTier, request_tier, or_explain, reserve_requests}

abbrev pub request_quantity : ReservationRequest → ℕ
request_quantity r = r.quantity

abbrev pub requested : ℕ → List ReservationRequest → ℕ
requested = sum_for request_tier request_quantity

explain_availability_throws :
    {A : Type 0} (t : Tier) (db : Db) {r : A × Db} → ¬ (explain_availability t db ≡ ok r)
unfolding explain_availability available_seats
explain_availability_throws t db h = ground (arith)

explain_throws :
    {A : Type 0} (event_id : ℕ) (r : ReservationRequest) (now : ℕ) (db : Db) {x : A × Db}
    → ¬ (explain_reservation_failure event_id r now db ≡ ok x)
unfolding explain_reservation_failure
explain_throws {A} event_id r now db {x} h =
    elim (Option-cases
      (first (λ (t : Tier). t.id == r.tier_id && t.event_id == event_id) db.tiers)) [
        | inl absent ↦ absurd (cc (rw (explain_reservation_failure, absent) at h))
        | inr (t, found) ↦
            ground (arith, found, explain_availability_throws {A = A} t db {r = x}, h)
      ]

module _ (event_id now : ℕ) where
  can_reserve_at :
      (r : ReservationRequest) (t : Tier) → can_reserve event_id r now t ≡ true → t.id ≡ r.tier_id
  unfolding can_reserve
  can_reserve_at r t h = ground (arith, (==_iff t.id r.tier_id).0)

  -- what one reservation does to a row
  abbrev pub reserved_row : ReservationRequest → Tier → Tier
  reserved_row r = updated (can_reserve event_id r now) (reserve_row r.quantity)

  abbrev pub each_reserved : List ReservationRequest → Tier → Tier
  each_reserved [] t = t
  each_reserved (r ∷ rs) t = each_reserved rs (reserved_row r t)

  none_picked :
      (r : ReservationRequest) (f : Tier → Tier) (ts : List Tier)
      → All (λ (u : Tier). u.id ≢ r.tier_id) ts
      → head? (map f (select (can_reserve event_id r now) ts)) ≡ none
  none_picked r f [] h = refl
  none_picked r f (t ∷ ts) h = elim (Bool-cases (can_reserve event_id r now t)) [
    | inl e ↦ absurd (h.0 (can_reserve_at r t e))
    | inr e ↦ rw e (none_picked r f ts h.1)
  ]

  -- Where a row was reserved, every row of that tier could be: there is but one.
  picked-All :
      (r : ReservationRequest) (f : Tier → Tier) (ts : List Tier) {x : Tier}
      → TierIdsUnique ts
      → head? (map f (select (can_reserve event_id r now) ts)) ≡ some x
      → All (λ (t : Tier). t.id ≡ r.tier_id → can_reserve event_id r now t ≡ true) ts
  picked-All r f [] u h = tt
  picked-All r f (t ∷ ts) u h = elim (Bool-cases (can_reserve event_id r now t)) [
    | inl here ↦
        let others : All (λ (v : Tier). v.id ≢ r.tier_id) ts =
          rw (can_reserve_at r t here) at u.0 in
        (
          λ _. here,
          All-mono ts (λ (v : Tier) (ne : v.id ≢ r.tier_id) (e : v.id ≡ r.tier_id). absurd (ne e))
              others,
        )
    | inr other ↦
        let rest = rw other at h in
        elim (Bool-cases (t.id == r.tier_id)) [
          | inl here ↦
              let others : All (λ (v : Tier). v.id ≢ r.tier_id) ts =
                rw ((==_iff t.id r.tier_id).0 here) at u.0 in
              absurd (cc (none_picked r f ts others, rest))
          | inr away ↦
              ((λ (e : t.id ≡ r.tier_id). absurd (ground arith)), picked-All r f ts u.1 rest)
        ]
  ]

  reserved_row-keeps :
      (r : ReservationRequest) (t : Tier)
      → let t' = reserved_row r t in (t'.id ≡ t.id) × (t'.quantity_sold ≡ t.quantity_sold)
  unfolding reserve_row
  reserved_row-keeps r t = ground arith

  pub each_reserved-keeps :
      (rs : List ReservationRequest) (t : Tier)
      → let t' = each_reserved rs t in (t'.id ≡ t.id) × (t'.quantity_sold ≡ t.quantity_sold)
  each_reserved-keeps [] t = (refl, refl)
  each_reserved-keeps (r ∷ rs) t =
      let step = reserved_row-keeps r t in
      let rest = each_reserved-keeps rs (reserved_row r t) in (rest.0 ∙ step.0, rest.1 ∙ step.1)

  reserved_row-sum :
      (r : ReservationRequest) (t : Tier)
      → (t.id ≡ r.tier_id → can_reserve event_id r now t ≡ true)
      → (reserved_row r t).quantity_reserved
        ≡ t.quantity_reserved + (if t.id == r.tier_id then r.quantity else 0)
  unfolding reserve_row
  reserved_row-sum r t h = elim (Bool-cases (can_reserve event_id r now t)) [
    | inl e ↦ ground (arith, can_reserve_at r t e)
    | inr e ↦ ground (arith, h)
  ]

  each_reserved_step :
      (r : ReservationRequest) (rs : List ReservationRequest) (t : Tier)
      → (let t' = reserved_row r t in
          (each_reserved rs t').quantity_reserved ≡ t'.quantity_reserved + requested t'.id rs)
      → (t.id ≡ r.tier_id → can_reserve event_id r now t ≡ true)
      → (each_reserved (r ∷ rs) t).quantity_reserved ≡ t.quantity_reserved + requested t.id (r ∷ rs)
  unfolding sum_for
  each_reserved_step r rs t later can =
      let same = ap (λ n. requested n rs) (reserved_row-keeps r t).0 in
      omega (arith, reserved_row-sum r t can)

  reserve_tier_lem :
      (r : ReservationRequest) (db : Db) {db' : Db} {found : Option Tier}
      → reserve_tier event_id r now db ≡ ok (found, db')
      → (db' ≡ record db { tiers = map (reserved_row r) db.tiers })
        × (found
            ≡ head? (map (reserve_row r.quantity) (select (can_reserve event_id r now) db.tiers)))
        × (All IsStorable db.tiers → All IsStorable db'.tiers)
  unfolding reserve_tier
  reserve_tier_lem r db {db'} {found} h =
      let split =
        >>=-eq-ok (update_tiers (can_reserve event_id r now) (reserve_row r.quantity))
          (λ rows. pure (head? rows)) db h in
      let one = update_tiers_lem (can_reserve event_id r now) (reserve_row r.quantity) db split.1 in
      let e : split.0.1 ≡ db' = cc (split.2) in
      let e' : head? split.0.0 ≡ found = cc (split.2) in
      (sym e ∙ one.0, sym e' ∙ ap head? one.1, λ s. subst (λ d. All IsStorable d.tiers) e (one.2 s))

  -- A reservation that goes on found a row.
  or_explain_lem :
      (r : ReservationRequest) (found : Option Tier) (db : Db) {db' : Db} {tier : Tier}
      → or_explain event_id r now found db ≡ ok (tier, db')
      → (found ≡ some tier) × (db' ≡ db)
  or_explain_lem r none db h = absurd (explain_throws event_id r now db h)
  or_explain_lem r (some t) db h = (cc, cc)

  -- The loop changes only tiers, and takes what is requested of each.
  pub reserve_requests_lem :
      (rs : List ReservationRequest) (db : Db) {db' : Db} {reserved : List ReservedTier}
      → reserve_requests event_id now rs db ≡ ok (reserved, db')
      → (db' ≡ record db { tiers = map (each_reserved rs) db.tiers })
        × (All IsStorable db.tiers → All IsStorable db'.tiers)
        × (TierIdsUnique db.tiers
            → All
                (λ (t : Tier).
                  (each_reserved rs t).quantity_reserved ≡ t.quantity_reserved + requested t.id rs)
                db.tiers)
  unfolding reserve_requests sum_for
  reserve_requests_lem [] db {db'} h =
      let e : db' ≡ db = cc in
      (
        e ∙ ap (λ (ts : List Tier). record db { tiers = ts }) (sym (map_id db.tiers)),
        λ s. subst (λ d. All IsStorable d.tiers) (sym e) s,
        λ _. All-true db.tiers (λ t. omega arith),
      )
  reserve_requests_lem (r ∷ rs) db {db'} {reserved} h =
      let taken = >>=-eq-ok (reserve_tier event_id r now) _ db h in
      let there = >>=-eq-ok (or_explain event_id r now taken.0.0) _ taken.0.1 taken.2 in
      let later = >>=-eq-ok (reserve_requests event_id now rs) _ there.0.1 there.2 in
      let one = reserve_tier_lem r db taken.1 in
      let found = or_explain_lem r taken.0.0 taken.0.1 there.1 in
      let rest = reserve_requests_lem rs there.0.1 later.1 in
      let last : later.0.1 ≡ db' = cc (later.2) in
      let between : there.0.1 ≡ record db { tiers = map (reserved_row r) db.tiers } =
        found.1 ∙ one.0 in
      (
        sym last
            ∙ rest.0
            ∙ ap (λ (d : Db). record d { tiers = map (each_reserved rs) d.tiers }) between
            ∙ ap (λ (ts : List Tier). record db { tiers = ts })
                (map-map (each_reserved rs) (reserved_row r) db.tiers),
        λ s.
            subst (λ d. All IsStorable d.tiers) last
              (rest.1 (subst (λ d. All IsStorable d.tiers) (sym found.1) (one.2 s))),
        λ u.
            let tiers_e : there.0.1.tiers ≡ map (reserved_row r) db.tiers =
              ap (λ (d : Db). d.tiers) between in
            let u' : TierIdsUnique there.0.1.tiers =
              rw tiers_e
                (map-TierIdsUnique (reserved_row r) (λ t. (reserved_row-keeps r t).0) db.tiers u) in
            let sums = rest.2 u' in
            let later_sums = All-map_back _ (reserved_row r) db.tiers (rw tiers_e at sums) in
            let can = picked-All r (reserve_row r.quantity) db.tiers u (sym one.1 ∙ found.0) in
            All-zip db.tiers (each_reserved_step r rs) later_sums can,
      )
