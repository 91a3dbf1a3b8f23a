-- ===== src/Purge/Kept.antt =====
-- Which rows a purge deletes: the abandoned orders that it chose, and their items.
use ticketing_app.Prelude.{
  ℕ, ◌≡◌, ◌≢◌, refl, sym, ap, Bool, true, false, List, [], ◌∷◌, select, not, all, all-cons, ◌==◌,
  arith, All, All-mono, All-select, All-take, All-zip, inl, inr, Bool-cases,
}
use ticketing_app.Schema.{Db, Order, Payment}
use ticketing_app.Inventory.Counters.Sums.{OrderIdsUnique}
use ticketing_app.Checkout.Basket.{seen}
use ticketing_app.Purge.Abandoned.{is_abandoned, candidates, ids_of, no_payment}

not_seen : (n : ℕ) (os : List Order) → All (λ (o : Order). o.id ≢ n) os → seen n (ids_of os) ≡ false
not_seen n [] h = refl
not_seen n (o ∷ os) h = ground (arith, h.0, not_seen n os h.1)

select_same :
    {A : Type 0} (p : A → Bool) (xs : List A) → All (λ x. p x ≡ true) xs → select p xs ≡ xs
select_same p [] h = refl
select_same p (x ∷ xs) h = rw h.0 (ap (λ (r : List _). x ∷ r) (select_same p xs h.1))

module _ (p : Order → Bool) where
  picked_one :
      (o x : Order) (xs : List Order)
      → o.id ≢ x.id
      → All (λ (c : Order). c.id ≢ o.id) (select p xs)
      → All (λ (c : Order). c.id ≢ o.id) (select p (x ∷ xs))
  picked_one o x xs ne h = elim (Bool-cases (p x)) [
    | inl here ↦ rw here ((λ (e : x.id ≡ o.id). ne (sym e)), h)
    | inr away ↦ rw away h
  ]

  -- An order that is not picked has none of the picked ids.
  picked_ids :
      (os : List Order)
      → OrderIdsUnique os
      → All (λ (o : Order). p o ≡ false → All (λ (c : Order). c.id ≢ o.id) (select p os)) os
  picked_ids [] u = tt
  picked_ids (x ∷ xs) u = (
    (λ (off : p x ≡ false). rw off (All-select (λ (c : Order). c.id ≢ x.id) p xs u.0)),
    All-zip xs
        (λ (o : Order) (ne : o.id ≢ x.id)
            (k : p o ≡ false → All (λ (c : Order). c.id ≢ o.id) (select p xs)) (off : p o ≡ false).
          picked_one o x xs ne (k off))
        u.0 (picked_ids xs u.1),
  )

  pub select-OrderIdsUnique : (os : List Order) → OrderIdsUnique os → OrderIdsUnique (select p os)
  select-OrderIdsUnique [] u = tt
  select-OrderIdsUnique (x ∷ xs) u = elim (Bool-cases (p x)) [
    | inl here ↦
        rw here (All-select (λ (c : Order). c.id ≢ x.id) p xs u.0, select-OrderIdsUnique xs u.1)
    | inr away ↦ rw away (select-OrderIdsUnique xs u.1)
  ]

-- The ids that a purge deletes.
abbrev pub chosen : ℕ → Db → List ℕ
chosen cutoff db = ids_of (candidates cutoff db)

module _ (cutoff : ℕ) (db : Db) (u : OrderIdsUnique db.orders) where
  -- An order that is not abandoned is not among the chosen.
  pub not_chosen :
      All
        (λ (o : Order). is_abandoned cutoff db o ≡ false → seen o.id (chosen cutoff db) ≡ false)
        db.orders
  unfolding candidates
  not_chosen =
      All-mono db.orders
        (λ (o : Order)
            (k : is_abandoned cutoff db o ≡ false
              → All (λ (c : Order). c.id ≢ o.id) (select (is_abandoned cutoff db) db.orders))
            (off : is_abandoned cutoff db o ≡ false).
          not_seen o.id (candidates cutoff db) (
            All-take (λ (c : Order). c.id ≢ o.id) 500 (select (is_abandoned cutoff db) db.orders)
              (k off)))
        (picked_ids (is_abandoned cutoff db) db.orders u)

  -- So an order that is chosen by its id is abandoned.
  pub chosen-abandoned :
      All
        (λ (o : Order). seen o.id (chosen cutoff db) ≡ true → is_abandoned cutoff db o ≡ true)
        db.orders
  chosen-abandoned =
      All-mono db.orders
        (λ (o : Order) (k : is_abandoned cutoff db o ≡ false → seen o.id (chosen cutoff db) ≡ false)
            (on : seen o.id (chosen cutoff db) ≡ true).
          by_contradiction (is_abandoned cutoff db o) (seen o.id (chosen cutoff db)) k on)
        not_chosen
    where
      by_contradiction : (a b : Bool) → (a ≡ false → b ≡ false) → b ≡ true → a ≡ true
      by_contradiction true b k on = refl
      by_contradiction false b k on = absurd (cc (k refl, on))

  -- The orders that are not abandoned are all there afterwards.
  pub others_stay :
      (p : Order → Bool) (os : List Order)
      → All (λ (o : Order). p o ≡ true → seen o.id (chosen cutoff db) ≡ false) os
      → select p (select (λ (o : Order). not (seen o.id (chosen cutoff db))) os) ≡ select p os
  others_stay p [] h = refl
  others_stay p (o ∷ os) h = ground (arith, h.0, others_stay p os h.1)

-- No payment is for a chosen order.
unpaid_ids :
    (os : List Order) (p : Payment)
    → All (λ (o : Order). (p.order_id == o.id) ≡ false) os
    → seen p.order_id (ids_of os) ≡ false
unpaid_ids [] p h = refl
unpaid_ids (o ∷ os) p h = rw h.0 (unpaid_ids os p h.1)

all-All : {A : Type 0} (q : A → Bool) (xs : List A) → all q xs ≡ true → All (λ x. q x ≡ true) xs
all-All q [] h = tt
all-All q (x ∷ xs) h = let both = all-cons q x xs h in (both.0, all-All q xs both.1)

selected_hold : (p : Order → Bool) (os : List Order) → All (λ o. p o ≡ true) (select p os)
selected_hold p [] = tt
selected_hold p (o ∷ os) = elim (Bool-cases (p o)) [
  | inl e ↦ rw e (e, selected_hold p os)
  | inr e ↦ rw e (selected_hold p os)
]

abandoned-no_payment :
    (cutoff : ℕ) (db : Db) (o : Order)
    → is_abandoned cutoff db o ≡ true
    → no_payment o.id db.payments ≡ true
unfolding is_abandoned
abandoned-no_payment cutoff db o h = ground (arith, h)

payments_of_others :
    (os : List Order) (ps : List Payment)
    → All (λ (o : Order). no_payment o.id ps ≡ true) os
    → All (λ (p : Payment). not (seen p.order_id (ids_of os)) ≡ true) ps
payments_of_others os [] h = tt
payments_of_others os (p ∷ ps) h =
    let split : All (λ (o : Order). ((p.order_id == o.id) ≡ false) × (no_payment o.id ps ≡ true))
        os =
      All-mono os
        (λ (o : Order) (k : no_payment o.id (p ∷ ps) ≡ true).
          let both = all-cons (λ (q : Payment). not (q.order_id == o.id)) p ps k in
          (ground (arith, both.0), both.1))
        h in
    let away = unpaid_ids os p (
      All-mono os
        (λ (o : Order) (k : ((p.order_id == o.id) ≡ false) × (no_payment o.id ps ≡ true)). k.0)
        split) in
    (
      ap not away,
      payments_of_others os ps (
          All-mono os
            (λ (o : Order) (k : ((p.order_id == o.id) ≡ false) × (no_payment o.id ps ≡ true)). k.1)
            split),
    )

-- No payment goes with the chosen orders.
pub payments_stay :
    (cutoff : ℕ) (db : Db)
    → select (λ (p : Payment). not (seen p.order_id (chosen cutoff db))) db.payments ≡ db.payments
unfolding candidates
payments_stay cutoff db =
    select_same (λ (p : Payment). not (seen p.order_id (chosen cutoff db))) db.payments
      (payments_of_others (candidates cutoff db) db.payments (
        All-take (λ (o : Order). no_payment o.id db.payments ≡ true) 500 _
          (All-mono (select (is_abandoned cutoff db) db.orders) (abandoned-no_payment cutoff db)
            (selected_hold (is_abandoned cutoff db) db.orders))))
