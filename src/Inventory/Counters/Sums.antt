-- ===== src/Inventory/Counters/Sums.antt =====
-- Seats counted from the orders: the quantity of a tier over the orders that a test picks.
use ticketing_app.Prelude.{
  ℕ, ◌+◌, ◌≡◌, refl, ◌≢◌, Bool, some, List, [], ◌∷◌, select, first, update_where, if◌then◌else◌,
  ◌==◌, arith, All, ◌++◌, inl, inr, Bool-cases, ==_iff, ap, ◌∙◌, ap, ◌∙◌,
}
use ticketing_app.Schema.{Order, OrderItem}
use ticketing_app.Inventory.Locking.{sum_for}

abbrev pub item_tier : OrderItem → ℕ
item_tier i = i.tier_id

abbrev pub item_quantity : OrderItem → ℕ
item_quantity i = i.quantity

-- The seats of one tier in one order.
abbrev pub seats_in : List OrderItem → ℕ → ℕ → ℕ
seats_in items order_id tier =
    sum_for item_tier item_quantity tier (select (λ i. i.order_id == order_id) items)

-- No two orders have one id: the primary key.
abbrev pub OrderIdsUnique : List Order → Type 0
OrderIdsUnique [] = Unit
OrderIdsUnique (o ∷ os) = All (λ (p : Order). p.id ≢ o.id) os × OrderIdsUnique os

module _ (counts : Order → Bool) (items : List OrderItem) (tier : ℕ) where
  -- The seats of one tier in the orders that `counts` picks.
  unfoldable pub order_seats : List Order → ℕ
  order_seats [] = 0
  order_seats (o ∷ os) = (if counts o then seats_in items o.id tier else 0) + order_seats os

  pub order_seats-append :
      (os ps : List Order) → order_seats (os ++ ps) ≡ order_seats os + order_seats ps
  unfolding order_seats
  order_seats-append [] ps = omega arith
  order_seats-append (o ∷ os) ps = omega (arith, order_seats-append os ps)

pub update_where_absent :
    (k : ℕ) (f : Order → Order) (os : List Order)
    → All (λ (p : Order). p.id ≢ k) os
    → update_where (λ o. o.id == k) f os ≡ os
update_where_absent k f [] h = refl
update_where_absent k f (o ∷ os) h = ground (arith, update_where_absent k f os h.1)

module _ (k : ℕ) (f : Order → Order) (keeps_id : (o : Order) → (f o).id ≡ o.id) where
  -- A change of one order moves the count by that order's seats.
  pub order_seats-update_where :
      (counts : Order → Bool) (items : List OrderItem) (tier : ℕ) (o : Order) (os : List Order)
      → OrderIdsUnique os
      → first (λ p. p.id == k) os ≡ some o
      → order_seats counts items tier (update_where (λ p. p.id == k) f os)
          + (if counts o then seats_in items k tier else 0)
        ≡ order_seats counts items tier os + (if counts (f o) then seats_in items k tier else 0)
  unfolding order_seats
  order_seats-update_where counts items tier o [] u e = ground arith
  order_seats-update_where counts items tier o (p ∷ os) u e = elim (Bool-cases (p.id == k)) [
    | inl same ↦
        let found : some p ≡ some o = rw same at e in
        let here : p ≡ o = cc in
        let at_k : p.id ≡ k = (==_iff p.id k).0 same in
        let others : All (λ (q : Order). q.id ≢ k) os = rw at_k at u.0 in
        let seats = λ (q : Order) (n : ℕ). if counts q then seats_in items n tier else 0 in
        rw (same, update_where_absent k f os others, ← here)
          (omega (arith, ap (seats (f p)) (keeps_id p ∙ at_k), ap (seats p) at_k))
    | inr other ↦
        let rest : first (λ q. q.id == k) os ≡ some o = rw other at e in
        rw other (omega (arith, order_seats-update_where counts items tier o os u.1 rest))
  ]

  All-update_where_ids :
      (n : ℕ) (os : List Order)
      → All (λ (p : Order). p.id ≢ n) os
      → All (λ (p : Order). p.id ≢ n) (update_where (λ p. p.id == k) f os)
  All-update_where_ids n [] h = tt
  All-update_where_ids n (p ∷ os) h = ground (arith, keeps_id p, All-update_where_ids n os h.1)

  -- A change that keeps the ids keeps them unique.
  pub update_where-OrderIdsUnique :
      (os : List Order) → OrderIdsUnique os → OrderIdsUnique (update_where (λ p. p.id == k) f os)
  update_where-OrderIdsUnique [] u = tt
  update_where-OrderIdsUnique (p ∷ os) u = elim (Bool-cases (p.id == k)) [
    | inl same ↦
        rw (same, keeps_id p) (All-update_where_ids p.id os u.0, update_where-OrderIdsUnique os u.1)
    | inr other ↦ rw other (All-update_where_ids p.id os u.0, update_where-OrderIdsUnique os u.1)
  ]
