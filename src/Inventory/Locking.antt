-- ===== src/Inventory/Locking.antt =====
-- `sortForLocking`: a stable sort by tier, which fixes the order in which rows are locked.
use ticketing_app.Prelude.{
  ℕ, ◌+◌, ◌≤◌, ◌≡◌, refl, List, [], ◌∷◌, if◌then◌else◌, leb, ◌==◌, arith, inl, inr, Bool-cases,
  leb→le, All, All-mono,
}

module _ {A : Type 0} (tier_id : A → ℕ) where
  -- before the first item of a greater or the same tier
  insert_sorted : A → List A → List A
  insert_sorted x [] = x ∷ []
  insert_sorted x (y ∷ ys) =
      if leb (tier_id x) (tier_id y) then x ∷ y ∷ ys else y ∷ insert_sorted x ys

  unfoldable pub sort_for_locking : List A → List A
  unfolding insert_sorted
  sort_for_locking [] = []
  sort_for_locking (x ∷ xs) = insert_sorted x (sort_for_locking xs)

  -- No later item is of a smaller tier.
  abbrev pub IsLockOrdered : List A → Type 0
  IsLockOrdered [] = Unit
  IsLockOrdered (x ∷ xs) = All (λ y. tier_id x ≤ tier_id y) xs × IsLockOrdered xs

  insert_sorted-All :
      (n : ℕ) (x : A) (xs : List A)
      → n ≤ tier_id x
      → All (λ y. n ≤ tier_id y) xs
      → All (λ y. n ≤ tier_id y) (insert_sorted x xs)
  unfolding insert_sorted
  insert_sorted-All n x [] h k = (h, tt)
  insert_sorted-All n x (y ∷ ys) h k = ground (arith, insert_sorted-All n x ys h k.1)

  insert_sorted-IsLockOrdered :
      (x : A) (xs : List A) → IsLockOrdered xs → IsLockOrdered (insert_sorted x xs)
  unfolding insert_sorted
  insert_sorted-IsLockOrdered x [] h = (tt, tt)
  insert_sorted-IsLockOrdered x (y ∷ ys) h = elim (Bool-cases (leb (tier_id x) (tier_id y))) [
    | inl e ↦ rw e (
      (
        leb→le _ _ e,
        All-mono ys (λ z (k : tier_id y ≤ tier_id z). omega (arith, leb→le _ _ e)) h.0,
      ),
      h,
    )
    | inr e ↦ rw e (
      insert_sorted-All (tier_id y) x ys (ground arith) h.0,
      insert_sorted-IsLockOrdered x ys h.1,
    )
  ]

  -- The items come out ordered by tier.
  pub sort_for_locking-IsLockOrdered : (xs : List A) → IsLockOrdered (sort_for_locking xs)
  unfolding sort_for_locking
  sort_for_locking-IsLockOrdered [] = tt
  sort_for_locking-IsLockOrdered (x ∷ xs) =
      insert_sorted-IsLockOrdered x (sort_for_locking xs) (sort_for_locking-IsLockOrdered xs)

  module _ (weight : A → ℕ) where
    -- The weight of the items of one tier.
    unfoldable pub sum_for : ℕ → List A → ℕ
    sum_for tier [] = 0
    sum_for tier (x ∷ xs) = (if tier == tier_id x then weight x else 0) + sum_for tier xs

    sum_for-insert_sorted :
        (tier : ℕ) (x : A) (xs : List A) → sum_for tier (insert_sorted x xs) ≡ sum_for tier (x ∷ xs)
    unfolding sum_for insert_sorted
    sum_for-insert_sorted tier x [] = refl
    sum_for-insert_sorted tier x (y ∷ ys) = ground (arith, sum_for-insert_sorted tier x ys)

    -- Sorting neither loses an item nor counts one twice, whatever is counted of the items.
    pub sum_for-sort_for_locking :
        (tier : ℕ) (xs : List A) → sum_for tier (sort_for_locking xs) ≡ sum_for tier xs
    unfolding sum_for sort_for_locking
    sum_for-sort_for_locking tier [] = refl
    sum_for-sort_for_locking tier (x ∷ xs) = omega (
      arith,
      sum_for-insert_sorted tier x (sort_for_locking xs),
      sum_for-sort_for_locking tier xs,
    )
