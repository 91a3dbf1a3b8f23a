-- ===== src/Events/Sorting.antt =====
-- ORDER BY: a stable sort by a test that says whether a row comes no later than another.
use ticketing_app.Prelude.{
  Bool, List, [], ◌∷◌, if◌then◌else◌, ◌≡◌, refl, ap, ◌∙◌, Bool-cases, inl, inr,
}

module _ {A : Type 0} (before : A → A → Bool) where
  insert_ordered : A → List A → List A
  insert_ordered x [] = x ∷ []
  insert_ordered x (y ∷ ys) = if before x y then x ∷ y ∷ ys else y ∷ insert_ordered x ys

  unfoldable pub order_by : List A → List A
  unfolding insert_ordered
  order_by [] = []
  order_by (x ∷ xs) = insert_ordered x (order_by xs)

-- A fold in which two neighbours may change places gives the same over the rows in any order.
module _ {A B : Type 0} (before : A → A → Bool) (f : A → B → B)
    (swap : (x y : A) (b : B) → f x (f y b) ≡ f y (f x b)) (b : B) where
  abbrev pub fold : List A → B
  fold [] = b
  fold (x ∷ xs) = f x (fold xs)

  fold-insert_ordered : (x : A) (xs : List A) → fold (insert_ordered before x xs) ≡ f x (fold xs)
  unfolding insert_ordered
  fold-insert_ordered x [] = refl
  fold-insert_ordered x (y ∷ ys) = elim (Bool-cases (before x y)) [
    | inl e ↦ rw (insert_ordered, e) refl
    | inr e ↦ rw (insert_ordered, e) (ap (f y) (fold-insert_ordered x ys) ∙ swap y x (fold ys))
  ]

  pub fold-order_by : (xs : List A) → fold (order_by before xs) ≡ fold xs
  unfolding order_by
  fold-order_by [] = refl
  fold-order_by (x ∷ xs) = fold-insert_ordered x (order_by before xs) ∙ ap (f x) (fold-order_by xs)
