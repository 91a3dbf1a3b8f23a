-- ===== src/Tickets/Missing.antt =====
-- How many tickets of each item `rows_of` makes.
use ticketing_app.Prelude.{
  ℕ, zero, suc, ◌+◌, ◌-◌, ◌≤◌, ◌≡◌, ◌≢◌, refl, ◌∙◌, ap, Bool, List, [], ◌∷◌, ◌++◌, select, length,
  if◌then◌else◌, ◌==◌, arith, All, All-select, All-zip, inl, inr, Bool-cases, ==_refl,
}
use ticketing_app.Schema.{Order, OrderItem, Ticket}
use ticketing_app.Tickets.Issue.{Fresh, of_item, count_by_item, ticket_row, rows_from, rows_of}

module _ {A : Type 0} where
  pub length_append : (xs ys : List A) → length (xs ++ ys) ≡ length xs + length ys
  length_append [] ys = omega arith
  length_append (x ∷ xs) ys = omega (arith, length_append xs ys)

  pub select_append :
      (p : A → Bool) (xs ys : List A) → select p (xs ++ ys) ≡ select p xs ++ select p ys
  select_append p [] ys = refl
  select_append p (x ∷ xs) ys = ground (arith, select_append p xs ys)

  pub count_append :
      (p : A → Bool) (xs ys : List A)
      → length (select p (xs ++ ys)) ≡ length (select p xs) + length (select p ys)
  count_append p xs ys = rw (select_append p xs ys) (length_append (select p xs) (select p ys))

  pub count_select :
      (p q : A → Bool) (xs : List A) → length (select p (select q xs)) ≤ length (select p xs)
  count_select p q [] = omega arith
  count_select p q (x ∷ xs) = ground (arith, count_select p q xs)

-- No two items have one id: the primary key.
abbrev pub ItemIdsUnique : List OrderItem → Type 0
ItemIdsUnique [] = Unit
ItemIdsUnique (i ∷ is) = All (λ (j : OrderItem). j.id ≢ i.id) is × ItemIdsUnique is

pub select-ItemIdsUnique :
    (p : OrderItem → Bool) (is : List OrderItem) → ItemIdsUnique is → ItemIdsUnique (select p is)
select-ItemIdsUnique p [] u = tt
select-ItemIdsUnique p (i ∷ is) u = elim (Bool-cases (p i)) [
  | inl e ↦
      rw e (All-select (λ (j : OrderItem). j.id ≢ i.id) p is u.0, select-ItemIdsUnique p is u.1)
  | inr e ↦ rw e (select-ItemIdsUnique p is u.1)
]

module _ (fresh : ℕ → ℕ → Fresh) (order : Order) where
  count-rows_from :
      (item : OrderItem) (sequence n k : ℕ)
      → count_by_item k (rows_from fresh order item sequence n) ≡ (if item.id == k then n else 0)
  unfolding rows_from ticket_row
  count-rows_from item sequence zero k = ground arith
  count-rows_from item sequence (suc n) k = ground (arith, count-rows_from item (suc sequence) n k)

  module _ (existing : List Ticket) where
    -- The rows of one item, among those of a list of items.
    unfoldable pub missing : OrderItem → ℕ
    missing i = i.quantity - count_by_item i.id existing

    count-rows_of-cons :
        (j : OrderItem) (js : List OrderItem) (k : ℕ)
        → count_by_item k (rows_of fresh order existing (j ∷ js))
          ≡ (if j.id == k then missing j else 0) + count_by_item k (rows_of fresh order existing js)
    unfolding rows_of missing
    count-rows_of-cons j js k =
        count_append (of_item k)
          (rows_from fresh order j (suc (count_by_item j.id existing))
            (j.quantity - count_by_item j.id existing))
          (rows_of fresh order existing js)
        ∙ ap (λ n. n + count_by_item k (rows_of fresh order existing js))
            (count-rows_from j (suc (count_by_item j.id existing))
              (j.quantity - count_by_item j.id existing) k)

    count-rows_of_absent :
        (k : ℕ) (items : List OrderItem)
        → All (λ (j : OrderItem). j.id ≢ k) items
        → count_by_item k (rows_of fresh order existing items) ≡ 0
    unfolding rows_of
    count-rows_of_absent k [] h = refl
    count-rows_of_absent k (j ∷ js) h =
        ground (arith, h.0, count-rows_of-cons j js k, count-rows_of_absent k js h.1)

    -- Each item gets the rows that it lacks.
    pub count-rows_of :
        (items : List OrderItem)
        → ItemIdsUnique items
        → All
            (λ (i : OrderItem). count_by_item i.id (rows_of fresh order existing items) ≡ missing i)
            items
    count-rows_of [] u = tt
    count-rows_of (j ∷ js) u = (
      ground (arith, ==_refl j.id, count-rows_of-cons j js j.id, count-rows_of_absent j.id js u.0),
      All-zip js
          (λ i (ne : i.id ≢ j.id)
              (e : count_by_item i.id (rows_of fresh order existing js) ≡ missing i).
            ground (arith, ne, e, count-rows_of-cons j js i.id))
          u.0 (count-rows_of js u.1),
    )

    pub rows_of_complete :
        (items : List OrderItem)
        → All (λ (i : OrderItem). i.quantity ≤ count_by_item i.id existing) items
        → rows_of fresh order existing items ≡ []
    unfolding rows_of rows_from
    rows_of_complete [] h = refl
    rows_of_complete (i ∷ is) h =
        let none_left : i.quantity - count_by_item i.id existing ≡ 0 = omega (arith, h.0) in
        rw none_left (rows_of_complete is h.1)
