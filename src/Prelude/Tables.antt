-- ===== src/Prelude/Tables.antt =====
-- Database tables as lists of rows: the statements that the services send are a selection, a
-- first row (`LIMIT 1`), an update of the rows that a condition picks, and an insertion.
use mathlib.Core.Path.{◌≡◌}
use mathlib.Core.Bool.{Bool, true, false}
use mathlib.Core.Option.{Option, none, some}
use mathlib.Core.List.{List, [], ◌∷◌, ◌++◌}
use native.Mathlib.Omega.{arith}
use mathlib.Core.Path.{subst}
use ticketing_app.Prelude.Lists.{All}
use ticketing_app.Prelude.Tests.{if◌then◌else◌, Bool-cases}
use mathlib.Core.Logic.{inl, inr}

module _ {ℓ} {A : Type ℓ} where
  some_of : (f : A → A) {x y : A} → some x ≡ some y → some (f x) ≡ some (f y)
  some_of f e = cc

  from_some : {x y : A} → some x ≡ some y → x ≡ y
  from_some e = cc

  -- SELECT * FROM xs WHERE p
  abbrev pub select : (A → Bool) → List A → List A
  select p [] = []
  select p (x ∷ xs) = let rest = select p xs in if p x then x ∷ rest else rest

  -- SELECT * FROM xs WHERE p LIMIT 1
  abbrev pub first : (A → Bool) → List A → Option A
  first p [] = none
  first p (x ∷ xs) = if p x then some x else first p xs

  -- UPDATE xs SET f WHERE p
  abbrev pub update_where : (A → Bool) → (A → A) → List A → List A
  update_where p f [] = []
  update_where p f (x ∷ xs) = (if p x then f x else x) ∷ update_where p f xs

  -- INSERT INTO xs VALUES x
  abbrev pub insert : A → List A → List A
  insert x xs = xs ++ x ∷ []

  abbrev pub all : (A → Bool) → List A → Bool
  all p [] = true
  all p (x ∷ xs) = if p x then all p xs else false

  pub first_holds : (p : A → Bool) (xs : List A) {x : A} → first p xs ≡ some x → p x ≡ true
  first_holds p [] h = ground arith
  first_holds p (y ∷ xs) h = elim (Bool-cases (p y)) [
    | inl e ↦ ground arith
    | inr e ↦ first_holds p xs (ground arith)
  ]

  pub all-cons :
      (p : A → Bool) (x : A) (xs : List A)
      → all p (x ∷ xs) ≡ true
      → (p x ≡ true) × (all p xs ≡ true)
  all-cons p x xs h = ground arith

  -- What all rows keep under an update.
  pub All-update_where {κ} :
      (P : A → Type κ) (p : A → Bool) (f : A → A) (xs : List A)
      → ((x : A) → p x ≡ true → P x → P (f x))
      → All P xs
      → All P (update_where p f xs)
  All-update_where P p f [] keep h = tt
  All-update_where P p f (x ∷ xs) keep h = elim (Bool-cases (p x)) [
    | inl e ↦ rw e (keep x e h.0, All-update_where P p f xs keep h.1)
    | inr e ↦ rw e (h.0, All-update_where P p f xs keep h.1)
  ]

  -- The first row of an update is the updated first row, if the condition still holds of it.
  pub first-update_where :
      (p : A → Bool) (f : A → A) (xs : List A) {x : A}
      → ((y : A) → p (f y) ≡ p y)
      → first p xs ≡ some x
      → first p (update_where p f xs) ≡ some (f x)
  first-update_where p f [] same e = ground arith
  first-update_where p f (y ∷ ys) {x} same e = elim (Bool-cases (p y)) [
    | inl h ↦ rw (h, same y, h) (some_of f (rw h at e))
    | inr h ↦ rw (h, h) (first-update_where p f ys same (rw h at e))
  ]

  -- What holds of all rows holds of the first that a condition picks.
  pub All-first {κ} :
      (P : A → Type κ) (p : A → Bool) (xs : List A) {x : A} → All P xs → first p xs ≡ some x → P x
  All-first P p [] h e = absurd (cc)
  All-first P p (y ∷ ys) h e = elim (Bool-cases (p y)) [
    | inl here ↦ subst P (from_some (rw here at e)) h.0
    | inr later ↦ All-first P p ys h.1 (rw later at e)
  ]

-- What all rows have, all selected rows have.
pub All-select {ℓ κ} :
    {A : Type ℓ} (P : A → Type κ) (p : A → Bool) (xs : List A) → All P xs → All P (select p xs)
All-select P p [] h = tt
All-select P p (x ∷ xs) h = elim (Bool-cases (p x)) [
  | inl e ↦ rw e (h.0, All-select P p xs h.1)
  | inr e ↦ rw e (All-select P p xs h.1)
]
