-- ===== src/Codes/Text.antt =====
-- What the module uses of JavaScript's strings: `trim`, `toUpperCase`, `lastIndexOf` and `slice`.
-- `toUpperCase` is written out for ASCII; it leaves all else as it is here.
use ticketing_app.Prelude.{
  ℕ, suc, ◌-◌, ◌≡◌, ◌≢◌, refl, Bool, true, false, Option, none, some, List, [], ◌∷◌, ◌++◌, ◌&&◌,
  ◌||◌, leb, ◌==◌, if◌then◌else◌, arith, All, length,
}

-- WhiteSpace and LineTerminator of ECMAScript
unfoldable pub is_space : ℕ → Bool
is_space c =
    (leb 9 c && leb c 13)
    || c == 32
    || c == 0xa0
    || c == 0x1680
    || (leb 0x2000 c && leb c 0x200a)
    || c == 0x2028
    || c == 0x2029
    || c == 0x202f
    || c == 0x205f
    || c == 0x3000
    || c == 0xfeff

unfoldable pub upper : ℕ → ℕ
upper c = if leb b'a' c && leb c b'z' then c - 32 else c

pub trim_start : List ℕ → List ℕ
trim_start [] = []
trim_start (c ∷ s) = if is_space c then trim_start s else c ∷ s

-- the last character that is no space ends the text
pub cons_trimmed : ℕ → List ℕ → List ℕ
cons_trimmed c [] = if is_space c then [] else c ∷ []
cons_trimmed c (d ∷ s) = c ∷ d ∷ s

pub trim_end : List ℕ → List ℕ
trim_end [] = []
trim_end (c ∷ s) = cons_trimmed c (trim_end s)

unfoldable pub trim : List ℕ → List ℕ
unfolding trim_start trim_end cons_trimmed is_space
trim s = trim_end (trim_start s)

pub shift : Option ℕ → Option ℕ
shift none = none
shift (some n) = some (suc n)

-- the last position of a character, or -1
unfoldable pub last_index_of : ℕ → List ℕ → Option ℕ
unfolding shift
last_index_of c [] = none
last_index_of c (d ∷ s) =
    let rest = last_index_of c s in
    elim rest [ some n ↦ some (suc n) | none ↦ if d == c then some 0 else none ]

unfoldable pub list_eq : List ℕ → List ℕ → Bool
list_eq [] [] = true
list_eq (x ∷ xs) (y ∷ ys) = x == y && list_eq xs ys
list_eq _ _ = false

pub list_eq_refl : (xs : List ℕ) → list_eq xs xs ≡ true
unfolding list_eq
list_eq_refl [] = refl
list_eq_refl (x ∷ xs) = ground (arith, list_eq_refl xs)

pub list_eq→eq : (xs ys : List ℕ) → list_eq xs ys ≡ true → xs ≡ ys
unfolding list_eq
list_eq→eq [] [] h = refl
list_eq→eq [] (y ∷ ys) h = absurd (cc)
list_eq→eq (x ∷ xs) [] h = absurd (cc)
list_eq→eq (x ∷ xs) (y ∷ ys) h = ground (arith, list_eq→eq xs ys)

last_index_of_absent : (c : ℕ) (s : List ℕ) → All (λ (d : ℕ). d ≢ c) s → last_index_of c s ≡ none
unfolding last_index_of
last_index_of_absent c [] h = refl
last_index_of_absent c (d ∷ s) h = ground (arith, last_index_of_absent c s h.1)

-- The last separator is the one before a part without separators.
pub last_index_of-append :
    (c : ℕ) (s t : List ℕ)
    → All (λ (d : ℕ). d ≢ c) t
    → last_index_of c (s ++ c ∷ t) ≡ some (length s)
unfolding last_index_of
last_index_of-append c [] t h = ground (arith, last_index_of_absent c t h)
last_index_of-append c (d ∷ s) t h = ground (arith, last_index_of-append c s t h)

-- A text with no space in it is left alone by `trim`.
trim_start_solid : (s : List ℕ) → All (λ (c : ℕ). is_space c ≡ false) s → trim_start s ≡ s
unfolding trim_start
trim_start_solid [] h = refl
trim_start_solid (c ∷ s) h = rw h.0

trim_end_solid : (s : List ℕ) → All (λ (c : ℕ). is_space c ≡ false) s → trim_end s ≡ s
unfolding trim_end cons_trimmed
trim_end_solid [] h = refl
trim_end_solid (c ∷ []) h = rw h.0
trim_end_solid (c ∷ d ∷ s) h = rw (trim_end_solid (d ∷ s) h.1)

pub trim_solid : (s : List ℕ) → All (λ (c : ℕ). is_space c ≡ false) s → trim s ≡ s
unfolding trim
trim_solid s h = rw (trim_start_solid s h) (trim_end_solid s h)
