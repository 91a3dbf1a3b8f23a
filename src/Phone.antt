-- ===== src/Phone.antt =====
-- src/lib/phone.ts: the normal form of a Kenyan phone number. Texts are lists of UTF-16 code units.
use ticketing_app.Prelude.{
  ℕ, ◌-◌, ◌≡◌, refl, Bool, true, false, List, [], ◌∷◌, ◌++◌, ◌&&◌, ◌||◌, leb, ltb, ◌==◌, select,
  all, take, drop, length, if◌then◌else◌, arith, inl, inr, Bool-cases, ap, ◌∙◌, sym,
}
use ticketing_app.Store.{Result, ok, err, bad_request, ok-injective}

abbrev pub is_digit : ℕ → Bool
is_digit c = leb b'0' c && leb c b'9'

-- `startsWith('254')`
abbrev pub is_international : List ℕ → Bool
is_international (a ∷ b ∷ c ∷ _) = a == b'2' && b == b'5' && c == b'4'
is_international _ = false

abbrev pub is_local : List ℕ → Bool
is_local (a ∷ _) = a == b'0'
is_local [] = false

-- KENYAN_MSISDN
unfoldable pub is_msisdn : List ℕ → Bool
is_msisdn (a ∷ b ∷ c ∷ d ∷ rest) =
    a == b'2'
    && b == b'5'
    && c == b'4'
    && (d == b'7' || d == b'1')
    && length rest == 8
    && all is_digit rest
is_msisdn _ = false

abbrev pub country : List ℕ → List ℕ
country s = b'2' ∷ b'5' ∷ b'4' ∷ s

-- the branches of `normalizePhone` on the digits
unfoldable pub to_international : List ℕ → List ℕ
to_international digits =
    if is_international digits
    then digits
    else if is_local digits
    then country (drop 1 digits)
    else if length digits == 9
    then country digits
    else digits

-- normalizePhone
unfoldable pub normalize_phone : List ℕ → Result (List ℕ)
unfolding to_international is_msisdn
normalize_phone input =
    let normalized = to_international (select is_digit input) in
    if is_msisdn normalized then ok normalized else err bad_request

-- isValidPhone
unfoldable pub is_valid_phone : List ℕ → Bool
unfolding normalize_phone
is_valid_phone input = elim (normalize_phone input) [ ok _ ↦ true | err _ ↦ false ]

-- maskPhone
unfoldable pub mask_phone : List ℕ → List ℕ
mask_phone phone =
    if ltb (length phone) 8
    then phone
    else take 6 phone ++ b'*' ∷ b'*' ∷ b'*' ∷ drop (length phone - 3) phone

select_digits : (s : List ℕ) → all is_digit s ≡ true → select is_digit s ≡ s
select_digits [] h = refl
select_digits (c ∷ s) h = ground (arith, select_digits s)

msisdn_digits : (s : List ℕ) → is_msisdn s ≡ true → all is_digit s ≡ true
unfolding is_msisdn
msisdn_digits (a ∷ b ∷ c ∷ d ∷ rest) h = ground arith
msisdn_digits (a ∷ b ∷ c ∷ []) h = absurd (cc)
msisdn_digits (a ∷ b ∷ []) h = absurd (cc)
msisdn_digits (a ∷ []) h = absurd (cc)
msisdn_digits [] h = absurd (cc)

msisdn_international : (s : List ℕ) → is_msisdn s ≡ true → to_international s ≡ s
unfolding is_msisdn to_international
msisdn_international (a ∷ b ∷ c ∷ d ∷ rest) h = ground arith
msisdn_international (a ∷ b ∷ c ∷ []) h = absurd (cc)
msisdn_international (a ∷ b ∷ []) h = absurd (cc)
msisdn_international (a ∷ []) h = absurd (cc)
msisdn_international [] h = absurd (cc)

normalized : (input p : List ℕ) → normalize_phone input ≡ ok p → is_msisdn p ≡ true
unfolding normalize_phone
normalized input p h = elim (Bool-cases (is_msisdn (to_international (select is_digit input)))) [
  | inl good ↦
      let same = ok-injective (rw (normalize_phone, good) at h) in sym (ap is_msisdn same) ∙ good
  | inr bad ↦ absurd (cc (rw (normalize_phone, bad) at h))
]

-- What `normalizePhone` returns is an international number of twelve digits, and is its own normal
-- form.
pub normalize_phone-idempotent :
    (input p : List ℕ)
    → normalize_phone input ≡ ok p
    → (is_msisdn p ≡ true) × (normalize_phone p ≡ ok p)
unfolding normalize_phone
normalize_phone-idempotent input p h =
    let good = normalized input p h in
    (good, rw (select_digits p (msisdn_digits p good), msisdn_international p good, good))

abbrev pub is_prefix : ℕ → Bool
is_prefix d = d == b'7' || d == b'1'

bare_international : (d : ℕ) (r : List ℕ) → is_prefix d ≡ true → is_international (d ∷ r) ≡ false
bare_international d [] h = refl
bare_international d (a ∷ []) h = refl
bare_international d (a ∷ b ∷ r) h = ground arith

local_international : (d : ℕ) (r : List ℕ) → is_international (b'0' ∷ d ∷ r) ≡ false
local_international d [] = refl
local_international d (a ∷ r) = refl

module _ (d : ℕ) (rest : List ℕ) (prefix : is_prefix d ≡ true) (size : length rest ≡ 8)
    (digits : all is_digit rest ≡ true) where
  country-msisdn : is_msisdn (country (d ∷ rest)) ≡ true
  unfolding is_msisdn
  country-msisdn = ground (arith, prefix, size, digits)

  bare_digits : all is_digit (d ∷ rest) ≡ true
  bare_digits = ground (arith, prefix, digits)

  not_zero : (d == b'0') ≡ false
  not_zero = ground (arith, prefix)

  bare_to : to_international (d ∷ rest) ≡ country (d ∷ rest)
  unfolding to_international
  bare_to = rw (bare_international d rest prefix, not_zero, size) refl

  local_to : to_international (b'0' ∷ d ∷ rest) ≡ country (d ∷ rest)
  unfolding to_international
  local_to = rw (local_international d rest) refl

  -- The bare, the local and the international form of one subscriber number, the last with a plus
  -- before it, all come to the same international number. The subscriber number is of nine digits,
  -- the first of them a 7 or a 1.
  pub normalize_phone-forms :
      (normalize_phone (d ∷ rest) ≡ ok (country (d ∷ rest)))
      × (normalize_phone (b'0' ∷ d ∷ rest) ≡ ok (country (d ∷ rest)))
      × (normalize_phone (b'+' ∷ country (d ∷ rest)) ≡ ok (country (d ∷ rest)))
  unfolding normalize_phone
  normalize_phone-forms = (
    rw (select_digits (d ∷ rest) bare_digits, bare_to, country-msisdn) refl,
    rw (select_digits (d ∷ rest) bare_digits, local_to, country-msisdn) refl,
    rw
        (
          select_digits (d ∷ rest) bare_digits,
          msisdn_international (country (d ∷ rest)) country-msisdn,
          country-msisdn,
        )
        refl,
  )
