-- ===== src/Tests/Numbers.antt =====
-- The theorems on phone numbers and amounts at concrete ones.
use ticketing_app.Prelude.{ℕ, ◌≤◌, ◌≡◌, refl, true, List, [], ◌∷◌}
use ticketing_app.Store.{ok}
use ticketing_app.Phone.{
  is_msisdn, to_international, country, normalize_phone, normalize_phone-idempotent,
  normalize_phone-forms,
}
use ticketing_app.Money.{
  cents_to_mpesa_amount, mpesa_amount_to_cents, mpesa_amount_to_cents-cents_to_mpesa_amount,
}

abbrev rest : List ℕ
rest = b'1' ∷ b'2' ∷ b'3' ∷ b'4' ∷ b'5' ∷ b'6' ∷ b'7' ∷ b'8' ∷ []

abbrev spaced : List ℕ
spaced = b'0' ∷ b'7' ∷ b' ' ∷ rest

normalize_phone-idempotent_example :
    (is_msisdn (country (b'7' ∷ rest)) ≡ true)
    × (normalize_phone (country (b'7' ∷ rest)) ≡ ok (country (b'7' ∷ rest)))
unfolding normalize_phone to_international is_msisdn
normalize_phone-idempotent_example = normalize_phone-idempotent spaced (country (b'7' ∷ rest)) refl

normalize_phone-forms_example :
    (normalize_phone (b'7' ∷ rest) ≡ ok (country (b'7' ∷ rest)))
    × (normalize_phone (b'0' ∷ b'7' ∷ rest) ≡ ok (country (b'7' ∷ rest)))
    × (normalize_phone (b'+' ∷ country (b'7' ∷ rest)) ≡ ok (country (b'7' ∷ rest)))
normalize_phone-forms_example = normalize_phone-forms b'7' rest refl refl refl

mpesa_amount_to_cents-cents_to_mpesa_amount_example :
    (mpesa_amount_to_cents 1500 ≡ 150000) × (1 ≤ 1500)
unfolding cents_to_mpesa_amount
mpesa_amount_to_cents-cents_to_mpesa_amount_example =
    mpesa_amount_to_cents-cents_to_mpesa_amount 150000 1500 refl
