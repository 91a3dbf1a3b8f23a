-- ===== src/Gateway/Charged.antt =====
-- What a charge asks the buyer for, and whose callbacks the gateway accepts.
use ticketing_app.Prelude.{
  arith, ◌↔◌, ℕ, ◌≡◌, ◌≢◌, ◌⊎◌, refl, ap, String, Bool, true, false, Option, none, some, List, [],
  ◌∷◌, not, ◌==◌, ◌&&◌, length, str_eq, Bool-cases, inl, inr, ==_iff,
}
use ticketing_app.Store.{Result-cases}
use ticketing_app.Money.{
  cents_to_mpesa_amount, mpesa_amount_to_cents, mpesa_amount_to_cents-cents_to_mpesa_amount,
}
use ticketing_app.Checkout.Create.{ChargeRequest}
use ticketing_app.Gateway.Client.{Client, Daraja, stk_push, payload_of}
use ticketing_app.Gateway.Once.{Sends, before_silent, stk_push-Sends}
use ticketing_app.Gateway.Mpesa.{is_valid_callback_token, push_params, charge_amount, charge}

-- A charge sends nothing, or it asks the buyer's phone for exactly the cents that are owed, and
-- asks again only after an answer that rejects the token, whatever Daraja answers.
pub charge-Sends :
    (units : String → List ℕ) (d : Daraja) (request : ChargeRequest) (description : List ℕ)
    (now later : ℕ) (c : Client)
    → let after = (charge units d request description now later c).1.sent in
      (after ≡ c.sent)
      ⊎ ((amount : ℕ) × (mpesa_amount_to_cents amount ≡ request.amount_cents)
          × Sends d (payload_of (push_params units request description amount)) c.sent after)
unfolding charge charge_amount
charge-Sends units d request description now later c =
    elim (Bool-cases (str_eq request.currency "KES")) [
      | inr foreign ↦ rw foreign (inl refl)
      | inl kes ↦ elim (Result-cases (cents_to_mpesa_amount request.amount_cents)) [
        | inr (e, refused) ↦ rw (kes, refused) (inl refl)
        | inl (amount, exact) ↦
            let params = push_params units request description amount in
            rw (kes, exact)
              (inr (
                amount,
                (mpesa_amount_to_cents-cents_to_mpesa_amount request.amount_cents amount exact).0,
                before_silent (Sends d (payload_of params) c.sent) (stk_push d params now later) _ c
                    (λ r. record { at = λ c'. refl }) (stk_push-Sends d params now later c),
              ))
      ]
    ]

all_three : (a b c : Bool) → (a && b && c) ≡ true → (a ≡ true) × (b ≡ true) × (c ≡ true)
all_three true true c h = (refl, refl, h)
all_three true false c h = absurd (cc)
all_three false b c h = absurd (cc)

not_empty : (s : List ℕ) → s ≢ [] → not (length s == 0) ≡ true
not_empty [] h = absurd (h refl)
not_empty (x ∷ xs) h = ground arith

-- The callback's token has the bytes of the configured one, which is not empty.
abbrev pub Carries : (List ℕ → List ℕ) → Option (List ℕ) → Option (List ℕ) → Type 0
Carries utf8 (some secret) (some given) = (secret ≢ []) × (utf8 given ≡ utf8 secret)
Carries utf8 _ _ = ⊥

nil_is_excluded : (s : List ℕ) → not (length s == 0) ≡ true → s ≢ []
nil_is_excluded [] h e = absurd (cc)
nil_is_excluded (x ∷ xs) h e = absurd (cc)

-- A callback is accepted only if a token is configured that is not empty, and the callback has one
-- of the same bytes, and every such callback is accepted; provided that the comparison of byte
-- sequences of one length is true of equal ones, and of no others.
pub is_valid_callback_token-Carries :
    (utf8 : List ℕ → List ℕ) (safe_equal : List ℕ → List ℕ → Bool)
    (expected token : Option (List ℕ))
    → ((a b : List ℕ) → length a ≡ length b → (safe_equal a b ≡ true) ↔ (a ≡ b))
    → (is_valid_callback_token utf8 safe_equal expected token ≡ true) ↔ Carries utf8 expected token
unfolding is_valid_callback_token
is_valid_callback_token-Carries utf8 safe_equal none token eq = (λ h. absurd (cc), λ h. absurd h)
is_valid_callback_token-Carries utf8 safe_equal (some secret) none eq =
    (λ h. absurd (cc), λ h. absurd h)
is_valid_callback_token-Carries utf8 safe_equal (some secret) (some given) eq = (
  λ h.
      let (filled, same_length, same) =
        all_three (not (length secret == 0)) (length (utf8 given) == length (utf8 secret))
          (safe_equal (utf8 given) (utf8 secret)) h in
      (
        nil_is_excluded secret filled,
        (eq (utf8 given) (utf8 secret) ((==_iff _ _).0 same_length)).0 same,
      ),
  λ (filled, same).
      let lengths : length (utf8 given) ≡ length (utf8 secret) =
        ap (λ (s : List ℕ). length s) same in
      rw
        (
          not_empty secret filled,
          (==_iff _ _).1 lengths,
          (eq (utf8 given) (utf8 secret) lengths).1 same,
        )
        refl,
)
