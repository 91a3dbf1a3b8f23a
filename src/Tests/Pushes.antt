-- ===== src/Tests/Pushes.antt =====
-- The theorems on the M-Pesa gateway.
use ticketing_app.Prelude.{
  Option, ◌+◌, ◌/◌, ◌%◌, ◌↔◌, ◌&&◌, if◌then◌else◌, leb, ltb, subst, ℕ, zero, suc, ◌≡◌, ◌⊎◌, refl,
  String, true, none, some, List, [], ◌∷◌,
}
use ticketing_app.Store.{ok}
use ticketing_app.Money.{cents_to_mpesa_amount, mpesa_amount_to_cents}
use ticketing_app.Codes.Text.{list_eq, list_eq_refl, list_eq→eq}
use ticketing_app.Checkout.Create.{ChargeRequest}
use ticketing_app.Gateway.Client.{
  Client, Daraja, Response, StkPushParams, payload_of, stk_push, get_access_token,
  invalidate_access_token, use_local, use_shared, read_shared, keep_token,
  is_invalid_token_response, mint_token,
}
use ticketing_app.Gateway.Once.{Sends, stk_push-Sends}
use ticketing_app.Gateway.Renewed.{Minted, get_access_token-Minted}
use ticketing_app.Gateway.Mpesa.{is_valid_callback_token, push_params, charge}
use ticketing_app.Gateway.Charged.{Carries, charge-Sends, is_valid_callback_token-Carries}

abbrev answer_at : ℕ → Response
answer_at zero = record {
  status = 404;
  text = b'4' ∷ b'0' ∷ b'4' ∷ b'.' ∷ b'0' ∷ b'0' ∷ b'1' ∷ b'.' ∷ b'0' ∷ b'3' ∷ [];
}
answer_at (suc n) = record { status = 200; text = [] }

-- Daraja rejects the first token, and accepts the second.
abbrev daraja : Daraja
daraja = record {
  has_callback_url = true;
  has_credentials = true;
  has_passkey = true;
  redis_answers = λ n. true;
  mint = λ n. ok (record { status = 200; text = [] });
  answer = λ n p. ok (answer_at n);
  parse_token = λ s. some (record { access_token = b't' ∷ []; expires_in = 3600 });
  parse_push = λ s. some (record {
    merchant_request_id = "m";
    checkout_request_id = "c";
    response_code = b'0' ∷ [];
    customer_message = "Success";
  });
}

-- A token that was cached by another process
abbrev client : Client
client = record {
  local_token = none;
  shared = some (record { value = b's' ∷ []; ttl = 100 });
  redis_calls = 0;
  minted = 0;
  sent = [];
}

abbrev params : StkPushParams
params = record { phone = []; amount = 1500; account_reference = []; description = [] }

stk_push-Sends_example :
    Sends daraja (payload_of params) [] (stk_push daraja params 0 1 client).1.sent
stk_push-Sends_example = stk_push-Sends daraja params 0 1 client

get_access_token-Minted_example : Minted daraja 0 (b't' ∷ [])
unfolding invalidate_access_token get_access_token use_local read_shared use_shared mint_token
    keep_token
get_access_token-Minted_example =
    get_access_token-Minted daraja 5 client {token = b't' ∷ []} refl refl

abbrev request : ChargeRequest
request = record {
  order_id = 1;
  reference = "TKT-AAAAAAAA";
  amount_cents = 150000;
  currency = "KES";
  phone = [];
}

abbrev no_units : String → List ℕ
no_units s = []

charge-Sends_example :
    let after = (charge no_units daraja request [] 0 1 client).1.sent in
    (after ≡ [])
    ⊎ ((amount : ℕ) × (mpesa_amount_to_cents amount ≡ 150000)
        × Sends daraja (payload_of (push_params no_units request [] amount)) [] after)
charge-Sends_example = charge-Sends no_units daraja request [] 0 1 client

-- the run of that charge: two pushes
two_pushes :
    (charge no_units daraja request [] 0 1 client).1.sent
    ≡ record { bearer = b's' ∷ []; payload = payload_of (push_params no_units request [] 1500) }
      ∷ record { bearer = b't' ∷ []; payload = payload_of (push_params no_units request [] 1500) }
      ∷ []
unfolding charge cents_to_mpesa_amount is_invalid_token_response invalidate_access_token list_eq
two_pushes = refl

-- The UTF-8 bytes of a text without surrogate pairs: a lone surrogate is encoded as U+FFFD.
abbrev bytes : List ℕ → List ℕ
bytes [] = []
bytes (c ∷ cs) =
    let rest = bytes cs in
    if ltb c 0x80
    then c ∷ rest
    else if ltb c 0x800
    then (0xc0 + c / 0x40) ∷ (0x80 + c % 0x40) ∷ rest
    else if leb 0xd800 c && leb c 0xdfff
    then 0xef ∷ 0xbf ∷ 0xbd ∷ rest
    else (0xe0 + c / 0x1000) ∷ (0x80 + (c / 0x40) % 0x40) ∷ (0x80 + c % 0x40) ∷ rest

-- the token "ké"
abbrev secret_token : Option (List ℕ)
secret_token = some (b'k' ∷ 0xe9 ∷ [])

is_valid_callback_token-Carries_example :
    (is_valid_callback_token bytes list_eq secret_token secret_token ≡ true)
    ↔ Carries bytes secret_token secret_token
is_valid_callback_token-Carries_example =
    is_valid_callback_token-Carries bytes list_eq secret_token secret_token
      (λ a b n. (list_eq→eq a b, λ e. subst (λ x. list_eq a x ≡ true) e (list_eq_refl a)))
