-- ===== src/Gateway/Client.antt =====
-- src/gateways/mpesa/daraja.ts: the access token, its two caches, and the STK push with its one
-- retry. What Daraja answers, and the parsing of JSON, are arguments.
use ticketing_app.Prelude.{
  ℕ, ◌+◌, ◌-◌, ◌*◌, String, Bool, true, false, Option, none, some, List, [], ◌∷◌, ◌++◌, leb, ltb,
  ◌==◌, ◌&&◌, ◌||◌, not, if◌then◌else◌, length, take,
}
use ticketing_app.Store.{Failure, Result, ok, err, thrown, error_503}
use ticketing_app.Codes.Text.{list_eq}

-- `{ value, expiresAt }`
pub record LocalToken : Type 0 where
  pub value : List ℕ
  pub expires_at : ℕ

-- The entry of Redis under TOKEN_CACHE_KEY, with the seconds that it has left.
pub record SharedToken : Type 0 where
  pub value : List ℕ
  pub ttl : ℕ

-- The body of an STK push, less what the settings and the clock fix.
pub record Payload : Type 0 where
  pub amount : ℕ
  pub phone : List ℕ
  pub account_reference : List ℕ
  pub transaction_desc : List ℕ

pub record Push : Type 0 where
  pub bearer : List ℕ
  pub payload : Payload

-- A response of `fetch`, with its text
pub record Response : Type 0 where
  pub status : ℕ
  pub text : List ℕ

-- `{ access_token, expires_in }`, the number as parseInt reads it, and 0 where that is NaN
pub record MintedToken : Type 0 where
  pub access_token : List ℕ
  pub expires_in : ℕ

-- StkPushResponse
pub record StkPushResponse : Type 0 where
  pub merchant_request_id : String
  pub checkout_request_id : String
  pub response_code : List ℕ
  pub customer_message : String

-- StkPushParams
pub record StkPushParams : Type 0 where
  pub phone : List ℕ
  pub amount : ℕ
  pub account_reference : List ℕ
  pub description : List ℕ

-- What the client has of its own and in Redis, and what it has sent so far.
pub record Client : Type 0 where
  pub local_token : Option LocalToken
  pub shared : Option SharedToken
  pub redis_calls : ℕ
  pub minted : ℕ
  pub sent : List Push

-- The settings, and what is outside: whether Redis answers the nth call, the answers of Daraja to the
-- nth request, where an error is a throw of `fetch`, and JSON.parse, where `none` is a throw.
pub record Daraja : Type 0 where
  pub has_callback_url : Bool
  pub has_credentials : Bool
  pub has_passkey : Bool
  pub redis_answers : ℕ → Bool
  pub mint : ℕ → Result Response
  pub answer : ℕ → Push → Result Response
  pub parse_token : List ℕ → Option MintedToken
  pub parse_push : List ℕ → Option StkPushResponse

abbrev pub Request : Type 0 → Type 0
Request A = Client → Result A × Client

abbrev pub continue : {A B : Type 0} → Result A → Client → (A → Request B) → Result B × Client
continue (ok a) c f = f a c
continue (err e) c f = (err e, c)

infixl 5 ◌>>=◌ ◌>>◌
abbrev pub ◌>>=◌ : {A B : Type 0} → Request A → (A → Request B) → Request B
◌>>=◌ m f c = let (r, c') = m c in continue r c' f

abbrev pub ◌>>◌ : {A B : Type 0} → Request A → Request B → Request B
m >> n = m >>= λ _. n

abbrev pub pure : {A : Type 0} → A → Request A
pure a c = (ok a, c)

abbrev pub throw : {A : Type 0} → Failure → Request A
throw e c = (err e, c)

abbrev pub throw_if : Bool → Failure → Request Unit
throw_if true e = throw e
throw_if false e = pure tt

abbrev pub or_throw : {A : Type 0} → Option A → Failure → Request A
or_throw none e = throw e
or_throw (some a) e = pure a

-- `response.ok`
abbrev pub is_ok : Response → Bool
is_ok r = leb 200 r.status && leb r.status 299

abbrev starts_with : List ℕ → List ℕ → Bool
starts_with [] text = true
starts_with (p ∷ ps) [] = false
starts_with (p ∷ ps) (c ∷ cs) = p == c && starts_with ps cs

abbrev contains : List ℕ → List ℕ → Bool
contains part [] = starts_with part []
contains part (c ∷ cs) = starts_with part (c ∷ cs) || contains part cs

-- The flag `i` folds the ASCII letters.
abbrev lower_case : List ℕ → List ℕ
lower_case [] = []
lower_case (c ∷ cs) = (if leb b'A' c && leb c b'Z' then c + 32 else c) ∷ lower_case cs

abbrev invalid_token_code : List ℕ
invalid_token_code = b'4' ∷ b'0' ∷ b'4' ∷ b'.' ∷ b'0' ∷ b'0' ∷ b'1' ∷ b'.' ∷ b'0' ∷ b'3' ∷ []

abbrev invalid_token_words : List ℕ
invalid_token_words =
    b'i' ∷ b'n' ∷ b'v' ∷ b'a' ∷ b'l' ∷ b'i' ∷ b'd' ∷ b' ' ∷ b'a' ∷ b'c' ∷ b'c' ∷ b'e' ∷ b's' ∷ b's'
    ∷ b' ' ∷ b't' ∷ b'o' ∷ b'k' ∷ b'e' ∷ b'n' ∷ []

-- isInvalidTokenResponse
unfoldable pub is_invalid_token_response : Response → Bool
is_invalid_token_response r =
    (r.status == 401 || r.status == 404)
    && (contains invalid_token_code r.text || contains invalid_token_words (lower_case r.text))

-- A call of Redis has been made.
abbrev pub called : Client → Client
called c = record c { redis_calls = c.redis_calls + 1 }

-- invalidateAccessToken; a `del` that Redis does not answer is only logged
unfoldable pub invalidate_access_token : Daraja → Request Unit
invalidate_access_token daraja c = (
  ok tt,
  record c {
    local_token = none;
    shared = if daraja.redis_answers c.redis_calls then none else c.shared;
    redis_calls = c.redis_calls + 1;
  },
)

-- `Math.max(a, b)`
abbrev pub max_of : ℕ → ℕ → ℕ
max_of a b = if leb a b then b else a

-- `localToken && now < localToken.expiresAt`, and its value
abbrev pub fresh_local : Option LocalToken → ℕ → Option (List ℕ)
fresh_local none now = none
fresh_local (some t) now = if ltb now t.expires_at then some t.value else none

-- `cacheRedis.get`, where a failed read and an empty text count as no token
abbrev pub non_empty : Option SharedToken → Option SharedToken
non_empty none = none
non_empty (some t) = if length t.value == 0 then none else some t

unfoldable pub read_shared : Daraja → Request (Option SharedToken)
read_shared daraja c =
    (ok (if daraja.redis_answers c.redis_calls then non_empty c.shared else none), called c)

-- `parseInt(expires_in) || 3600`, less the safety margin
abbrev pub token_ttl : ℕ → ℕ
token_ttl expires_in = max_of ((if expires_in == 0 then 3600 else expires_in) - 120) 60

unfoldable pub keep_token : Daraja → ℕ → MintedToken → Request (List ℕ)
keep_token daraja now t c =
    let ttl = token_ttl t.expires_in in
    (
      ok t.access_token,
      record c {
        local_token = some (record { value = t.access_token; expires_at = now + ttl * 1000 });
        shared =
            if daraja.redis_answers c.redis_calls
            then some (record { value = t.access_token; ttl = ttl })
            else c.shared;
        redis_calls = c.redis_calls + 1;
      },
    )

abbrev pub fetch_token : Daraja → Request Response
fetch_token daraja c = (daraja.mint c.minted, record c { minted = c.minted + 1 })

-- `getAccessToken`, from the credentials on
unfoldable pub mint_token : Daraja → ℕ → Request (List ℕ)
unfolding keep_token
mint_token daraja now = do
  throw_if (not daraja.has_credentials) (error_503 "gateway_not_configured" true)
  response ← fetch_token daraja
  throw_if (not (is_ok response)) (error_503 "gateway_auth_failed" true)
  token ← or_throw (daraja.parse_token response.text) thrown
  keep_token daraja now token

-- The token of Redis, once its time to live has been asked for; a throw there goes on to the mint.
unfoldable pub use_shared : Daraja → ℕ → Option SharedToken → Request (List ℕ)
unfolding mint_token
use_shared daraja now none c = mint_token daraja now c
use_shared daraja now (some t) c =
    if daraja.redis_answers c.redis_calls
    then (
      ok t.value,
      record c {
        local_token = some (record { value = t.value; expires_at = now + max_of t.ttl 1 * 1000 });
        redis_calls = c.redis_calls + 1;
      },
    )
    else mint_token daraja now (called c)

unfoldable pub use_local : Daraja → ℕ → Option (List ℕ) → Request (List ℕ)
unfolding read_shared use_shared
use_local daraja now (some value) = pure value
use_local daraja now none = do shared ← read_shared daraja; use_shared daraja now shared

-- getAccessToken; `now` is the clock
unfoldable pub get_access_token : Daraja → ℕ → Request (List ℕ)
unfolding use_local
get_access_token daraja now c = use_local daraja now (fresh_local c.local_token now) c

-- `send` of `stkPush`
unfoldable pub send : Daraja → Payload → List ℕ → Request Response
send daraja payload bearer c =
    let push : Push = record { bearer = bearer; payload = payload } in
    (daraja.answer (length c.sent) push, record c { sent = c.sent ++ push ∷ [] })

abbrev pub is_rejected_token : Response → Bool
is_rejected_token r = not (is_ok r) && is_invalid_token_response r

-- The one retry, for a token that Daraja rejects.
unfoldable pub retry : Daraja → Payload → ℕ → Response → Request Response
retry daraja payload now first =
    if is_rejected_token first
    then (do
      invalidate_access_token daraja
      token ← get_access_token daraja now
      send daraja payload token)
    else pure first

abbrev pub payload_of : StkPushParams → Payload
payload_of params = record {
  amount = params.amount;
  phone = params.phone;
  account_reference = take 12 params.account_reference;
  transaction_desc = take 13 params.description;
}

-- `stkPush` on its last response
unfoldable pub accepted : Daraja → Response → Request StkPushResponse
accepted daraja response = do
  throw_if (not (is_ok response)) (error_503 "gateway_error" true)
  answer ← or_throw (daraja.parse_push response.text) thrown
  throw_if (not (list_eq answer.response_code (b'0' ∷ []))) (error_503 "gateway_rejected" true)
  pure answer

-- `stkPush` from the first sending on
unfoldable pub push_payload : Daraja → Payload → ℕ → List ℕ → Request StkPushResponse
unfolding send retry accepted
push_payload daraja payload now token = do
  first ← send daraja payload token
  response ← retry daraja payload now first
  accepted daraja response

-- stkPush; `now` and `later` are the clock before the first and the second sending
unfoldable pub stk_push : Daraja → StkPushParams → ℕ → ℕ → Request StkPushResponse
unfolding get_access_token push_payload
stk_push daraja params now later = do
  throw_if (not daraja.has_callback_url) (error_503 "gateway_not_configured" true)
  token ← get_access_token daraja now
  throw_if (not daraja.has_passkey) (error_503 "gateway_not_configured" true)
  push_payload daraja (payload_of params) later token
