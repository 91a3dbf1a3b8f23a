-- ===== src/Gateway/Renewed.antt =====
-- Where the token of a second push comes from.
use ticketing_app.Prelude.{ℕ, ◌≡◌, true, some, List, Bool-cases, Option-cases, inl, inr, ◌+◌}
use ticketing_app.Store.{Result-cases, ok}
use ticketing_app.Gateway.Client.{
  Client, Daraja, MintedToken, Response, is_ok, ◌>>=◌, invalidate_access_token, read_shared,
  keep_token, mint_token, use_shared, use_local, get_access_token,
}

-- A token that Daraja has answered to a request for one.
pub record Minted (d : Daraja) (n : ℕ) (token : List ℕ) : Type 0 where
  pub response : Response
  pub answered : d.mint n ≡ ok response
  pub is_accepted : is_ok response ≡ true
  pub minted : MintedToken
  pub parsed : d.parse_token response.text ≡ some minted
  pub is_token : token ≡ minted.access_token

mint_token-Minted :
    (d : Daraja) (now : ℕ) (c : Client) {token : List ℕ}
    → (mint_token d now c).0 ≡ ok token
    → Minted d c.minted token
unfolding mint_token keep_token
mint_token-Minted d now c {token} h = elim (Bool-cases d.has_credentials) [
  | inr missing ↦ absurd (cc (rw missing at h))
  | inl there ↦ elim (Result-cases (d.mint c.minted)) [
    | inr (e, threw) ↦ absurd (cc (rw (there, threw) at h))
    | inl (r, answered) ↦ elim (Bool-cases (is_ok r)) [
      | inr bad ↦ absurd (cc (rw (there, answered, bad) at h))
      | inl fine ↦ elim (Option-cases (d.parse_token r.text)) [
        | inl unreadable ↦ absurd (cc (rw (there, answered, fine, unreadable) at h))
        | inr (m, parsed) ↦ record {
          response = r;
          answered = answered;
          is_accepted = fine;
          minted = m;
          parsed = parsed;
          is_token = cc (rw (there, answered, fine, parsed) at h);
        }
      ]
    ]
  ]
]

-- The token that follows a cleared cache, which the second push of `stkPush` carries: if Redis has
-- answered the deletion, and a token is returned at all, then it is the answer of Daraja to a new
-- request for one, whether or not Redis answers after that.
pub get_access_token-Minted :
    (d : Daraja) (now : ℕ) (c : Client) {token : List ℕ}
    → d.redis_answers c.redis_calls ≡ true
    → ((invalidate_access_token d >>= λ _. get_access_token d now) c).0 ≡ ok token
    → Minted d c.minted token
unfolding invalidate_access_token get_access_token use_local read_shared use_shared
get_access_token-Minted d now c deleted h =
    elim (Bool-cases (d.redis_answers (c.redis_calls + 1))) [
      | inl up ↦ mint_token-Minted d now _ (rw (deleted, up) at h)
      | inr down ↦ mint_token-Minted d now _ (rw (deleted, down) at h)
    ]
