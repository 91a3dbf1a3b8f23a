-- ===== src/Gateway/Once.antt =====
-- How often an STK push is sent, and where its tokens come from.
use ticketing_app.Prelude.{
  ℕ, ◌≡◌, refl, sym, subst, ap, ◌∙◌, Bool, true, false, Option, none, some, List, [], ◌∷◌, ◌++◌,
  not, length, Bool-cases, inl, inr,
}
use ticketing_app.Store.{Failure, Result, ok, err, thrown, error_503}
use ticketing_app.Codes.Text.{list_eq}
use ticketing_app.Gateway.Client.{
  Client, Daraja, Request, SharedToken, Push, Payload, Response, StkPushParams, StkPushResponse,
  continue, ◌>>=◌, ◌>>◌, pure, throw_if, or_throw, is_ok, is_rejected_token,
  invalidate_access_token, fresh_local, keep_token, fetch_token, called, read_shared, mint_token,
  use_shared, use_local, get_access_token, send, retry, accepted, payload_of, push_payload,
  stk_push,
}

-- A request that sends no push.
pub record Silent {A : Type 0} (m : Request A) : Type 0 where
  pub at : (c : Client) → (m c).1.sent ≡ c.sent

module _ {A B : Type 0} where
  Silent-continue :
      (r : Result A) (c : Client) (f : A → Request B)
      → ((a : A) → Silent (f a))
      → (continue r c f).1.sent ≡ c.sent
  Silent-continue (ok a) c f k = (k a).at c
  Silent-continue (err e) c f k = refl

  Silent-bind :
      (m : Request A) (f : A → Request B) → Silent m → ((a : A) → Silent (f a)) → Silent (m >>= f)
  Silent-bind m f h k = record { at = λ c. Silent-continue (m c).0 (m c).1 f k ∙ h.at c }

Silent-throw_if : (b : Bool) (e : Failure) → Silent (throw_if b e)
Silent-throw_if true e = record { at = λ c. refl }
Silent-throw_if false e = record { at = λ c. refl }

Silent-or_throw : {A : Type 0} (o : Option A) (e : Failure) → Silent (or_throw o e)
Silent-or_throw none e = record { at = λ c. refl }
Silent-or_throw (some a) e = record { at = λ c. refl }

Silent-mint_token : (d : Daraja) (now : ℕ) → Silent (mint_token d now)
unfolding mint_token keep_token
Silent-mint_token d now =
    Silent-bind (throw_if (not d.has_credentials) (error_503 "gateway_not_configured" true))
      (λ _. fetch_token d >>= checked d now) (Silent-throw_if _ _)
      (λ _.
        Silent-bind (fetch_token d) (checked d now) (record { at = λ c. refl })
          (λ r.
            Silent-bind (throw_if (not (is_ok r)) (error_503 "gateway_auth_failed" true))
              (λ _. or_throw (d.parse_token r.text) thrown >>= keep_token d now)
              (Silent-throw_if _ _)
              (λ _.
                Silent-bind (or_throw (d.parse_token r.text) thrown) (keep_token d now)
                  (Silent-or_throw _ _) (λ t. record { at = λ c. refl }))))
  where
    checked : Daraja → ℕ → Response → Request (List ℕ)
    checked d now r =
        throw_if (not (is_ok r)) (error_503 "gateway_auth_failed" true)
        >> (or_throw (d.parse_token r.text) thrown >>= keep_token d now)

Silent-use_shared : (d : Daraja) (now : ℕ) (o : Option SharedToken) → Silent (use_shared d now o)
unfolding use_shared
Silent-use_shared d now none = record { at = λ c. (Silent-mint_token d now).at c }
Silent-use_shared d now (some t) = record {
  at = λ c. elim (Bool-cases (d.redis_answers c.redis_calls)) [
    | inl up ↦ rw up refl
    | inr down ↦ rw down ((Silent-mint_token d now).at (called c))
  ];
}

Silent-use_local : (d : Daraja) (now : ℕ) (o : Option (List ℕ)) → Silent (use_local d now o)
unfolding use_local read_shared
Silent-use_local d now (some t) = record { at = λ c. refl }
Silent-use_local d now none =
    Silent-bind (read_shared d) (use_shared d now) (record { at = λ c. refl })
      (λ o. Silent-use_shared d now o)

Silent-get_access_token : (d : Daraja) (now : ℕ) → Silent (get_access_token d now)
unfolding get_access_token
Silent-get_access_token d now = record {
  at = λ c. (Silent-use_local d now (fresh_local c.local_token now)).at c;
}

Silent-accepted : (d : Daraja) (r : Response) → Silent (accepted d r)
unfolding accepted
Silent-accepted d r =
    Silent-bind (throw_if (not (is_ok r)) (error_503 "gateway_error" true))
      (λ _. or_throw (d.parse_push r.text) thrown >>= checked) (Silent-throw_if _ _)
      (λ _. Silent-bind (or_throw (d.parse_push r.text) thrown) checked (Silent-or_throw _ _) (λ a.
        Silent-bind
          (throw_if (not (list_eq a.response_code (b'0' ∷ []))) (error_503 "gateway_rejected" true))
          (λ _. pure a) (Silent-throw_if _ _) (λ _. record { at = λ c. refl })))
  where
    checked : StkPushResponse → Request StkPushResponse
    checked a =
        throw_if (not (list_eq a.response_code (b'0' ∷ []))) (error_503 "gateway_rejected" true)
        >> pure a

abbrev pub push_of : List ℕ → Payload → Push
push_of bearer payload = record { bearer = bearer; payload = payload }

-- What may have been sent at the end, after what was sent before: nothing, one push, or a second
-- with the same content after an answer that rejects the token.
pub data Sends (d : Daraja) (payload : Payload) (before : List Push) : List Push → Type 0 where
  unsent : Sends d payload before before
  once : (bearer : List ℕ) → Sends d payload before (before ++ push_of bearer payload ∷ [])
  again :
      (bearer token : List ℕ) (r : Response)
      → d.answer (length before) (push_of bearer payload) ≡ ok r
      → is_rejected_token r ≡ true
      → Sends d payload before
          ((before ++ push_of bearer payload ∷ []) ++ push_of token payload ∷ [])

module _ {A B : Type 0} (S : List Push → Type 0) where
  after_continue :
      (r : Result A) (c : Client) (f : A → Request B)
      → S c.sent
      → ((a : A) → r ≡ ok a → S (f a c).1.sent)
      → S (continue r c f).1.sent
  after_continue (ok a) c f h k = k a refl
  after_continue (err e) c f h k = h

  after_silent :
      (m : Request A) (f : A → Request B) (c : Client)
      → Silent m
      → S c.sent
      → ((a : A) (c' : Client) → c'.sent ≡ c.sent → S (f a c').1.sent)
      → S ((m >>= f) c).1.sent
  after_silent m f c s h k =
      after_continue (m c).0 (m c).1 f (subst S (sym (s.at c)) h) (λ a _. k a (m c).1 (s.at c))

  pub before_silent :
      (m : Request A) (f : A → Request B) (c : Client)
      → ((a : A) → Silent (f a))
      → S (m c).1.sent
      → S ((m >>= f) c).1.sent
  before_silent m f c s h =
      after_continue (m c).0 (m c).1 f h (λ a _. subst S (sym ((s a).at (m c).1)) h)

module _ (d : Daraja) (payload : Payload) (before : List Push) where
  retry-Sends :
      (bearer : List ℕ) (r : Response) (now : ℕ) (c : Client)
      → d.answer (length before) (push_of bearer payload) ≡ ok r
      → c.sent ≡ before ++ push_of bearer payload ∷ []
      → Sends d payload before (retry d payload now r c).1.sent
  unfolding retry invalidate_access_token send
  retry-Sends bearer r now c answered sent = elim (Bool-cases (is_rejected_token r)) [
    | inr e ↦ rw e (subst (Sends d payload before) (sym sent) (once bearer))
    | inl e ↦ rw e (
        after_silent (Sends d payload before) (get_access_token d now) (send d payload)
          (invalidate_access_token d c).1 (Silent-get_access_token d now)
          (subst (Sends d payload before) (sym sent) (once bearer))
          (λ token c' same.
            subst (λ s. Sends d payload before (s ++ push_of token payload ∷ []))
              (sym (same ∙ sent)) (again bearer token r answered e)))
  ]

  push_payload-Sends :
      (now : ℕ) (token : List ℕ) (c : Client)
      → c.sent ≡ before
      → Sends d payload before (push_payload d payload now token c).1.sent
  unfolding push_payload send
  push_payload-Sends now token c same =
      let bearer = push_of token payload in
      after_continue (Sends d payload before) (d.answer (length c.sent) bearer)
        (record c { sent = c.sent ++ bearer ∷ [] })
        (λ first. retry d payload now first >>= accepted d)
        (subst (λ s. Sends d payload before (s ++ bearer ∷ [])) (sym same) (once token))
        (λ r answered.
          before_silent (Sends d payload before) (retry d payload now r) (accepted d)
            (record c { sent = c.sent ++ bearer ∷ [] }) (Silent-accepted d)
            (retry-Sends token r now (record c { sent = c.sent ++ bearer ∷ [] })
              (ap (λ (s : List Push). d.answer (length s) bearer) (sym same) ∙ answered)
              (ap (λ (s : List Push). s ++ bearer ∷ []) same)))

-- Of one STK push, whatever Daraja answers: nothing is sent, or one push, or a second with the same
-- content, which follows an answer that rejects the token of the first.
pub stk_push-Sends :
    (d : Daraja) (params : StkPushParams) (now later : ℕ) (c : Client)
    → Sends d (payload_of params) c.sent (stk_push d params now later c).1.sent
unfolding stk_push push_payload send
stk_push-Sends d params now later c =
    let payload = payload_of params in
    let S = Sends d payload c.sent in
    let not_configured = error_503 "gateway_not_configured" true in
    after_silent S (throw_if (not d.has_callback_url) not_configured) _ c (Silent-throw_if _ _)
      unsent
      (λ _ c₁ e₁.
        after_silent S (get_access_token d now) _ c₁ (Silent-get_access_token d now)
          (subst S (sym e₁) unsent)
          (λ token c₂ e₂.
            after_silent S (throw_if (not d.has_passkey) not_configured) _ c₂ (Silent-throw_if _ _)
              (subst S (sym (e₂ ∙ e₁)) unsent)
              (λ _ c₃ e₃. push_payload-Sends d payload c.sent later token c₃ (e₃ ∙ e₂ ∙ e₁))))
