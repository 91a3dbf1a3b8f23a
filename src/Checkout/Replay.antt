-- ===== src/Checkout/Replay.antt =====
-- The caller's side of `createCheckout`: its input, its result, the idempotency key, and the answer
-- to a request that was made before.
use ticketing_app.Prelude.{
  ℕ, String, Bool, true, Option, none, some, List, str_eq, first, ◌==◌, if◌then◌else◌,
}
use ticketing_app.Schema.{Db, Order, OrderStatus, Payment, Object}
use ticketing_app.Store.Exec.{Exec, pure, gets, ◌>>=◌}
use ticketing_app.Checkout.Basket.{CheckoutItem}
use ticketing_app.Checkout.Hold.{same_key}

-- CheckoutInput; there is one gateway
pub record CheckoutInput : Type 0 where
  pub event_slug : String
  pub items : List CheckoutItem
  pub buyer_name : String
  pub buyer_email : String
  pub buyer_phone : List ℕ
  pub idempotency_key : Option String
  pub metadata : Option Object
  pub user_id : Option String
  pub terms_version : Option String

-- The field `payment` of CheckoutResult
pub record PaymentPrompt : Type 0 where
  pub gateway : String
  pub gateway_ref : String
  pub customer_message : String

-- CheckoutResult
pub record CheckoutResult : Type 0 where
  pub order_id : ℕ
  pub reference : String
  pub status : OrderStatus
  pub total_cents : ℕ
  pub currency : String
  pub expires_at : ℕ
  pub payment : Option PaymentPrompt
  pub idempotent_replay : Bool

-- `a ?? b`
abbrev pub or_text : Option String → String → String
or_text none d = d
or_text (some s) d = s

-- scopeIdempotencyKey of a key that was given; `hash` is the SHA-256 of the two texts. An empty key
-- is none.
unfoldable pub scoped_key : (String → String → String) → CheckoutInput → Option String
scoped_key hash input = elim input.idempotency_key [
  | none ↦ none
  | some k ↦ if str_eq k "" then none else some (hash k (or_text input.user_id input.buyer_email))
]

-- findByIdempotencyKey; nothing is looked up without a key
unfoldable pub find_by_idempotency_key : Option String → Db → Option Order
find_by_idempotency_key none db = none
find_by_idempotency_key (some k) db =
    first (λ (o : Order). same_key (some k) o.idempotency_key) db.orders

abbrev pub default_message : String
default_message = "Check your phone to complete the M-Pesa payment."

abbrev pub replayed_prompt : Option Payment → Option PaymentPrompt
replayed_prompt none = none
replayed_prompt (some p) = some (record {
  gateway = p.gateway;
  gateway_ref = p.gateway_ref;
  customer_message = default_message;
})

unfoldable pub replay_result : Order → Option Payment → CheckoutResult
replay_result o p = record {
  order_id = o.id;
  reference = o.reference;
  status = o.status;
  total_cents = o.total_cents;
  currency = o.currency;
  expires_at = o.reserved_until;
  payment = replayed_prompt p;
  idempotent_replay = true;
}

-- buildReplayResult
unfoldable pub build_replay_result : Order → Exec CheckoutResult
build_replay_result o = do
  payment ← gets (λ db. first (λ (p : Payment). p.order_id == o.id) db.payments)
  pure (replay_result o payment)

-- `if (existing) return buildReplayResult(existing)`
unfoldable pub replay_or : Option Order → Exec CheckoutResult → Exec CheckoutResult
unfolding build_replay_result
replay_or none rest = rest
replay_or (some o) rest = build_replay_result o
