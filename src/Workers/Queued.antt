-- ===== src/Workers/Queued.antt =====
-- Which jobs of the reconciler are in the queue, and that a settlement adds none.
use ticketing_app.Prelude.{
  ℕ, ◌≡◌, refl, ap, ◌∙◌, String, Bool, true, false, Option, none, some, List, [], ◌∷◌, ◌++◌,
  if◌then◌else◌,
}
use ticketing_app.Schema.{Db, Order, Payment, WebhookStatus}
use ticketing_app.Store.{Failure, Result, ok, err}
use ticketing_app.Store.Tx.{Tx}
use ticketing_app.Store.Exec.{
  World, Exec, Call, cancel_order_expiry, invalidate_event, notify_order_failed,
  enqueue_ticket_issuance, notify_tickets_issued, schedule_order_expiry, schedule_reconcile, pure,
  throw, gets, commit_or_roll_back, with_transaction, continue, ◌>>=◌, handle, try_catch, call_when,
  call, call_quietly_when, call_quietly,
}
use ticketing_app.Inventory.Commit.{CommitResult}
use ticketing_app.Payments.Settlement.{SettlementResult, Outside}
use ticketing_app.Payments.Webhook.{mark_webhook}
use ticketing_app.Payments.Settle.{
  settle_underpaid, settle_paid, settle_success, settle_failure, after_committed,
  invalidate_order_event,
}
use ticketing_app.Payments.Apply.{
  ApplySettlementOptions, Unconfirmed, report_unclaimed, settle, after_throw, settle_or_release,
  settle_confirmed, settle_decided, settle_claimed, dispatch_claim, apply_settlement, is_success,
}

-- `{ paymentId, attempt }`
pub record Job : Type 0 where
  pub payment_id : ℕ
  pub attempt : ℕ

-- The jobs of the reconciler among the calls of Redis.
abbrev pub jobs : List Call → List Job
jobs [] = []
jobs (schedule_reconcile id n ∷ cs) = record { payment_id = id; attempt = n } ∷ jobs cs
jobs (_ ∷ cs) = jobs cs

pub jobs-append : (xs ys : List Call) → jobs (xs ++ ys) ≡ jobs xs ++ jobs ys
jobs-append [] ys = refl
jobs-append (schedule_reconcile id n ∷ cs) ys =
    ap (λ (r : List Job). record { payment_id = id; attempt = n } ∷ r) (jobs-append cs ys)
jobs-append (cancel_order_expiry _ ∷ cs) ys = jobs-append cs ys
jobs-append (invalidate_event _ ∷ cs) ys = jobs-append cs ys
jobs-append (notify_order_failed _ _ ∷ cs) ys = jobs-append cs ys
jobs-append (notify_tickets_issued _ ∷ cs) ys = jobs-append cs ys
jobs-append (enqueue_ticket_issuance _ ∷ cs) ys = jobs-append cs ys
jobs-append (schedule_order_expiry _ _ ∷ cs) ys = jobs-append cs ys

pub append-nil : {A : Type 0} (xs : List A) → xs ++ [] ≡ xs
append-nil [] = refl
append-nil {A} (x ∷ xs) = ap (λ (r : List A). x ∷ r) (append-nil xs)

-- No job of the reconciler is added.
pub record AddsNone {A : Type 0} (m : Exec A) : Type 0 where
  pub at : (w : World) → jobs (m w).1.calls ≡ jobs w.calls

module _ {A : Type 0} where
  AddsNone-pure : (a : A) → AddsNone (pure a)
  AddsNone-pure a = record { at = λ w. refl }

  AddsNone-throw : (e : Failure) → AddsNone (throw {A = A} e)
  AddsNone-throw e = record { at = λ w. refl }

  AddsNone-gets : (f : Db → A) → AddsNone (gets f)
  AddsNone-gets f = record { at = λ w. refl }

  committed :
      (s : Result (A × Db)) (w : World) → jobs (commit_or_roll_back s w).1.calls ≡ jobs w.calls
  committed (ok (a, db)) w = refl
  committed (err e) w = refl

  AddsNone-with_transaction : (t : Tx A) → AddsNone (with_transaction t)
  AddsNone-with_transaction t = record { at = λ w. committed (t w.db) w }

  handled :
      (r : Result A) (w : World) (h : Failure → Exec A)
      → ((e : Failure) → AddsNone (h e))
      → jobs (handle r w h).1.calls ≡ jobs w.calls
  handled (ok a) w h k = refl
  handled (err e) w h k = (k e).at w

  AddsNone-try_catch :
      (m : Exec A) (h : Failure → Exec A)
      → AddsNone m
      → ((e : Failure) → AddsNone (h e))
      → AddsNone (try_catch m h)
  AddsNone-try_catch m h km kh = record { at = λ w. handled (m w).0 (m w).1 h kh ∙ km.at w }

  AddsNone-if : (b : Bool) (m n : Exec A) → AddsNone m → AddsNone n → AddsNone (if b then m else n)
  AddsNone-if true m n km kn = km
  AddsNone-if false m n km kn = kn

module _ {A B : Type 0} where
  continued :
      (r : Result A) (w : World) (f : A → Exec B)
      → ((a : A) → AddsNone (f a))
      → jobs (continue r w f).1.calls ≡ jobs w.calls
  continued (ok a) w f k = (k a).at w
  continued (err e) w f k = refl

  AddsNone-bind :
      (m : Exec A) (f : A → Exec B) → AddsNone m → ((a : A) → AddsNone (f a)) → AddsNone (m >>= f)
  AddsNone-bind m f km kf = record { at = λ w. continued (m w).0 (m w).1 f kf ∙ km.at w }

module _ (c : Call) (other : jobs (c ∷ []) ≡ []) where
  added : (w : World) → jobs (w.calls ++ c ∷ []) ≡ jobs w.calls
  added w =
      jobs-append w.calls (c ∷ []) ∙ ap (λ js. jobs w.calls ++ js) other ∙ append-nil (jobs w.calls)

  called : (b : Bool) (w : World) → jobs (call_when b c w).1.calls ≡ jobs w.calls
  called true w = added w
  called false w = refl

  called_quietly : (b : Bool) (w : World) → jobs (call_quietly_when b c w).1.calls ≡ jobs w.calls
  called_quietly true w = added w
  called_quietly false w = refl

  AddsNone-call : AddsNone (call c)
  AddsNone-call = record { at = λ w. called w.redis_up w }

  AddsNone-call_quietly : AddsNone (call_quietly c)
  AddsNone-call_quietly = record { at = λ w. called_quietly w.redis_up w }

AddsNone-cancel_order_expiry : (id : ℕ) → AddsNone (call_quietly (cancel_order_expiry id))
AddsNone-cancel_order_expiry id = AddsNone-call_quietly (cancel_order_expiry id) refl

AddsNone-notify_order_failed : (id : ℕ) (s : String) → AddsNone (call (notify_order_failed id s))
AddsNone-notify_order_failed id s = AddsNone-call (notify_order_failed id s) refl

AddsNone-enqueue_ticket_issuance : (id : ℕ) → AddsNone (call (enqueue_ticket_issuance id))
AddsNone-enqueue_ticket_issuance id = AddsNone-call (enqueue_ticket_issuance id) refl

AddsNone-invalidate_order_event : (o : Option Order) → AddsNone (invalidate_order_event o)
unfolding invalidate_order_event
AddsNone-invalidate_order_event none = AddsNone-pure tt
AddsNone-invalidate_order_event (some o) = AddsNone-call_quietly (invalidate_event o.event_id) refl

AddsNone-mark_webhook :
    (id : Option ℕ) (status : WebhookStatus) (error : Option String) (now : ℕ)
    → AddsNone (mark_webhook id status error now)
unfolding mark_webhook
AddsNone-mark_webhook none status error now = AddsNone-pure tt
AddsNone-mark_webhook (some id) status error now = record { at = λ w. refl }

ruleset adds_none = (
  AddsNone-pure, AddsNone-throw, AddsNone-gets, AddsNone-with_transaction, AddsNone-try_catch,
  AddsNone-if, AddsNone-bind, AddsNone-cancel_order_expiry, AddsNone-notify_order_failed,
  AddsNone-enqueue_ticket_issuance, AddsNone-invalidate_order_event, AddsNone-mark_webhook,
)

module _ (p : Payment) (r : SettlementResult) (webhook : Option ℕ) (now : ℕ) where
  AddsNone-settle_underpaid : AddsNone (settle_underpaid p r webhook now)
  unfolding settle_underpaid
  AddsNone-settle_underpaid = search adds_none depth 8

  AddsNone-after_committed :
      (commit : CommitResult) → AddsNone (after_committed p commit webhook now)
  unfolding after_committed
  AddsNone-after_committed commit = search adds_none depth 8

  AddsNone-settle_paid : AddsNone (settle_paid p r webhook now)
  unfolding settle_paid
  AddsNone-settle_paid = search (adds_none, AddsNone-after_committed) depth 8

  AddsNone-settle_success : AddsNone (settle_success p r webhook now)
  unfolding settle_success
  AddsNone-settle_success =
      search (adds_none, AddsNone-settle_paid, AddsNone-settle_underpaid) depth 8

  AddsNone-settle_failure : AddsNone (settle_failure p r webhook now)
  unfolding settle_failure
  AddsNone-settle_failure = search adds_none depth 12

  AddsNone-settle : AddsNone (settle p r webhook now)
  unfolding settle
  AddsNone-settle =
      AddsNone-if (is_success r.outcome) (settle_success p r webhook now)
        (settle_failure p r webhook now) AddsNone-settle_success AddsNone-settle_failure

  AddsNone-settle_or_release : AddsNone (settle_or_release p r webhook now)
  unfolding settle_or_release after_throw
  AddsNone-settle_or_release = search (adds_none, AddsNone-settle) depth 10

  AddsNone-settle_confirmed :
      (c : Option Unconfirmed) → AddsNone (settle_confirmed c p r webhook now)
  unfolding settle_confirmed
  AddsNone-settle_confirmed none = AddsNone-settle_or_release
  AddsNone-settle_confirmed (some reason) = search adds_none depth 10

module _ (outside : Outside) (r : SettlementResult) (options : ApplySettlementOptions)
    (now : ℕ) where
  AddsNone-settle_decided : (p : Payment) → AddsNone (settle_decided outside r options now p)
  unfolding settle_decided
  AddsNone-settle_decided p =
      search (adds_none, AddsNone-settle_confirmed, AddsNone-settle_or_release) depth 8

  AddsNone-settle_claimed : (p : Payment) → AddsNone (settle_claimed outside r options now p)
  unfolding settle_claimed
  AddsNone-settle_claimed p = search (adds_none, AddsNone-settle_decided) depth 8

  AddsNone-report_unclaimed :
      (existing : Option Payment) → AddsNone (report_unclaimed outside r options now existing)
  unfolding report_unclaimed
  AddsNone-report_unclaimed (some p) = search adds_none depth 8
  AddsNone-report_unclaimed none = search adds_none depth 10

  AddsNone-dispatch_claim :
      (claimed : Option Payment) → AddsNone (dispatch_claim outside r options now claimed)
  unfolding dispatch_claim
  AddsNone-dispatch_claim (some p) = AddsNone-settle_claimed p
  AddsNone-dispatch_claim none = search (adds_none, AddsNone-report_unclaimed) depth 8

  pub AddsNone-apply_settlement : AddsNone (apply_settlement outside r options now)
  unfolding apply_settlement
  AddsNone-apply_settlement = search (adds_none, AddsNone-dispatch_claim) depth 8
