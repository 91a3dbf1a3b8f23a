-- ===== src/Payments/Apply.antt =====
-- `applySettlement` and `confirmSuccess`: the claim, the guards, and what follows a throw.
use ticketing_app.Prelude.{
  ℕ, ◌+◌, String, Bool, true, false, Option, none, some, first, str_eq, ◌==◌, ◌&&◌, if◌then◌else◌,
}
use ticketing_app.Schema.{
  Payment, WebhookStatus, SettlementOutcome, Transition, LedgerEntity, EntityId, Json, Object,
  is_pending, payment_status_text, outcome_text,
}
use ticketing_app.Store.{Failure}
use ticketing_app.Store.Tx
use ticketing_app.Store.Tx.{Tx}
use ticketing_app.Store.Exec.{Exec, pure, throw, gets, with_transaction, try_catch, ◌>>=◌, ◌>>◌}
use ticketing_app.Ledger.Record.{record_transition}
use ticketing_app.Payments.Settlement.{
  SettlementResult, SettlementOutcomeReport, SettlementSource, Outside, update_payments,
}
use ticketing_app.Payments.Webhook.{mark_webhook}
use ticketing_app.Payments.Settle.{settle_success, settle_failure, text_or_null}

-- ApplySettlementOptions, with the default of `source` filled in: `callback`
pub record ApplySettlementOptions : Type 0 where
  pub webhook_event_id : Option ℕ
  pub source : SettlementSource

-- `gateway_ref = ref AND status = 'pending'`
abbrev pub is_claimable : String → Payment → Bool
is_claimable ref p = str_eq p.gateway_ref ref && is_pending p.status

abbrev pub stamp : ℕ → Payment → Payment
stamp now p = record p { claimed_at = some now }

abbrev pub unstamp : Payment → Payment
unstamp p = record p { claimed_at = none }

abbrev pub stamped : ℕ → Option Payment → Option Payment
stamped now none = none
stamped now (some p) = some (stamp now p)

-- The conditional UPDATE that claims a payment, and the first of the rows that it returns.
unfoldable pub claim_payment : String → ℕ → Tx (Option Payment)
unfolding update_payments
claim_payment ref now db =
    (Tx.◌>>◌ (update_payments (is_claimable ref) (stamp now))
        (Tx.pure (stamped now (first (is_claimable ref) db.payments))))
      db

-- The UPDATEs that clear a claim: of a payment still in flight, and of one that is still pending.
unfoldable pub keep_in_flight : ℕ → ℕ → Tx Unit
keep_in_flight id now =
    update_payments (λ p. p.id == id)
      (λ p. record p {
        claimed_at = none;
        reconcile_attempts = p.reconcile_attempts + 1;
        last_reconciled_at = some now;
      })

unfoldable pub release_claim : ℕ → Tx Unit
release_claim id = update_payments (λ p. p.id == id && is_pending p.status) unstamp

-- `entityId: result.gatewayRef`, for a column of UUIDs
abbrev pub entity_of : Option ℕ → String → EntityId
entity_of (some id) ref = EntityId.row id
entity_of none ref = EntityId.reference ref

unfoldable pub unknown_reference : Outside → SettlementResult → Transition
unknown_reference outside r = record {
  entity = LedgerEntity.payment;
  entity_id = entity_of (outside.parse_uuid r.gateway_ref) r.gateway_ref;
  event = "payment.unknown_reference";
  from_state = none;
  to_state = "ignored";
  actor = "gateway:mpesa";
  order_id = none;
  event_id = none;
  amount_cents = r.amount_cents;
  detail = Object.field "gatewayRef" (Json.text r.gateway_ref) (
      Object.field "resultCode" (Json.int r.result_code) (
        Object.field "outcome" (Json.text (outcome_text r.outcome))
          (Object.field "receipt" (text_or_null r.receipt) Object.end)));
}

abbrev pub not_applied : String → Option String → SettlementOutcomeReport
not_applied reason status = record {
  applied = false;
  reason = some reason;
  order_status = status;
  requires_refund = false;
}

-- The branch of an unclaimed settlement: settled before, or for a payment that is not there.
unfoldable pub report_unclaimed :
    Outside
    → SettlementResult
    → ApplySettlementOptions
    → ℕ
    → Option Payment
    → Exec SettlementOutcomeReport
report_unclaimed outside r options now (some existing) = do
  mark_webhook options.webhook_event_id WebhookStatus.ignored (some "already settled") now
  pure (not_applied "already_settled" (some (payment_status_text existing.status)))
report_unclaimed outside r options now none = do
  try_catch (with_transaction (record_transition (unknown_reference outside r))) (λ _. pure tt)
  mark_webhook options.webhook_event_id WebhookStatus.ignored (some "unknown gateway ref") now
  pure (not_applied "unknown_payment" none)

-- The reasons of `{ confirmed: false, reason }`.
pub data Unconfirmed : Type 0 where
  query_failed still_pending contradicted : Unconfirmed

-- confirmSuccess: nothing if the gateway confirms, else the reason
unfoldable pub confirm_success : Option SettlementResult → Option Unconfirmed
confirm_success none = some query_failed
confirm_success (some answer) = elim answer.outcome [
  | SettlementOutcome.succeeded ↦ none
  | SettlementOutcome.pending ↦ some still_pending
  | _ ↦ some contradicted
]

-- `unconfirmed: ${reason}` and `unconfirmed_${reason}`
abbrev pub unconfirmed_note : Unconfirmed → String
unconfirmed_note query_failed = "unconfirmed: query_failed"
unconfirmed_note still_pending = "unconfirmed: still_pending"
unconfirmed_note contradicted = "unconfirmed: contradicted"

abbrev pub unconfirmed_reason : Unconfirmed → String
unconfirmed_reason query_failed = "unconfirmed_query_failed"
unconfirmed_reason still_pending = "unconfirmed_still_pending"
unconfirmed_reason contradicted = "unconfirmed_contradicted"

abbrev pub is_success : SettlementOutcome → Bool
is_success SettlementOutcome.succeeded = true
is_success _ = false

-- The settlement proper: what the `try` block does.
unfoldable pub settle : Payment → SettlementResult → Option ℕ → ℕ → Exec SettlementOutcomeReport
settle p r webhook now =
    if is_success r.outcome then settle_success p r webhook now else settle_failure p r webhook now

-- The `catch`: the claim is released, the delivery is marked, and the error goes on.
unfoldable pub after_throw : Payment → Option ℕ → ℕ → Failure → Exec SettlementOutcomeReport
unfolding release_claim
after_throw p webhook now e = do
  with_transaction (release_claim p.id)
  mark_webhook webhook WebhookStatus.failed (some "error") now
  throw e

unfoldable pub settle_or_release :
    Payment → SettlementResult → Option ℕ → ℕ → Exec SettlementOutcomeReport
unfolding settle after_throw
settle_or_release p r webhook now = try_catch (settle p r webhook now) (after_throw p webhook now)

-- A success that was not confirmed releases the claim and is not applied.
unfoldable pub settle_confirmed :
    Option Unconfirmed → Payment → SettlementResult → Option ℕ → ℕ → Exec SettlementOutcomeReport
unfolding settle_or_release release_claim
settle_confirmed none p r webhook now = settle_or_release p r webhook now
settle_confirmed (some reason) p r webhook now = do
  with_transaction (release_claim p.id)
  mark_webhook webhook WebhookStatus.ignored (some (unconfirmed_note reason)) now
  pure (not_applied (unconfirmed_reason reason) none)

-- Whether the gateway is asked: a success that came by callback.
abbrev pub needs_confirmation : SettlementOutcome → SettlementSource → Bool
needs_confirmation SettlementOutcome.succeeded SettlementSource.callback = true
needs_confirmation _ _ = false

-- A claimed payment whose outcome is known.
unfoldable pub settle_decided :
    Outside → SettlementResult → ApplySettlementOptions → ℕ → Payment → Exec SettlementOutcomeReport
unfolding settle_confirmed settle_or_release
settle_decided outside r options now p =
    if needs_confirmation r.outcome options.source
    then settle_confirmed (confirm_success (outside.query_status r.gateway_ref)) p r
        options.webhook_event_id now
    else settle_or_release p r options.webhook_event_id now

abbrev pub is_in_flight : SettlementOutcome → Bool
is_in_flight SettlementOutcome.pending = true
is_in_flight _ = false

-- What happens to a payment that this call has claimed.
unfoldable pub settle_claimed :
    Outside → SettlementResult → ApplySettlementOptions → ℕ → Payment → Exec SettlementOutcomeReport
unfolding keep_in_flight settle_decided
settle_claimed outside r options now p =
    if is_in_flight r.outcome
    then (with_transaction (keep_in_flight p.id now) >> pure (not_applied "still_pending" none))
    else settle_decided outside r options now p

-- What follows the claim: `if (!payment) …`.
unfoldable pub dispatch_claim :
    Outside
    → SettlementResult
    → ApplySettlementOptions
    → ℕ
    → Option Payment
    → Exec SettlementOutcomeReport
unfolding settle_claimed report_unclaimed
dispatch_claim outside r options now (some p) = settle_claimed outside r options now p
dispatch_claim outside r options now none = do
  existing ← gets (λ db. first (λ p. str_eq p.gateway_ref r.gateway_ref) db.payments)
  report_unclaimed outside r options now existing

-- applySettlement
unfoldable pub apply_settlement :
    Outside → SettlementResult → ApplySettlementOptions → ℕ → Exec SettlementOutcomeReport
unfolding claim_payment dispatch_claim
apply_settlement outside r options now = do
  claimed ← with_transaction (claim_payment r.gateway_ref now)
  dispatch_claim outside r options now claimed
