-- ===== src/Payments/Settle.antt =====
-- `settleSuccess` and `settleFailure`: what happens to a claimed payment once its outcome is known.
use ticketing_app.Prelude.{ℕ, String, Bool, true, false, Option, none, some, ltb, if◌then◌else◌}
use ticketing_app.Schema.{
  Order, Payment, PaymentStatus, WebhookStatus, SettlementOutcome, Transition, LedgerEntity,
  EntityId, Json, Object, payment_status_text, outcome_text,
}
use ticketing_app.Store.Tx
use ticketing_app.Store.Tx.{Tx}
use ticketing_app.Store.Exec.{
  Exec, pure, gets, with_transaction, call, call_quietly, cancel_order_expiry, invalidate_event,
  notify_order_failed, enqueue_ticket_issuance, ◌>>=◌, ◌>>◌,
}
use ticketing_app.Ledger.Record.{record_transition}
use ticketing_app.Inventory.Release.{TerminalStatus, release_order, order_by_id}
use ticketing_app.Inventory.Commit.{CommitResult, commit_order}
use ticketing_app.Payments.Settlement.{SettlementResult, SettlementOutcomeReport, settle_payment}
use ticketing_app.Payments.Webhook.{mark_webhook}

abbrev pub text_or_null : Option String → Json
text_or_null none = Json.null
text_or_null (some s) = Json.text s

abbrev num_or_null : Option ℕ → Json
num_or_null none = Json.null
num_or_null (some n) = Json.num n

abbrev or_else : Option ℕ → ℕ → ℕ
or_else none d = d
or_else (some n) d = n

-- `result.amountCents !== undefined && result.amountCents < payment.amountCents`
abbrev pub is_underpaid : Payment → SettlementResult → Bool
is_underpaid p r = elim r.amount_cents [ none ↦ false | some n ↦ ltb n p.amount_cents ]

-- The `set` of the three UPDATEs; the text that explains an underpayment is left out.
unfoldable pub settled_row : PaymentStatus → SettlementResult → ℕ → Payment → Payment
settled_row status r now p = record p {
  status = status;
  result_code = some r.result_code;
  result_desc = some r.result_desc;
  settled_at = some now;
}

unfoldable pub underpaid_row : SettlementResult → ℕ → Payment → Payment
underpaid_row r now p = record p {
  status = PaymentStatus.failed;
  result_code = some r.result_code;
  result_desc = some "Underpaid";
  receipt = r.receipt;
  settled_at = some now;
}

unfoldable pub succeeded_row : SettlementResult → ℕ → Payment → Payment
unfolding settled_row
succeeded_row r now p = record (settled_row PaymentStatus.succeeded r now p) {
  receipt = r.receipt;
  transaction_date = r.transaction_date;
}

abbrev payment_entry : Payment → String → PaymentStatus → Option ℕ → Object → Transition
payment_entry p event status amount detail = record {
  entity = LedgerEntity.payment;
  entity_id = EntityId.row p.id;
  event = event;
  from_state = some "pending";
  to_state = payment_status_text status;
  actor = "gateway:mpesa";
  order_id = some p.order_id;
  event_id = none;
  amount_cents = amount;
  detail = detail;
}

unfoldable pub payment_underpaid : Payment → SettlementResult → Transition
payment_underpaid p r = payment_entry p "payment.underpaid" PaymentStatus.failed r.amount_cents (
    Object.field "expectedCents" (Json.num p.amount_cents) (
      Object.field "receivedCents" (num_or_null r.amount_cents) (
        Object.field "receipt" (text_or_null r.receipt)
          (Object.field "resultCode" (Json.int r.result_code) Object.end))))

unfoldable pub payment_settled : Payment → SettlementResult → Transition
payment_settled p r =
    payment_entry p "payment.settled" PaymentStatus.succeeded
      (some (or_else r.amount_cents p.amount_cents))
      (Object.field "receipt" (text_or_null r.receipt) (
        Object.field "resultCode" (Json.int r.result_code) (
          Object.field "resultDesc" (Json.text r.result_desc) (
            Object.field "transactionDate" (num_or_null r.transaction_date)
              (Object.field "payerPhone" (Json.chars p.payer_phone) Object.end)))))

-- `payment.${paymentStatus}`
abbrev failed_event : PaymentStatus → String
failed_event PaymentStatus.cancelled = "payment.cancelled"
failed_event PaymentStatus.timeout = "payment.timeout"
failed_event _ = "payment.failed"

unfoldable pub payment_failed : Payment → PaymentStatus → SettlementResult → Transition
payment_failed p status r = payment_entry p (failed_event status) status (some p.amount_cents) (
    Object.field "resultCode" (Json.int r.result_code) (
      Object.field "resultDesc" (Json.text r.result_desc)
        (Object.field "outcome" (Json.text (outcome_text r.outcome)) Object.end)))

unfoldable pub record_underpayment : Payment → SettlementResult → ℕ → Tx Unit
unfolding underpaid_row payment_underpaid
record_underpayment p r now =
    Tx.◌>>◌ (settle_payment p.id r.receipt (underpaid_row r now))
      (record_transition (payment_underpaid p r))

unfoldable pub record_success : Payment → SettlementResult → ℕ → Tx Unit
unfolding succeeded_row payment_settled
record_success p r now =
    Tx.◌>>◌ (settle_payment p.id r.receipt (succeeded_row r now))
      (record_transition (payment_settled p r))

unfoldable pub record_failure : Payment → PaymentStatus → SettlementResult → ℕ → Tx Unit
unfolding settled_row payment_failed
record_failure p status r now =
    Tx.◌>>◌ (settle_payment p.id none (settled_row status r now))
      (record_transition (payment_failed p status r))

abbrev report : Option String → String → Bool → SettlementOutcomeReport
report reason status refund = record {
  applied = true;
  reason = reason;
  order_status = some status;
  requires_refund = refund;
}

-- `if (order) await invalidateEvent(order.eventId)`
unfoldable pub invalidate_order_event : Option Order → Exec Unit
invalidate_order_event none = pure tt
invalidate_order_event (some o) = call_quietly (invalidate_event o.event_id)

-- settleSuccess, from the underpayment guard's return on
unfoldable pub settle_underpaid :
    Payment → SettlementResult → Option ℕ → ℕ → Exec SettlementOutcomeReport
unfolding record_underpayment
settle_underpaid p r webhook now = do
  with_transaction (record_underpayment p r now)
  with_transaction (release_order p.order_id TerminalStatus.failed now)
  mark_webhook webhook WebhookStatus.processed none now
  pure (report (some "underpayment") "failed" false)

-- What `settleSuccess` does once the order is committed.
unfoldable pub after_committed :
    Payment → CommitResult → Option ℕ → ℕ → Exec SettlementOutcomeReport
after_committed p commit webhook now = do
  call_quietly (cancel_order_expiry p.order_id)
  order ← gets (order_by_id p.order_id)
  invalidate_order_event order
  if commit.requires_refund
      then (do
        call (
            notify_order_failed p.order_id
              "Paid after the hold lapsed and the tier had sold out — refund required")
        mark_webhook webhook WebhookStatus.processed none now
        pure (report (some "refund_required") "paid" true))
      else (do
        call (enqueue_ticket_issuance p.order_id)
        mark_webhook webhook WebhookStatus.processed none now
        pure (report none "paid" false))

unfoldable pub settle_paid :
    Payment → SettlementResult → Option ℕ → ℕ → Exec SettlementOutcomeReport
unfolding record_success after_committed
settle_paid p r webhook now = do
  with_transaction (record_success p r now)
  commit ← with_transaction (commit_order p.order_id now)
  after_committed p commit webhook now

-- settleSuccess
unfoldable pub settle_success :
    Payment → SettlementResult → Option ℕ → ℕ → Exec SettlementOutcomeReport
unfolding settle_underpaid settle_paid
settle_success p r webhook now =
    if is_underpaid p r then settle_underpaid p r webhook now else settle_paid p r webhook now

abbrev pub failure_status : SettlementOutcome → PaymentStatus
failure_status SettlementOutcome.cancelled = PaymentStatus.cancelled
failure_status SettlementOutcome.timeout = PaymentStatus.timeout
failure_status _ = PaymentStatus.failed

abbrev pub failure_terminal : SettlementOutcome → TerminalStatus
failure_terminal SettlementOutcome.cancelled = TerminalStatus.cancelled
failure_terminal _ = TerminalStatus.failed

abbrev terminal_text : TerminalStatus → String
terminal_text TerminalStatus.cancelled = "cancelled"
terminal_text TerminalStatus.failed = "failed"
terminal_text TerminalStatus.expired = "expired"

-- `result.resultDesc || 'Payment was not completed'`
abbrev or_default : String → String
or_default String.[] = "Payment was not completed"
or_default (String.◌∷◌ c s) = String.◌∷◌ c s

-- settleFailure
unfoldable pub settle_failure :
    Payment → SettlementResult → Option ℕ → ℕ → Exec SettlementOutcomeReport
unfolding record_failure
settle_failure p r webhook now = do
  with_transaction (record_failure p (failure_status r.outcome) r now)
  with_transaction (release_order p.order_id (failure_terminal r.outcome) now)
  call_quietly (cancel_order_expiry p.order_id)
  order ← gets (order_by_id p.order_id)
  invalidate_order_event order
  call (notify_order_failed p.order_id (or_default r.result_desc))
  mark_webhook webhook WebhookStatus.processed none now
  pure (report none (terminal_text (failure_terminal r.outcome)) false)
