-- ===== src/Payments/Safety.antt =====
-- What a settlement does not do: a success that the gateway does not confirm changes no order, and
-- a payment that has been settled is not settled again.
use ticketing_app.Prelude.{
  ℕ, String, ◌≡◌, ◌≢◌, refl, ◌∙◌, Bool, false, Option, none, some, List, [], ◌∷◌, map, first,
  update_where, str_eq, arith, ◌==◌, ◌&&◌,
}
use ticketing_app.Schema.{
  Payment, EntityId, Transition, WebhookStatus, SettlementOutcome, is_pending,
}
use ticketing_app.Store.{Result, ok}
use ticketing_app.Store.Exec.{World, try_catch, with_transaction, pure}
use ticketing_app.Payments.Settlement.{
  SettlementResult, SettlementOutcomeReport, SettlementSource, Outside, update_payments,
}
use ticketing_app.Payments.Webhook.{mark_webhook}
use ticketing_app.Payments.Apply.{
  ApplySettlementOptions, Unconfirmed, is_claimable, stamp, stamped, unstamp, release_claim,
  report_unclaimed, settle_confirmed, settle_decided, settle_claimed, dispatch_claim,
  apply_settlement, confirm_success, unknown_reference, not_applied, unconfirmed_note,
  unconfirmed_reason,
}
use ticketing_app.Ledger.Record.{record_transition, append_entry}

-- Nothing that a buyer or the gate sees has changed: no tier, order, item, ticket, no status of a
-- payment; and nothing was queued.
pub record Unmoved (w w' : World) : Type 0 where
  pub tiers : w'.db.tiers ≡ w.db.tiers
  pub orders : w'.db.orders ≡ w.db.orders
  pub items : w'.db.items ≡ w.db.items
  pub tickets : w'.db.tickets ≡ w.db.tickets
  pub statuses :
      map (λ (p : Payment). p.status) w'.db.payments ≡ map (λ (p : Payment). p.status) w.db.payments
  pub calls : w'.calls ≡ w.calls

-- The gateway answers with something other than a success, or does not answer.
abbrev pub NotConfirmed : Option SettlementResult → Type 0
NotConfirmed none = Unit
NotConfirmed (some answer) = answer.outcome ≢ SettlementOutcome.succeeded

confirm_refuses :
    (answer : Option SettlementResult)
    → NotConfirmed answer
    → (reason : Unconfirmed) × (confirm_success answer ≡ some reason)
unfolding confirm_success
confirm_refuses none h = (Unconfirmed.query_failed, refl)
confirm_refuses (some a) h = go a.outcome h
  where
    go :
        (o : SettlementOutcome)
        → o ≢ SettlementOutcome.succeeded
        → (reason : Unconfirmed) × (elim o as (λ _. Option Unconfirmed) [
          | SettlementOutcome.succeeded ↦ none
          | SettlementOutcome.pending ↦ some Unconfirmed.still_pending
          | _ ↦ some Unconfirmed.contradicted
        ]
            ≡ some reason)
    go SettlementOutcome.succeeded ne = absurd (ne refl)
    go SettlementOutcome.pending ne = (Unconfirmed.still_pending, refl)
    go _ ne = (Unconfirmed.contradicted, refl)

statuses_stay :
    (p : Payment → Bool) (f : Payment → Payment) (ps : List Payment)
    → ((x : Payment) → (f x).status ≡ x.status)
    → map (λ (x : Payment). x.status) (update_where p f ps) ≡ map (λ (x : Payment). x.status) ps
statuses_stay p f [] same = refl
statuses_stay p f (x ∷ xs) same = ground (arith, same x, statuses_stay p f xs same)

-- What `mark_webhook` leaves alone, and that it does not throw.
pub mark_webhook-frame :
    (id : Option ℕ) (status : WebhookStatus) (error : Option String) (now : ℕ) (w : World)
    → let (r, w') = mark_webhook id status error now w in
      (r ≡ ok tt) × (w'.db.payments ≡ w.db.payments) × (w'.db.orders ≡ w.db.orders) × Unmoved w w'
unfolding mark_webhook
mark_webhook-frame none status error now w = ground arith
mark_webhook-frame (some id) status error now w = ground arith

Unmoved-trans : {u v w : World} → Unmoved u v → Unmoved v w → Unmoved u w
Unmoved-trans a b = record {
  tiers = b.tiers ∙ a.tiers;
  orders = b.orders ∙ a.orders;
  items = b.items ∙ a.items;
  tickets = b.tickets ∙ a.tickets;
  statuses = b.statuses ∙ a.statuses;
  calls = b.calls ∙ a.calls;
}

-- The payments of a database, replaced by rows of the same statuses.
with_payments : World → List Payment → World
with_payments w ps = record w { db = record w.db { payments = ps } }

with_payments-Unmoved :
    (w : World) (p : Payment → Bool) (f : Payment → Payment)
    → ((x : Payment) → (f x).status ≡ x.status)
    → Unmoved w (with_payments w (update_where p f w.db.payments))
unfolding with_payments
with_payments-Unmoved w p f same = record {
  tiers = refl;
  orders = refl;
  items = refl;
  tickets = refl;
  statuses = statuses_stay p f w.db.payments same;
  calls = refl;
}

-- What a call that applies nothing returns and leaves.
abbrev pub AppliesNothing : World → Result SettlementOutcomeReport × World → Type 0
AppliesNothing w out = record {
  report : SettlementOutcomeReport;
  returned : out.0 ≡ ok report;
  unapplied : report.applied ≡ false;
  unmoved : Unmoved w out.1;
}

settle_confirmed-refused :
    (reason : Unconfirmed) (p : Payment) (r : SettlementResult) (webhook : Option ℕ) (now : ℕ)
    (w : World)
    → AppliesNothing w (settle_confirmed (some reason) p r webhook now w)
unfolding settle_confirmed release_claim update_payments with_payments
settle_confirmed-refused reason p r webhook now w =
    let released =
      with_payments w
        (update_where (λ q. q.id == p.id && is_pending q.status) unstamp w.db.payments) in
    let frame =
      mark_webhook-frame webhook WebhookStatus.ignored (some (unconfirmed_note reason)) now
        released in
    rw frame.0 (record {
      report = not_applied (unconfirmed_reason reason) none;
      returned = refl;
      unapplied = refl;
      unmoved = Unmoved-trans (with_payments-Unmoved w _ unstamp (λ x. refl)) frame.3;
    })

-- The note about an unknown reference, filed or not, moves nothing either.
note_unknown-Unmoved :
    (entry : Transition) (w : World)
    → let (r, w') = try_catch (with_transaction (record_transition entry)) (λ _. pure tt) w in
      (r ≡ ok tt) × Unmoved w w'
unfolding record_transition
note_unknown-Unmoved entry w = go entry.entity_id
  where
    go :
        (id : EntityId)
        → let (r, w') = try_catch (with_transaction (append_entry id entry)) (λ _. pure tt) w in
          (r ≡ ok tt) × Unmoved w w'
    go (EntityId.row n) = ground arith
    go (EntityId.reference s) = ground arith

report_unclaimed-AppliesNothing :
    (outside : Outside) (r : SettlementResult) (options : ApplySettlementOptions) (now : ℕ)
    (existing : Option Payment) (w : World)
    → AppliesNothing w (report_unclaimed outside r options now existing w)
unfolding report_unclaimed
report_unclaimed-AppliesNothing outside r options now (some p) w =
    let frame =
      mark_webhook-frame options.webhook_event_id WebhookStatus.ignored (some "already settled") now
        w in
    rw frame.0 (record { report = _; returned = refl; unapplied = refl; unmoved = frame.3 })
report_unclaimed-AppliesNothing outside r options now none w =
    let noted = note_unknown-Unmoved (unknown_reference outside r) w in
    let w1 =
      (try_catch (with_transaction (record_transition (unknown_reference outside r))) (λ _. pure tt)
        w).1 in
    let frame =
      mark_webhook-frame options.webhook_event_id WebhookStatus.ignored (some "unknown gateway ref")
        now w1 in
    rw (noted.0, frame.0)
      (record {
        report = _;
        returned = refl;
        unapplied = refl;
        unmoved = Unmoved-trans noted.1 frame.3;
      })

AppliesNothing-after :
    {u v : World} {out : Result SettlementOutcomeReport × World}
    → Unmoved u v
    → AppliesNothing v out
    → AppliesNothing u out
AppliesNothing-after m a = record {
  report = a.report;
  returned = a.returned;
  unapplied = a.unapplied;
  unmoved = Unmoved-trans m a.unmoved;
}

module _ (outside : Outside) (r : SettlementResult) (options : ApplySettlementOptions)
    (now : ℕ) where
  dispatch_none : (w : World) → AppliesNothing w (dispatch_claim outside r options now none w)
  unfolding dispatch_claim
  dispatch_none w =
      report_unclaimed-AppliesNothing outside r options now
        (first (λ p. str_eq p.gateway_ref r.gateway_ref) w.db.payments) w

  dispatch_forged :
      r.outcome ≡ SettlementOutcome.succeeded
      → options.source ≡ SettlementSource.callback
      → NotConfirmed (outside.query_status r.gateway_ref)
      → (claimed : Option Payment) (w : World)
      → AppliesNothing w (dispatch_claim outside r options now claimed w)
  unfolding dispatch_claim settle_claimed settle_decided
  dispatch_forged success by_callback refused none w = dispatch_none w
  dispatch_forged success by_callback refused (some p) w =
      let why = confirm_refuses (outside.query_status r.gateway_ref) refused in
      rw (success, by_callback, why.1)
        (settle_confirmed-refused why.0 p r options.webhook_event_id now w)

-- Whatever its outcome and its source, a result for a reference with no pending payment (one that
-- was settled before, or never was) returns a report that nothing was applied, and moves no tier,
-- order, item, ticket or payment status, nor queues anything.
pub apply_settlement-settled :
    (outside : Outside) (r : SettlementResult) (options : ApplySettlementOptions) (now : ℕ)
    (w : World)
    → first (is_claimable r.gateway_ref) w.db.payments ≡ none
    → AppliesNothing w (apply_settlement outside r options now w)
unfolding apply_settlement with_payments
apply_settlement-settled outside r options now w absent = rw absent (
    AppliesNothing-after
      (with_payments-Unmoved w (is_claimable r.gateway_ref) (stamp now) (λ x. refl))
      (dispatch_none outside r options now _))

-- A success that arrives by callback and that the gateway, asked about it, does not confirm,
-- returns a report that nothing was applied, and moves no tier, order, item, ticket or payment
-- status, nor queues anything.
pub apply_settlement-forged :
    (outside : Outside) (r : SettlementResult) (options : ApplySettlementOptions) (now : ℕ)
    (w : World)
    → r.outcome ≡ SettlementOutcome.succeeded
    → options.source ≡ SettlementSource.callback
    → NotConfirmed (outside.query_status r.gateway_ref)
    → AppliesNothing w (apply_settlement outside r options now w)
unfolding apply_settlement with_payments
apply_settlement-forged outside r options now w success by_callback refused =
    AppliesNothing-after
      (with_payments-Unmoved w (is_claimable r.gateway_ref) (stamp now) (λ x. refl))
      (dispatch_forged outside r options now success by_callback refused
        (stamped now (first (is_claimable r.gateway_ref) w.db.payments)) _)
