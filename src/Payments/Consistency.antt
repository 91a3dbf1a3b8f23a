-- ===== src/Payments/Consistency.antt =====
-- Settlement keeps the counters consistent, on every path and after every throw.
use ticketing_app.Prelude.{ℕ, arith, String, refl, Bool, Option, none, some}
use ticketing_app.Schema.{Payment, WebhookStatus, Order}
use ticketing_app.Store.Exec.{World}
use ticketing_app.Store.Keeps.{Keeps, keeps_rules, Keeps-if}
use ticketing_app.Inventory.Commit.{CommitResult}
use ticketing_app.Inventory.Counters.Invariant.{IsConsistent}
use ticketing_app.Inventory.Counters.Framing.{Frames, same_counters, counter_rules}
use ticketing_app.Payments.Settlement.{SettlementResult, Outside, update_payments, settle_payment}
use ticketing_app.Payments.Webhook.{mark_webhook}
use ticketing_app.Payments.Settle.{
  record_underpayment, record_success, record_failure, settle_underpaid, settle_paid,
  settle_success, settle_failure, after_committed, invalidate_order_event,
}
use ticketing_app.Payments.Apply.{
  ApplySettlementOptions, Unconfirmed, claim_payment, keep_in_flight, release_claim,
  report_unclaimed, settle, after_throw, settle_or_release, settle_confirmed, settle_decided,
  settle_claimed, dispatch_claim, apply_settlement, is_success,
}

Frames-update_payments : (p : Payment → Bool) (f : Payment → Payment) → Frames (update_payments p f)
unfolding update_payments
Frames-update_payments p f = record {
  tiers_stay = λ db r db' h. ground arith;
  orders_stay = λ db r db' h. ground arith;
  items_stay = λ db r db' h. ground arith;
}

Frames-settle_payment :
    (id : ℕ) (receipt : Option String) (f : Payment → Payment)
    → Frames (settle_payment id receipt f)
unfolding settle_payment
Frames-settle_payment id receipt f = record {
  tiers_stay = λ db r db' h. ground arith;
  orders_stay = λ db r db' h. ground arith;
  items_stay = λ db r db' h. ground arith;
}

Frames-claim_payment : (ref : String) (now : ℕ) → Frames (claim_payment ref now)
unfolding claim_payment
Frames-claim_payment ref now = record {
  tiers_stay = λ db r db' h. ground arith;
  orders_stay = λ db r db' h. ground arith;
  items_stay = λ db r db' h. ground arith;
}

Keeps-mark_webhook :
    (id : Option ℕ) (status : WebhookStatus) (error : Option String) (now : ℕ)
    → Keeps IsConsistent (mark_webhook id status error now)
unfolding mark_webhook
Keeps-mark_webhook none status error now = record { at = λ w h. h }
Keeps-mark_webhook (some id) status error now = record {
  at = λ w h. same_counters refl refl refl h;
}

Keeps-invalidate_order_event : (o : Option Order) → Keeps IsConsistent (invalidate_order_event o)
unfolding invalidate_order_event
Keeps-invalidate_order_event none = search keeps_rules
Keeps-invalidate_order_event (some o) = search keeps_rules

ruleset frame_rules = (
  counter_rules, Frames-update_payments, Frames-settle_payment, Frames-claim_payment,
  Keeps-mark_webhook, Keeps-invalidate_order_event,
)

Keeps-settle_underpaid :
    (p : Payment) (r : SettlementResult) (webhook : Option ℕ) (now : ℕ)
    → Keeps IsConsistent (settle_underpaid p r webhook now)
unfolding settle_underpaid record_underpayment
Keeps-settle_underpaid p r webhook now = search frame_rules depth 8

Keeps-after_committed :
    (p : Payment) (commit : CommitResult) (webhook : Option ℕ) (now : ℕ)
    → Keeps IsConsistent (after_committed p commit webhook now)
unfolding after_committed
Keeps-after_committed p commit webhook now = search frame_rules depth 8

Keeps-settle_paid :
    (p : Payment) (r : SettlementResult) (webhook : Option ℕ) (now : ℕ)
    → Keeps IsConsistent (settle_paid p r webhook now)
unfolding settle_paid record_success
Keeps-settle_paid p r webhook now = search (frame_rules, Keeps-after_committed) depth 8

Keeps-settle_success :
    (p : Payment) (r : SettlementResult) (webhook : Option ℕ) (now : ℕ)
    → Keeps IsConsistent (settle_success p r webhook now)
unfolding settle_success
Keeps-settle_success p r webhook now =
    search (frame_rules, Keeps-settle_paid, Keeps-settle_underpaid) depth 8

Keeps-settle_failure :
    (p : Payment) (r : SettlementResult) (webhook : Option ℕ) (now : ℕ)
    → Keeps IsConsistent (settle_failure p r webhook now)
unfolding settle_failure record_failure
Keeps-settle_failure p r webhook now = search frame_rules depth 12

Keeps-settle :
    (p : Payment) (r : SettlementResult) (webhook : Option ℕ) (now : ℕ)
    → Keeps IsConsistent (settle p r webhook now)
unfolding settle
Keeps-settle p r webhook now =
    Keeps-if (is_success r.outcome) (settle_success p r webhook now)
      (settle_failure p r webhook now) (Keeps-settle_success p r webhook now)
      (Keeps-settle_failure p r webhook now)

Keeps-settle_or_release :
    (p : Payment) (r : SettlementResult) (webhook : Option ℕ) (now : ℕ)
    → Keeps IsConsistent (settle_or_release p r webhook now)
unfolding settle_or_release after_throw release_claim
Keeps-settle_or_release p r webhook now = search (frame_rules, Keeps-settle) depth 10

Keeps-settle_confirmed :
    (c : Option Unconfirmed) (p : Payment) (r : SettlementResult) (webhook : Option ℕ) (now : ℕ)
    → Keeps IsConsistent (settle_confirmed c p r webhook now)
unfolding settle_confirmed release_claim
Keeps-settle_confirmed none p r webhook now = Keeps-settle_or_release p r webhook now
Keeps-settle_confirmed (some reason) p r webhook now = search frame_rules depth 10

Keeps-settle_decided :
    (outside : Outside) (r : SettlementResult) (options : ApplySettlementOptions) (now : ℕ)
    (p : Payment)
    → Keeps IsConsistent (settle_decided outside r options now p)
unfolding settle_decided
Keeps-settle_decided outside r options now p =
    search (frame_rules, Keeps-settle_confirmed, Keeps-settle_or_release) depth 8

Keeps-settle_claimed :
    (outside : Outside) (r : SettlementResult) (options : ApplySettlementOptions) (now : ℕ)
    (p : Payment)
    → Keeps IsConsistent (settle_claimed outside r options now p)
unfolding settle_claimed keep_in_flight
Keeps-settle_claimed outside r options now p = search (frame_rules, Keeps-settle_decided) depth 8

Keeps-report_unclaimed :
    (outside : Outside) (r : SettlementResult) (options : ApplySettlementOptions) (now : ℕ)
    (existing : Option Payment)
    → Keeps IsConsistent (report_unclaimed outside r options now existing)
unfolding report_unclaimed
Keeps-report_unclaimed outside r options now (some p) = search frame_rules depth 8
Keeps-report_unclaimed outside r options now none = search frame_rules depth 10

Keeps-dispatch_claim :
    (outside : Outside) (r : SettlementResult) (options : ApplySettlementOptions) (now : ℕ)
    (claimed : Option Payment)
    → Keeps IsConsistent (dispatch_claim outside r options now claimed)
unfolding dispatch_claim
Keeps-dispatch_claim outside r options now (some p) = Keeps-settle_claimed outside r options now p
Keeps-dispatch_claim outside r options now none =
    search (frame_rules, Keeps-report_unclaimed) depth 8

pub Keeps-apply_settlement :
    (outside : Outside) (r : SettlementResult) (options : ApplySettlementOptions) (now : ℕ)
    → Keeps IsConsistent (apply_settlement outside r options now)
unfolding apply_settlement
Keeps-apply_settlement outside r options now = search (frame_rules, Keeps-dispatch_claim) depth 8

-- From a consistent database, whatever result is applied, from wherever it came, whatever the
-- gateway answers, and whether the settlement returns or throws, the database stays consistent.
pub apply_settlement-IsConsistent :
    (outside : Outside) (r : SettlementResult) (options : ApplySettlementOptions) (now : ℕ)
    (w : World)
    → IsConsistent w.db
    → IsConsistent (apply_settlement outside r options now w).1.db
apply_settlement-IsConsistent outside r options now w c =
    (Keeps-apply_settlement outside r options now).at w c
