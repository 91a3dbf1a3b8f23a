-- ===== src/Workers/Reconcile.antt =====
-- src/queue/workers/payment-reconcile.worker.ts, and `scheduleReconcile` of src/queue/queues.ts.
use ticketing_app.Prelude.{
  ℕ, suc, ◌*◌, ◌-◌, String, Bool, true, false, Option, none, some, first, ltb, ◌==◌, min,
  if◌then◌else◌, List, [], ◌∷◌, drop,
}
use ticketing_app.Schema.{Payment, PaymentStatus, SettlementOutcome, is_pending}
use ticketing_app.Store.Exec.{Exec, pure, gets, call, schedule_reconcile, ◌>>=◌, ◌>>◌}
use ticketing_app.Payments.Settlement.{
  SettlementResult, SettlementSource, SettlementOutcomeReport, Outside,
}
use ticketing_app.Payments.Apply.{ApplySettlementOptions, apply_settlement}

abbrev pub max_attempts : ℕ
max_attempts = 5

-- `delaysSeconds[i] ?? 300`
abbrev pub delay_at : List ℕ → ℕ
delay_at [] = 300
delay_at (d ∷ _) = d

-- The delay of `scheduleReconcile`, in milliseconds; attempts count from 1
unfoldable pub reconcile_delay : ℕ → ℕ
reconcile_delay attempt =
    delay_at (drop (min (attempt - 1) 4) (30 ∷ 60 ∷ 120 ∷ 240 ∷ 300 ∷ [])) * 1000

-- The text that `reconcile` returns
pub data Reconciled : Type 0 where
  payment_not_found retry_scheduled exhausted : Reconciled
  already : PaymentStatus → Reconciled
  settled : SettlementOutcome → Reconciled
  not_settled : Option String → Reconciled

abbrev pub is_pending_outcome : SettlementOutcome → Bool
is_pending_outcome SettlementOutcome.pending = true
is_pending_outcome _ = false

-- `if (attempt < MAX_ATTEMPTS) …`, which is written twice
unfoldable pub retry : ℕ → ℕ → Exec Reconciled
retry payment_id attempt =
    if ltb attempt max_attempts
    then call (schedule_reconcile payment_id (suc attempt)) >> pure retry_scheduled
    else pure exhausted

unfoldable pub reconciled : SettlementOutcome → SettlementOutcomeReport → Reconciled
reconciled outcome report = if report.applied then settled outcome else not_settled report.reason

abbrev pub by_query : ApplySettlementOptions
by_query = record { webhook_event_id = none; source = SettlementSource.query }

unfoldable pub settle_queried : Outside → SettlementResult → ℕ → Exec Reconciled
settle_queried outside r now = do
  report ← apply_settlement outside r by_query now
  pure (reconciled r.outcome report)

-- what follows the query, which `none` says has thrown
unfoldable pub after_query : Outside → Payment → ℕ → ℕ → Option SettlementResult → Exec Reconciled
unfolding retry settle_queried
after_query outside p attempt now none = retry p.id attempt
after_query outside p attempt now (some r) =
    if is_pending_outcome r.outcome then retry p.id attempt else settle_queried outside r now

unfoldable pub reconcile_found : Outside → Option Payment → ℕ → ℕ → Exec Reconciled
unfolding after_query
reconcile_found outside none attempt now = pure payment_not_found
reconcile_found outside (some p) attempt now =
    if is_pending p.status
    then after_query outside p attempt now (outside.query_status p.gateway_ref)
    else pure (already p.status)

-- reconcile
unfoldable pub reconcile : Outside → ℕ → ℕ → ℕ → Exec Reconciled
unfolding reconcile_found
reconcile outside payment_id attempt now = do
  found ← gets (λ db. first (λ (p : Payment). p.id == payment_id) db.payments)
  reconcile_found outside found attempt now
