-- ===== src/Workers/Issuance.antt =====
-- src/queue/workers/ticket-issuance.worker.ts.
use ticketing_app.Prelude.{ℕ, String, Option, none, some, length, str_eq, ◌||◌, if◌then◌else◌}
use ticketing_app.Store.{Failure, app}
use ticketing_app.Store.Exec.{
  Exec, pure, throw, try_catch, call, notify_tickets_issued, ◌>>=◌, ◌>>◌,
}
use ticketing_app.Codes.Qr.{Hmac}
use ticketing_app.Tickets.Issue.{Fresh, issue_tickets_for_order}

-- What the job returns
pub record Issuance : Type 0 where
  pub count : ℕ
  pub skipped : Option String

-- The errors that say of the order that it gets no tickets
unfoldable pub is_permanent : Failure → Option String
is_permanent (app e) =
    if str_eq e.code "refund_required" || str_eq e.code "order_not_paid" then some e.code else none
is_permanent _ = none

unfoldable pub skip_or_throw : Option String → Failure → Exec Issuance
skip_or_throw none e = throw e
skip_or_throw (some code) e = pure (record { count = 0; skipped = some code })

-- the handler of `createTicketIssuanceWorker`
unfoldable pub run_issuance : Hmac → (ℕ → ℕ → Fresh) → ℕ → Exec Issuance
unfolding skip_or_throw
run_issuance hmac fresh order_id =
    try_catch
      (do
        issued ← issue_tickets_for_order hmac fresh order_id
        call (notify_tickets_issued order_id)
        pure (record { count = length issued; skipped = none }))
      (λ e. skip_or_throw (is_permanent e) e)
