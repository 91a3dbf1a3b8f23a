-- ===== src/Payments/Webhook.antt =====
-- `recordWebhookDelivery` and `markWebhook`: each delivery is stored once, and marked when handled.
use ticketing_app.Prelude.{
  ℕ, ◌+◌, String, Bool, true, false, Option, none, some, first, update_where, insert, str_eq, ◌==◌,
  ◌&&◌,
}
use ticketing_app.Schema.{WebhookEvent, WebhookStatus}
use ticketing_app.Store.{ok}
use ticketing_app.Store.Tx.{Tx}
use ticketing_app.Store.Exec.{Exec, pure, with_transaction}

-- `{ isNew, id }`
pub record WebhookDelivery : Type 0 where
  pub is_new : Bool
  pub id : Option ℕ

abbrev pub delivered : String → String → WebhookEvent → Bool
delivered gateway dedupe_key e = str_eq e.gateway gateway && str_eq e.dedupe_key dedupe_key

-- INSERT … ON CONFLICT (gateway, dedupe_key) DO NOTHING RETURNING id; `fresh` is the generated id
unfoldable pub record_webhook_delivery : String → String → ℕ → Tx WebhookDelivery
record_webhook_delivery gateway dedupe_key fresh db =
    elim (first (delivered gateway dedupe_key) db.webhooks) [
      | some _ ↦ ok (record { is_new = false; id = none }, db)
      | none ↦ ok (
        record { is_new = true; id = some fresh },
        record db {
          webhooks =
              insert
                (record {
                  id = fresh;
                  gateway = gateway;
                  dedupe_key = dedupe_key;
                  status = WebhookStatus.received;
                  error = none;
                  attempts = 0;
                  processed_at = none;
                })
                db.webhooks;
        },
      )
    ]

mark_row : WebhookStatus → Option String → ℕ → WebhookEvent → WebhookEvent
mark_row status error now e = record e {
  status = status;
  error = error;
  processed_at = some now;
  attempts = e.attempts + 1;
}

-- markWebhook
unfoldable pub mark_webhook : Option ℕ → WebhookStatus → Option String → ℕ → Exec Unit
unfolding mark_row
mark_webhook none status error now = pure tt
mark_webhook (some id) status error now = with_transaction λ db. ok (
  tt,
  record db { webhooks = update_where (λ e. e.id == id) (mark_row status error now) db.webhooks },
)
