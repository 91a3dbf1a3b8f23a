-- ===== src/Purge/Abandoned.antt =====
-- `purgeAbandonedOrders`.
use ticketing_app.Prelude.{
  ℕ, ◌-◌, ◌*◌, String, Bool, true, false, some, none, List, [], ◌∷◌, map, select, take, length, ltb,
  ◌==◌, ◌&&◌, not, all,
}
use ticketing_app.Schema.{
  Db, Order, OrderStatus, Payment, Ticket, LedgerEntity, EntityId, Transition, Json, Object,
  order_status_text,
}
use ticketing_app.Store.Exec.{Exec, pure, gets, with_transaction, ◌>>=◌, ◌>>◌}
use ticketing_app.Ledger.Record.{record_standalone_transition}
use ticketing_app.Purge.Delete.{delete_abandoned}

-- PURGEABLE
abbrev pub is_purgeable : OrderStatus → Bool
is_purgeable OrderStatus.expired = true
is_purgeable OrderStatus.failed = true
is_purgeable OrderStatus.cancelled = true
is_purgeable _ = false

abbrev pub no_payment : ℕ → List Payment → Bool
no_payment id ps = all (λ p. not (p.order_id == id)) ps

abbrev pub no_ticket : ℕ → List Ticket → Bool
no_ticket id ts = all (λ t. not (t.order_id == id)) ts

-- The WHERE of the candidates
unfoldable pub is_abandoned : ℕ → Db → Order → Bool
is_abandoned cutoff db o =
    is_purgeable o.status
    && ltb o.created_at cutoff
    && no_payment o.id db.payments
    && no_ticket o.id db.tickets

-- `Date.now() - afterDays * 86_400_000`; nothing was created before 1970
abbrev pub cutoff_at : ℕ → ℕ → ℕ
cutoff_at after_days now = now - after_days * 86400000

unfoldable pub candidates : ℕ → Db → List Order
unfolding is_abandoned
candidates cutoff db = take 500 (select (is_abandoned cutoff db) db.orders)

abbrev pub ids_of : List Order → List ℕ
ids_of = map (λ (o : Order). o.id)

unfoldable pub order_purged : (ℕ → String) → ℕ → Order → Transition
order_purged iso after_days order = record {
  entity = LedgerEntity.order;
  entity_id = EntityId.row order.id;
  event = "order.purged";
  from_state = some (order_status_text order.status);
  to_state = "purged";
  actor = "system:maintenance";
  order_id = some order.id;
  event_id = some order.event_id;
  amount_cents = none;
  detail = Object.field "reference" (Json.text order.reference) (
      Object.field "createdAt" (Json.text (iso order.created_at)) (
        Object.field "afterDays" (Json.num after_days) (
          Object.field "hadPayment" (Json.bool false)
            (Object.field "hadTickets" (Json.bool false) Object.end))));
}

-- the loop after the transaction
unfoldable pub record_purged : (ℕ → String) → ℕ → List Order → Exec Unit
unfolding order_purged
record_purged iso after_days [] = pure tt
record_purged iso after_days (o ∷ os) =
    record_standalone_transition (order_purged iso after_days o) >> record_purged iso after_days os

-- PurgeResult
pub record PurgeResult : Type 0 where
  pub purged : ℕ
  pub references : List String

abbrev pub purge_result : List Order → PurgeResult
purge_result os = record { purged = length os; references = map (λ (o : Order). o.reference) os }

unfoldable pub purge : (ℕ → String) → ℕ → List Order → Exec PurgeResult
unfolding delete_abandoned record_purged
purge iso after_days [] = pure (purge_result [])
purge iso after_days (o ∷ os) = do
  with_transaction (delete_abandoned (ids_of (o ∷ os)))
  record_purged iso after_days (o ∷ os)
  pure (purge_result (o ∷ os))

-- purgeAbandonedOrders; `now` is the clock and `iso` prints an instant
unfoldable pub purge_abandoned_orders : (ℕ → String) → ℕ → ℕ → Exec PurgeResult
unfolding purge candidates
purge_abandoned_orders iso after_days now = do
  abandoned ← gets (candidates (cutoff_at after_days now))
  purge iso after_days abandoned
