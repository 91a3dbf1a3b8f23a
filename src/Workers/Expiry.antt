-- ===== src/Workers/Expiry.antt =====
-- src/queue/workers/order-expiry.worker.ts: the job of one order, and the sweep.
use ticketing_app.Prelude.{
  ℕ, Bool, Option, none, some, List, [], ◌∷◌, select, take, length, ltb, ◌&&◌, if◌then◌else◌,
}
use ticketing_app.Schema.{Order}
use ticketing_app.Store.Exec.{
  Exec, pure, gets, with_transaction, call_quietly, quietly, invalidate_event, ◌>>=◌, ◌>>◌,
}
use ticketing_app.Inventory.Seats.{is_holding_status, is_null}
use ticketing_app.Inventory.Release.{TerminalStatus, order_by_id, release_order}

-- `await releaseOrder(order.id, 'expired'); if (result.released) await invalidateEvent(…)`
unfoldable pub expire : Order → ℕ → Exec Unit
expire order now = do
  result ← with_transaction (release_order order.id TerminalStatus.expired now)
  if result.released then call_quietly (invalidate_event order.event_id) else pure tt

abbrev pub expire_found : Option Order → ℕ → Exec Unit
expire_found none now = pure tt
expire_found (some order) now = expire order now

-- expireOne
unfoldable pub expire_one : ℕ → ℕ → Exec Unit
unfolding expire
expire_one order_id now = do found ← gets (order_by_id order_id); expire_found found now

-- The WHERE of the sweep
unfoldable pub is_stale : ℕ → Order → Bool
is_stale now o = is_holding_status o.status && ltb o.reserved_until now && is_null o.released_at

-- the loop, where a throw is logged
unfoldable pub sweep_each : List Order → ℕ → Exec Unit
sweep_each [] now = pure tt
sweep_each (o ∷ os) now = quietly (expire o now) >> sweep_each os now

-- sweep; `now` is the clock, and the rows come in the order of the table
unfoldable pub sweep : ℕ → ℕ → Exec ℕ
unfolding sweep_each
sweep limit now = do
  stale ← gets (λ db. take limit (select (is_stale now) db.orders))
  sweep_each stale now
  pure (length stale)
