-- ===== src/Purge/Delete.antt =====
-- The transaction of `purgeAbandonedOrders`.
use ticketing_app.Prelude.{ℕ, List, select, not, all}
use ticketing_app.Schema.{Ticket}
use ticketing_app.Store.{foreign_key_violation}
use ticketing_app.Store.Tx.{Tx, throw_if, gets, modify, ◌>>=◌, ◌>>◌}
use ticketing_app.Checkout.Basket.{seen}

-- DELETE FROM order_items: refused while a ticket is for one of the orders
unfoldable pub delete_items : List ℕ → Tx Unit
delete_items ids = do
  tickets ← gets (λ db. db.tickets)
  throw_if (not (all (λ (t : Ticket). not (seen t.order_id ids)) tickets)) foreign_key_violation
  modify (λ db. record db { items = select (λ i. not (seen i.order_id ids)) db.items })

-- DELETE FROM orders, which takes the orders' payments along
unfoldable pub delete_orders : List ℕ → Tx Unit
delete_orders ids = modify (λ db. record db {
  orders = select (λ o. not (seen o.id ids)) db.orders;
  payments = select (λ p. not (seen p.order_id ids)) db.payments;
})

-- the transaction
unfoldable pub delete_abandoned : List ℕ → Tx Unit
unfolding delete_items delete_orders
delete_abandoned ids = delete_items ids >> delete_orders ids
