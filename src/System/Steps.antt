-- ===== src/System/Steps.antt =====
-- The transactions that requests and workers commit, in whatever order they interleave.
use ticketing_app.Prelude.{
  ℕ, ◌≡◌, Bool, true, false, some, List, [], ◌∷◌, map, first, select, not, ◌==◌, if◌then◌else◌,
}
use ticketing_app.Schema.{Db, Order, Payment}
use ticketing_app.Store.{ok}
use ticketing_app.Inventory.Release.{TerminalStatus, ReleaseResult, release_order}
use ticketing_app.Inventory.Commit.{CommitResult, commit_order}
use ticketing_app.Checkout.Basket.{CheckoutItem}
use ticketing_app.Checkout.Hold.{HoldInput, hold_order}
use ticketing_app.Checkout.Payment.{ChargeResult, initiate_payment}

abbrev pub has_id : ℕ → List ℕ → Bool
has_id id [] = false
has_id id (x ∷ xs) = if x == id then true else has_id id xs

-- the orders that payments are for
abbrev pub paid_for : List Payment → List ℕ
paid_for ps = map (λ (p : Payment). p.order_id) ps

abbrev pub order_ids : List Order → List ℕ
order_ids os = map (λ (o : Order). o.id) os

-- Some payment is for this order.
abbrev pub has_payment : ℕ → List Payment → Bool
has_payment id ps = has_id id (paid_for ps)

abbrev pub has_order : ℕ → List Order → Bool
has_order id os = has_id id (order_ids os)

-- The database, and the orders whose `createCheckout` has held the seats and has not entered the
-- payment yet.
pub record State : Type 0 where
  pub db : Db
  pub starting : List ℕ

abbrev pub ended : ℕ → List ℕ → List ℕ
ended id starting = select (λ n. not (n == id)) starting

-- A committed transaction. `createCheckout` holds the seats of a new order, and once the charge is
-- accepted enters its payment, or gives up; it, `cancelOrder`, the expiry worker and a failed
-- settlement release an order, at any time; a settlement commits the order of a payment. `touched`
-- is a transaction that writes none of the tables of tiers, orders and items, and neither takes nor
-- gives an order a payment: claims, settled payments, tickets, deliveries and the ledger.
pub data Step (s : State) (s' : State) : Type 0 where
  hold :
      (input : HoldInput) (now : ℕ) (items : List CheckoutItem) (o : Order)
      → hold_order input now items s.db ≡ ok (o, s'.db)
      → s'.starting ≡ input.order_id ∷ s.starting
      → Step s s'
  initiate :
      (payment_id : ℕ) (o : Order) (phone : List ℕ) (charge : ChargeResult) (p : Payment)
      → has_id o.id s.starting ≡ true
      → initiate_payment payment_id o phone charge s.db ≡ ok (p, s'.db)
      → s'.starting ≡ ended o.id s.starting
      → Step s s'
  give_up : (id : ℕ) → s'.db ≡ s.db → s'.starting ≡ ended id s.starting → Step s s'
  release :
      (id : ℕ) (terminal : TerminalStatus) (now : ℕ) (r : ReleaseResult)
      → release_order id terminal now s.db ≡ ok (r, s'.db)
      → s'.starting ≡ s.starting
      → Step s s'
  commit :
      (payment_id now : ℕ) (p : Payment) (r : CommitResult)
      → first (λ (q : Payment). q.id == payment_id) s.db.payments ≡ some p
      → commit_order p.order_id now s.db ≡ ok (r, s'.db)
      → s'.starting ≡ s.starting
      → Step s s'
  touched :
      s'.db.tiers ≡ s.db.tiers
      → s'.db.orders ≡ s.db.orders
      → s'.db.items ≡ s.db.items
      → paid_for s'.db.payments ≡ paid_for s.db.payments
      → s'.starting ≡ s.starting
      → Step s s'

-- What is reached from a state by any number of steps.
pub data Reach (s : State) : State → Type 0 where
  here : Reach s s
  next : {t t' : State} → Reach s t → Step t t' → Reach s t'
