-- ===== src/Checkout/Keeping.antt =====
-- The checkout and the cancellation keep the counters consistent, also when the charge fails or
-- something throws.
use mathlib.Core.Path.{subst}
use ticketing_app.Prelude.{
  ℕ, ◌+◌, ◌≡◌, refl, sym, ◌∙◌, ap, Bool, true, false, List, [], ◌∷◌, ◌==◌, update_where, arith, All,
  All-mono, All-zip, All-update_where, insert, inl, inr, Bool-cases, ==_iff, if◌then◌else◌,
}
use ticketing_app.Schema.{Db, Event, Order, OrderItem, Payment, is_paid}
use ticketing_app.Store.{Failure}
use ticketing_app.Store.Tx.{Tx}
use ticketing_app.Store.Exec.{call, schedule_order_expiry}
use ticketing_app.Store.Keeps.{
  TxKeeps, Keeps, keeps_rules, tx_rules, TxKeeps-modify, Keeps-bind, Keeps-call,
}
use ticketing_app.Inventory.Seats.{is_holding_inventory}
use ticketing_app.Inventory.Release.{
  TerminalStatus, ReleaseResult, to_status, mark_released, release_order,
}
use ticketing_app.Inventory.Counters.Sums.{seats_in, order_seats, update_where-OrderIdsUnique}
use ticketing_app.Inventory.Counters.Invariant.{
  IsConsistent, is_admitting, is_accounted, ReservedIsHeld, SoldCoversAdmitted,
}
use ticketing_app.Inventory.Counters.Releasing.{
  release_order-IsConsistent, release_order-Released, Released, idle, returned, after_release,
}
use ticketing_app.Inventory.Counters.Framing.{
  Frames, TxKeeps-Frames, Frames-record_transition, same_counters,
}
use ticketing_app.Checkout.Payment.{
  ChargeResult, await_row, await_payment, insert_payment, initiate_payment,
}
use ticketing_app.Checkout.Create.{
  CheckoutOutside, record_charge, ask_gateway, start_payment, give_back, after_hold, held,
}

-- No order with this id is paid.
abbrev pub IsUnpaid : ℕ → Order → Type 0
IsUnpaid id o = o.id ≡ id → is_paid o.status ≡ false

pub record IsOpen (id : ℕ) (db : Db) : Type 0 where
  pub consistent : IsConsistent db
  pub unpaid : All (IsUnpaid id) db.orders

-- A change of orders that keeps what each counts for.
order_seats-unchanged :
    (counts : Order → Bool) (items : List OrderItem) (tier id : ℕ) (f : Order → Order)
    (os : List Order)
    → ((o : Order) → (f o).id ≡ o.id)
    → All (λ (o : Order). o.id ≡ id → counts (f o) ≡ counts o) os
    → order_seats counts items tier (update_where (λ o. o.id == id) f os)
      ≡ order_seats counts items tier os
unfolding order_seats
order_seats-unchanged counts items tier id f [] keeps h = refl
order_seats-unchanged counts items tier id f (o ∷ os) keeps h = elim (Bool-cases (o.id == id)) [
  | inl here ↦
      let at_id : o.id ≡ id = (==_iff o.id id).0 here in
      rw (here, h.0 at_id, keeps o)
        (ap (λ n. (if counts o then seats_in items o.id tier else 0) + n)
          (order_seats-unchanged counts items tier id f os keeps h.1))
  | inr away ↦ rw away (
      ap (λ n. (if counts o then seats_in items o.id tier else 0) + n)
        (order_seats-unchanged counts items tier id f os keeps h.1))
]

await_row-holding :
    (o : Order)
    → is_paid o.status ≡ false
    → is_accounted o ≡ true
    → is_holding_inventory (await_row o) ≡ is_holding_inventory o
unfolding is_accounted is_holding_inventory
await_row-holding o u h = ground (arith, u, h)

await_row-admitting :
    (o : Order) → is_paid o.status ≡ false → is_admitting (await_row o) ≡ is_admitting o
unfolding is_admitting
await_row-admitting o u = ground (arith, u)

await_row-accounted :
    (o : Order)
    → is_paid o.status ≡ false
    → is_accounted o ≡ true
    → is_accounted (await_row o) ≡ true
unfolding is_accounted is_holding_inventory
await_row-accounted o u h = ground (arith, u, h)

to_status-unpaid : (terminal : TerminalStatus) → is_paid (to_status terminal) ≡ false
to_status-unpaid terminal = ground arith

module _ (id : ℕ) where
  abbrev awaited : Db → Db
  awaited db = record db { orders = update_where (λ o. o.id == id) await_row db.orders }

  rows_hold :
      (db : Db)
      → IsOpen id db
      → All
          (λ (o : Order). o.id ≡ id → is_holding_inventory (await_row o) ≡ is_holding_inventory o)
          db.orders
  rows_hold db h =
      All-zip db.orders
        (λ o (u : IsUnpaid id o) (a : is_accounted o ≡ true) (e : o.id ≡ id).
          await_row-holding o (u e) a)
        h.unpaid h.consistent.accounted

  awaited-IsConsistent : (db : Db) → IsOpen id db → IsConsistent (awaited db)
  awaited-IsConsistent db h =
      let c = h.consistent in
      let held = λ (tier : ℕ).
        order_seats-unchanged is_holding_inventory db.items tier id await_row db.orders (λ o. refl)
          (rows_hold db h) in
      let admitted = λ (tier : ℕ).
        order_seats-unchanged is_admitting db.items tier id await_row db.orders (λ o. refl)
          (All-mono db.orders (λ o (u : IsUnpaid id o) (e : o.id ≡ id). await_row-admitting o (u e))
            h.unpaid) in
      record {
        order_ids = update_where-OrderIdsUnique id await_row (λ o. refl) db.orders c.order_ids;
        tier_ids = c.tier_ids;
        storable = c.storable;
        reserved =
            All-mono db.tiers (λ t (k : ReservedIsHeld db t). k ∙ sym (held t.id)) c.reserved;
        sold =
            All-mono db.tiers (λ t (k : SoldCoversAdmitted db t). omega (arith, admitted t.id))
              c.sold;
        accounted =
            All-mono (update_where (λ (o : Order). o.id == id) await_row db.orders)
              (λ (o : Order) (k : IsUnpaid id o × (is_accounted o ≡ true)). k.1)
              (All-update_where (λ (o : Order). IsUnpaid id o × (is_accounted o ≡ true))
                (λ (o : Order). o.id == id) await_row db.orders
                (λ o (e : (o.id == id) ≡ true) (k : IsUnpaid id o × (is_accounted o ≡ true)).
                  ((λ _. refl), await_row-accounted o (k.0 ((==_iff o.id id).0 e)) k.1))
                (All-zip db.orders (λ o (u : IsUnpaid id o) (a : is_accounted o ≡ true). (u, a))
                  h.unpaid c.accounted));
      }

  awaited-IsOpen : (db : Db) → IsOpen id db → IsOpen id (awaited db)
  awaited-IsOpen db h = record {
    consistent = awaited-IsConsistent db h;
    unpaid = All-update_where _ _ await_row db.orders (λ o _ _ _. refl) h.unpaid;
  }

  TxKeeps-await_payment : TxKeeps (IsOpen id) (await_payment id)
  unfolding await_payment
  TxKeeps-await_payment = TxKeeps-modify awaited awaited-IsOpen

  insert_payment-IsOpen :
      (p : Payment)
      → (db : Db) → IsOpen id db
      → IsOpen id (record db { payments = insert p db.payments })
  insert_payment-IsOpen p db h = record {
    consistent = same_counters refl refl refl h.consistent;
    unpaid = h.unpaid;
  }

  TxKeeps-insert_payment : (p : Payment) → TxKeeps (IsOpen id) (insert_payment p)
  unfolding insert_payment
  TxKeeps-insert_payment p = record {
    at = λ db r db' h e.
        let after : db' ≡ record db { payments = insert p db.payments } = ground (arith, e) in
        subst (IsOpen id) (sym after) (insert_payment-IsOpen p db h);
  }

  TxKeeps-Frames-IsOpen : {A : Type 0} (t : Tx A) → Frames t → TxKeeps (IsOpen id) t
  TxKeeps-Frames-IsOpen t f = record {
    at = λ db r db' h e. record {
      consistent = (TxKeeps-Frames t f).at db r db' h.consistent e;
      unpaid = subst (All (IsUnpaid id)) (sym (f.orders_stay db r db' e)) h.unpaid;
    };
  }

  Released-IsUnpaid :
      {n : ℕ} {terminal : TerminalStatus} {now : ℕ} {db db' : Db} {r : ReleaseResult}
      → Released n terminal now db r db'
      → All (IsUnpaid id) db.orders
      → All (IsUnpaid id) db'.orders
  unfolding after_release mark_released
  Released-IsUnpaid (idle o _ _ _ e) u = rw e u
  Released-IsUnpaid {terminal} {db} (returned o _ _ _ e _) u = rw e (
      All-update_where (IsUnpaid id) (λ (p : Order). p.id == o.id) _ db.orders
        (λ p _ _ _. to_status-unpaid terminal) u)

  TxKeeps-release-IsOpen :
      (n : ℕ) (terminal : TerminalStatus) (now : ℕ)
      → TxKeeps (IsOpen id) (release_order n terminal now)
  TxKeeps-release-IsOpen n terminal now = record {
    at = λ db r db' h e. record {
      consistent = release_order-IsConsistent n terminal now db h.consistent e;
      unpaid = Released-IsUnpaid (release_order-Released n terminal now db e) h.unpaid;
    };
  }

  ruleset open_rules = (
    keeps_rules, tx_rules, TxKeeps-await_payment, TxKeeps-insert_payment, TxKeeps-Frames-IsOpen,
    TxKeeps-release-IsOpen, Frames-record_transition,
  )

  pub TxKeeps-initiate_payment :
      (payment_id : ℕ) (order : Order) (phone : List ℕ) (charge : ChargeResult)
      → order.id ≡ id
      → TxKeeps (IsOpen id) (initiate_payment payment_id order phone charge)
  unfolding initiate_payment
  TxKeeps-initiate_payment payment_id order phone charge e = rw e (search (open_rules) depth 10)

  Keeps-record_charge :
      (outside : CheckoutOutside) (order : Order) (phone : List ℕ) (charge : ChargeResult)
      → order.id ≡ id
      → Keeps (IsOpen id) (record_charge outside order phone charge)
  unfolding record_charge
  Keeps-record_charge outside order phone charge e =
      search (keeps_rules, TxKeeps-initiate_payment outside.payment_id order phone charge e) depth 8

  Keeps-ask_gateway :
      (outside : CheckoutOutside) (order : Order) (phone : List ℕ)
      → ((db : Db) → IsOpen id db → IsOpen id (outside.meanwhile db))
      → Keeps (IsOpen id) (ask_gateway outside order phone)
  unfolding ask_gateway
  Keeps-ask_gateway outside order phone keep = search keeps_rules depth 8

  Keeps-start_payment :
      (outside : CheckoutOutside) (order : Order) (phone : List ℕ)
      → order.id ≡ id
      → ((db : Db) → IsOpen id db → IsOpen id (outside.meanwhile db))
      → Keeps (IsOpen id) (start_payment outside order phone)
  unfolding start_payment
  Keeps-start_payment outside order phone e keep =
      let asked = Keeps-ask_gateway outside order phone keep in
      let recorded : (charge : ChargeResult)
          → Keeps (IsOpen id) (record_charge outside order phone charge) =
        λ charge. Keeps-record_charge outside order phone charge e in
      Keeps-bind (call (schedule_order_expiry order.id order.reserved_until)) _
        (Keeps-call (schedule_order_expiry order.id order.reserved_until))
        (λ _.
          Keeps-bind (ask_gateway outside order phone) (record_charge outside order phone) asked
            recorded)

  Keeps-give_back :
      (order : Order) (event_id now : ℕ) (e : Failure)
      → Keeps (IsOpen id) (give_back order event_id now e)
  unfolding give_back
  Keeps-give_back order event_id now e = search open_rules depth 10

  pub Keeps-after_hold :
      (outside : CheckoutOutside) (event : Event) (phone : List ℕ) (now : ℕ) (order : Order)
      → order.id ≡ id
      → ((db : Db) → IsOpen id db → IsOpen id (outside.meanwhile db))
      → Keeps (IsOpen id) (after_hold outside event phone now (held order))
  unfolding after_hold
  Keeps-after_hold outside event phone now order e keep =
      search (open_rules, Keeps-start_payment, Keeps-give_back, e, keep) depth 10
