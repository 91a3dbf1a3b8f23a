-- ===== src/Checkout/Created.antt =====
-- The rows that `create_order` inserts, and the seats that they add to the counts.
use mathlib.Core.List.{append-nil}
use ticketing_app.Prelude.{
  ℕ, suc, ◌+◌, ◌≡◌, ◌≢◌, refl, sym, ◌∙◌, ap, Bool, true, false, List, [], ◌∷◌, ◌++◌, map, select,
  if◌then◌else◌, ◌==◌, arith, All, All-mono, inl, inr, Option-cases, insert, ==_refl,
}
use ticketing_app.Schema.{Db, Order, OrderItem}
use ticketing_app.Store.{ok}
use ticketing_app.Store.Tx.{pure, >>=-eq-ok}
use ticketing_app.Ledger.Record.{
  record_transition, record_each, record_transition-row, record_each-rows,
}
use ticketing_app.Inventory.Seats.{is_holding_inventory}
use ticketing_app.Inventory.Locking.{sum_for}
use ticketing_app.Inventory.Counters.Sums.{
  item_tier, item_quantity, seats_in, order_seats, order_seats-append,
}
use ticketing_app.Inventory.Counters.Invariant.{is_admitting, is_accounted}
use ticketing_app.Checkout.Basket.{CheckoutItem}
use ticketing_app.Checkout.Hold.{
  HoldInput, ReservedTier, Line, to_request, reserved_tier, line_of, lines_of, new_order,
  none_clash, insert_order, item_rows, insert_items, order_created, inventory_reserved,
  create_order,
}
use ticketing_app.Checkout.Reserving.{requested}

abbrev pub line_tier : Line → ℕ
line_tier l = l.tier_id

abbrev pub line_quantity : Line → ℕ
line_quantity l = l.quantity

abbrev basket_tier : CheckoutItem → ℕ
basket_tier i = i.tier_id

abbrev basket_quantity : CheckoutItem → ℕ
basket_quantity i = i.quantity

-- The seats of one tier in a basket.
abbrev pub basket_seats : ℕ → List CheckoutItem → ℕ
basket_seats = sum_for basket_tier basket_quantity

pub requested_basket :
    (tier : ℕ) (items : List CheckoutItem)
    → requested tier (map to_request items) ≡ basket_seats tier items
unfolding sum_for
requested_basket tier [] = refl
requested_basket tier (i ∷ is) = omega (arith, requested_basket tier is)

-- The lines are those of the basket, and nothing is written.
pub lines_of_lem :
    (reserved : List ReservedTier) (items : List CheckoutItem) (db : Db) {db' : Db}
    {lines : List Line}
    → lines_of reserved items db ≡ ok (lines, db')
    → (db' ≡ db)
      × ((tier : ℕ) → sum_for line_tier line_quantity tier lines ≡ basket_seats tier items)
unfolding lines_of sum_for
lines_of_lem reserved [] db {db'} {lines} h =
    let none_left : lines ≡ [] = cc in
    (cc, λ tier. ap (sum_for line_tier line_quantity tier) none_left)
lines_of_lem reserved (i ∷ is) db {db'} {lines} h =
    elim (Option-cases (reserved_tier i.tier_id reserved)) [
      | inl absent ↦ absurd (cc (rw (lines_of, absent) at h))
      | inr (t, found) ↦
          let later =
            >>=-eq-ok (lines_of reserved is) (λ rest. pure (line_of i t ∷ rest)) db
              (rw (lines_of, found) at h) in
          let rest = lines_of_lem reserved is db later.1 in
          let written : line_of i t ∷ later.0.0 ≡ lines = cc (later.2) in
          let last : later.0.1 ≡ db' = cc (later.2) in
          (
            sym last ∙ rest.0,
            λ tier.
                sym (ap (sum_for line_tier line_quantity tier) written)
                ∙ ap (λ n. (if tier == i.tier_id then i.quantity else 0) + n) (rest.1 tier),
          )
    ]

-- The rows of an order's items have the seats of its lines.
item_rows_seats :
    (input : HoldInput) (k : ℕ) (lines : List Line) (tier : ℕ)
    → seats_in (item_rows input k lines) input.order_id tier
      ≡ sum_for line_tier line_quantity tier lines
unfolding item_rows sum_for
item_rows_seats input k [] tier = refl
item_rows_seats input k (l ∷ ls) tier =
    rw (==_refl input.order_id) (omega (arith, item_rows_seats input (suc k) ls tier))

select_other_rows :
    (input : HoldInput) (k : ℕ) (lines : List Line) (n : ℕ)
    → input.order_id ≢ n
    → select (λ (i : OrderItem). i.order_id == n) (item_rows input k lines) ≡ []
unfolding item_rows
select_other_rows input k [] n ne = refl
select_other_rows input k (l ∷ ls) n ne =
    ground (arith, ne, select_other_rows input (suc k) ls n ne)

select-append :
    {A : Type 0} (p : A → Bool) (xs ys : List A) → select p (xs ++ ys) ≡ select p xs ++ select p ys
select-append p [] ys = refl
select-append p (x ∷ xs) ys = ground (arith, select-append p xs ys)

select_none :
    {A : Type 0} (p : A → Bool) (xs : List A) → All (λ x. p x ≡ false) xs → select p xs ≡ []
select_none p [] h = refl
select_none p (x ∷ xs) h = rw h.0 (select_none p xs h.1)

result_db : {A : Type 0} {p q : A × Db} → ok p ≡ ok q → p.1 ≡ q.1
result_db h = cc

inserted :
    (o : Order) (db : Db) {db' : Db} {u : Unit}
    → insert_order o db ≡ ok (u, db')
    → (db' ≡ record db { orders = insert o db.orders }) × (none_clash o db.orders ≡ true)
unfolding insert_order
inserted o db h = ground (arith, h)

inserted_items :
    (rows : List OrderItem) (db : Db) {db' : Db} {u : Unit}
    → insert_items rows db ≡ ok (u, db')
    → db' ≡ record db { items = db.items ++ rows }
unfolding insert_items
inserted_items rows db h = ground (arith, h)

module _ (input : HoldInput) (now : ℕ) (lines : List Line) where
  pub create_order_lem :
      (db : Db) {db' : Db} {o : Order}
      → create_order input now lines db ≡ ok (o, db')
      → (db'.tiers ≡ db.tiers)
        × (db'.orders ≡ insert (new_order input now lines) db.orders)
        × (db'.items ≡ db.items ++ item_rows input 0 lines)
        × (none_clash (new_order input now lines) db.orders ≡ true)
        × (o ≡ new_order input now lines)
        × (db'.payments ≡ db.payments)
  unfolding create_order
  create_order_lem db {db'} {o} h =
      let order = new_order input now lines in
      let rows = item_rows input 0 lines in
      let s1 = >>=-eq-ok (insert_order order) _ db h in
      let s2 = >>=-eq-ok (insert_items rows) _ s1.0.1 s1.2 in
      let s3 = >>=-eq-ok (record_transition (order_created order lines)) _ s2.0.1 s2.2 in
      let s4 = >>=-eq-ok (record_each (inventory_reserved order) lines) _ s3.0.1 s3.2 in
      let i1 = inserted order db s1.1 in
      let i2 = inserted_items rows s1.0.1 s2.1 in
      let l3 =
        record_transition-row (order_created order lines) order.id s2.0.1
          (unfold order_created in refl) in
      let l4 =
        record_each-rows (inventory_reserved order) line_tier
          (λ l. (unfold inventory_reserved in refl)) lines s3.0.1 in
      let e3 = result_db (sym s3.1 ∙ l3) in
      let e4 = result_db (sym s4.1 ∙ l4) in
      let e5 : s4.0.1 ≡ db' = cc (s4.2) in
      (
        ap (λ (d : Db). d.tiers) (sym e5 ∙ e4)
            ∙ ap (λ (d : Db). d.tiers) e3
            ∙ ap (λ (d : Db). d.tiers) i2
            ∙ ap (λ (d : Db). d.tiers) i1.0,
        ap (λ (d : Db). d.orders) (sym e5 ∙ e4)
            ∙ ap (λ (d : Db). d.orders) e3
            ∙ ap (λ (d : Db). d.orders) i2
            ∙ ap (λ (d : Db). d.orders) i1.0,
        ap (λ (d : Db). d.items) (sym e5 ∙ e4)
            ∙ ap (λ (d : Db). d.items) e3
            ∙ ap (λ (d : Db). d.items) i2
            ∙ ap (λ (d : Db). d.items ++ rows) i1.0,
        i1.1,
        cc (s4.2),
        ap (λ (d : Db). d.payments) (sym e5 ∙ e4)
            ∙ ap (λ (d : Db). d.payments) e3
            ∙ ap (λ (d : Db). d.payments) i2
            ∙ ap (λ (d : Db). d.payments) i1.0,
      )

  -- The order that is made holds its seats and admits nobody.
  pub new_order-holding : is_holding_inventory (new_order input now lines) ≡ true
  unfolding is_holding_inventory new_order
  new_order-holding = refl

  pub new_order-not-admitting : is_admitting (new_order input now lines) ≡ false
  unfolding is_admitting new_order
  new_order-not-admitting = refl

  pub new_order-accounted : is_accounted (new_order input now lines) ≡ true
  unfolding is_accounted is_holding_inventory new_order
  new_order-accounted = refl

  unfoldable pub order_rows : List OrderItem
  order_rows = item_rows input 0 lines

  module _ (items : List OrderItem)
      (fresh : All (λ (i : OrderItem). i.order_id ≢ input.order_id) items) (tier : ℕ) where
    pub seats_in-new :
        seats_in (items ++ order_rows) input.order_id tier
        ≡ sum_for line_tier line_quantity tier lines
    unfolding order_rows
    seats_in-new =
        ap (sum_for item_tier item_quantity tier) (
          select-append (λ (i : OrderItem). i.order_id == input.order_id) items
            (item_rows input 0 lines)
          ∙ ap
              (λ (r : List OrderItem).
                r
                ++ select (λ (i : OrderItem). i.order_id == input.order_id)
                    (item_rows input 0 lines))
              (select_none _ items (
                All-mono items
                  (λ (i : OrderItem) (ne : i.order_id ≢ input.order_id). ground (arith, ne))
                  fresh)))
        ∙ item_rows_seats input 0 lines tier

    seats_in-old :
        (n : ℕ) → input.order_id ≢ n → seats_in (items ++ order_rows) n tier ≡ seats_in items n tier
    unfolding order_rows
    seats_in-old n ne = ap (sum_for item_tier item_quantity tier) (
        select-append (λ (i : OrderItem). i.order_id == n) items (item_rows input 0 lines)
        ∙ ap (λ (r : List OrderItem). select (λ (i : OrderItem). i.order_id == n) items ++ r)
            (select_other_rows input 0 lines n ne)
        ∙ append-nil (select (λ (i : OrderItem). i.order_id == n) items))

    order_seats-old :
        (counts : Order → Bool) (os : List Order)
        → All (λ (o : Order). o.id ≢ input.order_id) os
        → order_seats counts (items ++ order_rows) tier os ≡ order_seats counts items tier os
    unfolding order_seats
    order_seats-old counts [] h = refl
    order_seats-old counts (o ∷ os) h =
        let same = seats_in-old o.id (λ e. h.0 (sym e)) in
        rw same (omega (arith, order_seats-old counts os h.1))

    order_seats-new :
        (counts : Order → Bool)
        → order_seats counts (items ++ order_rows) tier (new_order input now lines ∷ []) ≡ (
            if counts (new_order input now lines)
            then sum_for line_tier line_quantity tier lines
            else 0)
    unfolding order_seats
    order_seats-new counts =
        let o = new_order input now lines in
        let same : seats_in (items ++ order_rows) o.id tier
            ≡ sum_for line_tier line_quantity tier lines =
          (unfold new_order in seats_in-new) in
        rw same (omega arith)

    -- The seats that an order adds to a count.
    pub order_seats-insert :
        (counts : Order → Bool) (os : List Order)
        → All (λ (o : Order). o.id ≢ input.order_id) os
        → order_seats counts (items ++ order_rows) tier (insert (new_order input now lines) os)
          ≡ order_seats counts items tier os
            + (if counts (new_order input now lines)
                then sum_for line_tier line_quantity tier lines
                else 0)
    order_seats-insert counts os h = omega (
      arith,
      order_seats-append counts (items ++ order_rows) tier os (new_order input now lines ∷ []),
      order_seats-old counts os h,
      order_seats-new counts,
    )
