-- ===== src/System/Links.antt =====
-- What the foreign keys say of orders, items and payments, under every transaction; and that no
-- checkout that is still starting has a payment.
use mathlib.Core.Path.{subst}
use ticketing_app.Prelude.{
  ℕ, suc, ◌≡◌, ◌≢◌, refl, sym, ap, ◌∙◌, Bool, true, false, some, List, [], ◌∷◌, map, insert, first,
  update_where, ◌==◌, arith, All, All-append, All-mono, All-zip, ==_iff, Bool-cases, Option-cases,
  inl, inr,
}
use ticketing_app.Schema.{Db, Order, OrderItem, Payment, Transition}
use ticketing_app.Store.{ok}
use ticketing_app.Store.Keeps.{TxKeeps, tx_rules, TxKeeps-modify}
use ticketing_app.Ledger.Record.{record_transition}
use ticketing_app.Inventory.Release.{TerminalStatus, ReleaseResult, mark_released, order_by_id}
use ticketing_app.Inventory.Commit.{CommitResult, mark_paid}
use ticketing_app.Inventory.Counters.Releasing.{Released, idle, returned, after_release}
use ticketing_app.Inventory.Counters.Committing.{Committed, already, sold, after_commit}
use ticketing_app.Checkout.Basket.{CheckoutItem}
use ticketing_app.Checkout.Hold.{HoldInput, Line, item_rows, new_order}
use ticketing_app.Checkout.Consistency.{Held}
use ticketing_app.Checkout.Payment.{
  ChargeResult, await_row, await_payment, insert_payment, initiate_payment, new_payment,
}
use ticketing_app.System.Steps.{has_id, has_payment, has_order, paid_for, order_ids, ended}

-- Lists of ids: the orders, those that payments are for, and those that are starting.
has_id-insert : (id x : ℕ) (xs : List ℕ) → has_id id xs ≡ true → has_id id (insert x xs) ≡ true
has_id-insert id x [] h = absurd (cc)
has_id-insert id x (y ∷ ys) h = ground (arith, has_id-insert id x ys)

has_id-inserted : (x : ℕ) (xs : List ℕ) → has_id x (insert x xs) ≡ true
has_id-inserted x [] = ground arith
has_id-inserted x (y ∷ ys) = ground (arith, has_id-inserted x ys)

no_id-insert :
    (id x : ℕ) (xs : List ℕ)
    → (x == id) ≡ false
    → has_id id xs ≡ false
    → has_id id (insert x xs) ≡ false
no_id-insert id x [] other h = rw other refl
no_id-insert id x (y ∷ ys) other h = ground (arith, no_id-insert id x ys other)

-- What is not among the orders is not among what refers to orders.
no_id-All :
    (id : ℕ) (orders ids : List ℕ)
    → has_id id orders ≡ false
    → All (λ n. has_id n orders ≡ true) ids
    → has_id id ids ≡ false
no_id-All id orders [] absent h = refl
no_id-All id orders (n ∷ ns) absent h = elim (Bool-cases (n == id)) [
  | inl same ↦
      let here : has_id id orders ≡ true =
        subst (λ m. has_id m orders ≡ true) ((==_iff n id).0 same) h.0 in
      absurd (cc)
  | inr other ↦ rw other (no_id-All id orders ns absent h.1)
]

map-insert :
    {A : Type 0} (f : A → ℕ) (x : A) (xs : List A) → map f (insert x xs) ≡ insert (f x) (map f xs)
map-insert f x [] = refl
map-insert f x (y ∷ ys) = ap (λ (r : List ℕ). f y ∷ r) (map-insert f x ys)

map-update_where :
    {A : Type 0} (g : A → ℕ) (p : A → Bool) (f : A → A) (xs : List A)
    → ((x : A) → g (f x) ≡ g x)
    → map g (update_where p f xs) ≡ map g xs
map-update_where g p f [] same = refl
map-update_where g p f (x ∷ xs) same = elim (Bool-cases (p x)) [
  | inl e ↦ rw (e, same x) (ap (λ (r : List ℕ). g x ∷ r) (map-update_where g p f xs same))
  | inr e ↦ rw e (ap (λ (r : List ℕ). g x ∷ r) (map-update_where g p f xs same))
]

no_order : (id : ℕ) (os : List Order) → All (λ (o : Order). o.id ≢ id) os → has_order id os ≡ false
no_order id [] h = refl
no_order id (o ∷ os) h = ground (arith, h.0, no_order id os h.1)

found-has_order :
    (id : ℕ) (os : List Order) {o : Order}
    → first (λ (p : Order). p.id == id) os ≡ some o
    → has_order id os ≡ true
found-has_order id [] h = absurd (cc)
found-has_order id (p ∷ ps) h = elim (Bool-cases (p.id == id)) [
  | inl here ↦ rw here refl
  | inr later ↦ rw later (found-has_order id ps (rw later at h))
]

-- Items and payments are of orders that are there, as the foreign keys say, and no checkout that
-- is starting has a payment.
abbrev Linked : List ℕ → List OrderItem → List ℕ → List ℕ → Type 0
Linked orders items paid starting =
    All (λ (i : OrderItem). has_id i.order_id orders ≡ true) items
    × All (λ n. has_id n orders ≡ true) paid
    × All (λ n. has_id n paid ≡ false) starting

pub record Links (starting : List ℕ) (db : Db) : Type 0 where
  pub linked : Linked (order_ids db.orders) db.items (paid_for db.payments) starting

Linked-Links :
    {starting : List ℕ} {db' : Db} {orders : List ℕ} {items : List OrderItem} {paid : List ℕ}
    → order_ids db'.orders ≡ orders
    → db'.items ≡ items
    → paid_for db'.payments ≡ paid
    → Linked orders items paid starting
    → Links starting db'
Linked-Links {starting} {db'} {orders} {items} oe ie pe h = record {
  linked =
      subst (λ os. Linked os db'.items (paid_for db'.payments) starting) (sym oe)
        (subst (λ is. Linked orders is (paid_for db'.payments) starting) (sym ie)
          (subst (λ ps. Linked orders items ps starting) (sym pe) h));
}

-- The links are those of any database with the same orders, items and payments.
pub Links-same :
    {starting : List ℕ} {db db' : Db}
    → order_ids db'.orders ≡ order_ids db.orders
    → db'.items ≡ db.items
    → paid_for db'.payments ≡ paid_for db.payments
    → Links starting db
    → Links starting db'
Links-same oe ie pe h = Linked-Links oe ie pe h.linked

-- A new order, with rows of its own.
item_rows-order :
    (orders : List ℕ) (input : HoldInput) (k : ℕ) (lines : List Line)
    → has_id input.order_id orders ≡ true
    → All (λ (i : OrderItem). has_id i.order_id orders ≡ true) (item_rows input k lines)
unfolding item_rows
item_rows-order orders input k [] h = tt
item_rows-order orders input k (l ∷ ls) h = (h, item_rows-order orders input (suc k) ls h)

module _ {input : HoldInput} {now : ℕ} {items : List CheckoutItem} {db db' : Db} {o : Order}
    (d : Held input now items db o db') {starting : List ℕ} (h : Links starting db) where
  absent : has_order input.order_id db.orders ≡ false
  absent = no_order input.order_id db.orders d.new_id

  -- No item has the id of the new order.
  pub Held-fresh : All (λ (i : OrderItem). i.order_id ≢ input.order_id) db.items
  Held-fresh =
      All-mono db.items
        (λ (i : OrderItem) (k : has_order i.order_id db.orders ≡ true)
            (e : i.order_id ≡ input.order_id).
          let here : has_order input.order_id db.orders ≡ true =
            subst (λ n. has_order n db.orders ≡ true) e k in
          cc (absent))
        h.linked.0

  pub Held-Links : Links (input.order_id ∷ starting) db'
  unfolding new_order
  Held-Links =
      let order = new_order input now d.lines in
      let ids : order_ids db'.orders ≡ insert input.order_id (order_ids db.orders) =
        ap order_ids d.orders_are ∙ map-insert (λ (p : Order). p.id) order db.orders in
      let grown = λ (n : ℕ) (k : has_order n db.orders ≡ true).
        has_id-insert n input.order_id (order_ids db.orders) k in
      Linked-Links ids d.items_are (ap paid_for d.payments_are) (
        All-append
            (λ (i : OrderItem).
              has_id i.order_id (insert input.order_id (order_ids db.orders)) ≡ true)
            db.items (item_rows input 0 d.lines)
            (All-mono db.items (λ (i : OrderItem) k. grown i.order_id k) h.linked.0)
            (item_rows-order _ input 0 d.lines
              (has_id-inserted input.order_id (order_ids db.orders))),
        All-mono (paid_for db.payments) grown h.linked.1,
        (
          no_id-All input.order_id (order_ids db.orders) (paid_for db.payments) absent h.linked.1,
          h.linked.2,
        ),
      )

-- The checkouts that go on starting when one has ended.
ended-Links :
    (id : ℕ) (starting : List ℕ) (P : ℕ → Type 0)
    → All P starting
    → All (λ n. P n × ((id == n) ≡ false)) (ended id starting)
ended-Links id [] P h = tt
ended-Links id (n ∷ ns) P h = elim (Bool-cases (n == id)) [
  | inl e ↦ rw e (ended-Links id ns P h.1)
  | inr e ↦ rw e ((h.0, ground arith), ended-Links id ns P h.1)
]

-- A checkout that ends: it gives up, or its payment is entered.
pub give_up-Links :
    {db : Db} (id : ℕ) {starting : List ℕ} → Links starting db → Links (ended id starting) db
give_up-Links {db} id {starting} h = record {
  linked = (
    h.linked.0,
    h.linked.1,
    All-mono (ended id starting) (λ n k. k.0)
        (ended-Links id starting (λ n. has_id n (paid_for db.payments) ≡ false) h.linked.2),
  );
}

has_id-starting :
    (id : ℕ) (starting : List ℕ) (P : ℕ → Type 0)
    → All P starting
    → has_id id starting ≡ true
    → P id
has_id-starting id [] P h e = absurd (cc)
has_id-starting id (n ∷ ns) P h e = elim (Bool-cases (n == id)) [
  | inl same ↦ subst P ((==_iff n id).0 same) h.0
  | inr other ↦ has_id-starting id ns P h.1 (rw other at e)
]

-- The payment of a checkout that is starting is its first.
pub starting-no_payment :
    (id : ℕ) {starting : List ℕ} {db : Db}
    → Links starting db
    → has_id id starting ≡ true
    → has_payment id db.payments ≡ false
starting-no_payment id {starting} {db} h e =
    has_id-starting id starting (λ n. has_payment n db.payments ≡ false) h.linked.2 e

-- The links while the transaction that enters a payment of one order runs.
module _ (order_id : ℕ) (starting : List ℕ) where
  abbrev rest : List ℕ
  rest = ended order_id starting

  record Entering (db : Db) : Type 0 where
    links : Links rest db
    apart : All (λ n. (order_id == n) ≡ false) rest

  TxKeeps-insert_payment :
      (p : Payment) → p.order_id ≡ order_id → TxKeeps Entering (insert_payment p)
  unfolding insert_payment
  TxKeeps-insert_payment p own = record {
    at = λ db r db' h e. elim (Option-cases (order_by_id p.order_id db)) [
      | inl missing ↦ absurd (ground (arith, e))
      | inr (o, found) ↦
          let after : db' ≡ record db { payments = insert p db.payments } = ground (arith, e) in
          subst Entering (sym after) (record {
            links = record {
              linked = rw (map-insert (λ (q : Payment). q.order_id) p db.payments) (
                h.links.linked.0,
                All-append (λ n. has_order n db.orders ≡ true) (paid_for db.payments)
                    (p.order_id ∷ []) h.links.linked.1
                    (found-has_order p.order_id db.orders found, tt),
                All-zip rest
                    (λ n (k : has_payment n db.payments ≡ false) (ne : (order_id == n) ≡ false).
                      no_id-insert n p.order_id (paid_for db.payments)
                        (subst (λ m. (m == n) ≡ false) (sym own) ne) k)
                    h.links.linked.2 h.apart,
              );
            };
            apart = h.apart;
          })
    ];
  }

  TxKeeps-await_payment : (id : ℕ) → TxKeeps Entering (await_payment id)
  unfolding await_payment
  TxKeeps-await_payment id = TxKeeps-modify _ (λ db h. record {
    links =
        Links-same (map-update_where (λ (o : Order). o.id) _ await_row db.orders (λ o. refl)) refl
          refl h.links;
    apart = h.apart;
  })

  TxKeeps-record_transition : (entry : Transition) → TxKeeps Entering (record_transition entry)
  unfolding record_transition
  TxKeeps-record_transition entry = record {
    at = λ db r db' h e.
        let oe : db'.orders ≡ db.orders = ground arith in
        let ie : db'.items ≡ db.items = ground arith in
        let pe : db'.payments ≡ db.payments = ground arith in
        record {
          links = Links-same (ap order_ids oe) ie (ap paid_for pe) h.links;
          apart = h.apart;
        };
  }

module _ (payment_id : ℕ) (order : Order) (phone : List ℕ) (charge : ChargeResult)
    (starting : List ℕ) where
  TxKeeps-insert_new :
      TxKeeps
        (Entering order.id starting)
        (insert_payment (new_payment payment_id order phone charge))
  unfolding new_payment
  TxKeeps-insert_new =
      TxKeeps-insert_payment order.id starting (new_payment payment_id order phone charge) refl

  TxKeeps-initiate_payment :
      TxKeeps (Entering order.id starting) (initiate_payment payment_id order phone charge)
  unfolding initiate_payment
  TxKeeps-initiate_payment =
      search (tx_rules, TxKeeps-insert_new, TxKeeps-await_payment, TxKeeps-record_transition) depth
        10

  pub initiate_payment-Links :
      (db : Db) {db' : Db} {p : Payment}
      → Links starting db
      → initiate_payment payment_id order phone charge db ≡ ok (p, db')
      → Links (ended order.id starting) db'
  initiate_payment-Links db {db'} {p} h e =
      (TxKeeps-initiate_payment.at db p db'
        (record {
          links = give_up-Links order.id h;
          apart =
              All-mono (ended order.id starting) (λ n k. k.1)
                (ended-Links order.id starting (λ n. has_payment n db.payments ≡ false) h.linked.2);
        })
        e).links

-- Releases and sales keep the links: they update order rows, and leave items and payments.
abbrev pub KeepsLinks : Db → Db → Type 0
KeepsLinks db db' =
    (order_ids db'.orders ≡ order_ids db.orders)
    × (db'.items ≡ db.items)
    × (paid_for db'.payments ≡ paid_for db.payments)

pub Released-KeepsLinks :
    {n : ℕ} {terminal : TerminalStatus} {now : ℕ} {db db' : Db} {r : ReleaseResult}
    → Released n terminal now db r db'
    → KeepsLinks db db'
unfolding after_release mark_released
Released-KeepsLinks (idle o _ _ _ e) = (
  ap (λ (d : Db). order_ids d.orders) e,
  ap (λ (d : Db). d.items) e,
  ap (λ (d : Db). paid_for d.payments) e,
)
Released-KeepsLinks {db} (returned o _ _ _ e _) = (
  ap (λ (d : Db). order_ids d.orders) e
      ∙ map-update_where (λ (p : Order). p.id) _ _ db.orders (λ p. refl),
  ap (λ (d : Db). d.items) e,
  ap (λ (d : Db). paid_for d.payments) e,
)

pub Committed-KeepsLinks :
    {id now : ℕ} {db db' : Db} {r : CommitResult} → Committed id now db r db' → KeepsLinks db db'
unfolding after_commit mark_paid
Committed-KeepsLinks (already _ _ _ _ e) = (
  ap (λ (d : Db). order_ids d.orders) e,
  ap (λ (d : Db). d.items) e,
  ap (λ (d : Db). paid_for d.payments) e,
)
Committed-KeepsLinks {db} (sold o found _ refund _ e _ _) = (
  ap (λ (d : Db). order_ids d.orders) e
      ∙ map-update_where (λ (p : Order). p.id) _ _ db.orders (λ p. refl),
  ap (λ (d : Db). d.items) e,
  ap (λ (d : Db). paid_for d.payments) e,
)

-- A payment that is found is a payment of its order.
pub found-has_payment :
    (payment_id : ℕ) (ps : List Payment) {p : Payment}
    → first (λ (q : Payment). q.id == payment_id) ps ≡ some p
    → has_payment p.order_id ps ≡ true
found-has_payment payment_id [] h = absurd (cc)
found-has_payment payment_id (q ∷ qs) {p} h = elim (Bool-cases (q.id == payment_id)) [
  | inl here ↦
      let same : q ≡ p = from_some (rw here at h) in
      let own : (q.order_id == p.order_id) ≡ true =
        (==_iff q.order_id p.order_id).1 (ap (λ (x : Payment). x.order_id) same) in
      rw own refl
  | inr later ↦ elim (Bool-cases (q.order_id == p.order_id)) [
    | inl own ↦ rw own refl
    | inr other ↦ rw other (found-has_payment payment_id qs (rw later at h))
  ]
]
  where
    from_some : {x y : Payment} → some x ≡ some y → x ≡ y
    from_some e = cc
