-- ===== src/Tickets/Issuing.antt =====
-- How many tickets issuance makes, and what a run of it does that comes too late.
use mathlib.Core.List.{append-nil, append_assoc}
use ticketing_app.Prelude.{
  ℕ, ◌+◌, ◌-◌, ◌≤◌, ◌≡◌, refl, sym, ◌∙◌, ap, subst, Bool, true, false, some, List, [], ◌∷◌, ◌++◌,
  select, insert, length, ◌==◌, arith, All, All-mono, inl, inr, ◌⊎◌, Bool-cases, Option-cases,
}
use ticketing_app.Schema.{Db, Order, OrderItem, Ticket, is_paid}
use ticketing_app.Schema.Objects.{refund_required}
use ticketing_app.Store.{ok}
use ticketing_app.Store.Tx.{>>=-eq-ok}
use ticketing_app.Ledger.Record.{record_each, record_each-rows}
use ticketing_app.Inventory.Release.{order_by_id, items_of}
use ticketing_app.Tickets.Issue.{
  Fresh, of_item, count_by_item, rows_of, same_sequence, same_key, exists_in, insert_ticket,
  insert_tickets, ticket_issued, tickets_of, issue_rows, issue_tickets,
}
use ticketing_app.Tickets.Missing.{
  select_append, count_append, count_select, ItemIdsUnique, select-ItemIdsUnique, missing,
  count-rows_of, rows_of_complete,
}

ok_db : {A : Type 0} {p q : A × Db} → ok p ≡ ok q → p.1 ≡ q.1
ok_db h = cc

one_inserted :
    (t : Ticket) (db : Db) {db' : Db} {one : List Ticket}
    → insert_ticket t db ≡ ok (one, db')
    → (db' ≡ record db { tickets = db.tickets ++ one }) × ((one ≡ []) ⊎ (one ≡ t ∷ []))
unfolding insert_ticket
one_inserted t db {db'} {one} h = elim (Bool-cases (exists_in (same_sequence t) db.tickets)) [
  | inl conflict ↦
      let k = rw (insert_ticket, conflict) at h in
      let skipped : one ≡ [] = cc (k) in
      let same : db' ≡ db = cc (k) in
      (
        same
            ∙ ap (λ (ts : List Ticket). record db { tickets = ts })
                (sym (append-nil db.tickets)
                  ∙ ap (λ (o : List Ticket). db.tickets ++ o) (sym skipped)),
        inl skipped,
      )
  | inr free ↦ elim (Bool-cases (exists_in (same_key t) db.tickets)) [
    | inl taken ↦ absurd (cc (rw (insert_ticket, free, taken) at h))
    | inr clear ↦
        let k = rw (insert_ticket, free, clear) at h in
        let added : one ≡ t ∷ [] = cc (k) in
        let grown : db' ≡ record db { tickets = insert t db.tickets } = cc (k) in
        (
          grown ∙ ap (λ (o : List Ticket). record db { tickets = db.tickets ++ o }) (sym added),
          inr added,
        )
  ]
]

count_one :
    (p : Ticket → Bool) (t : Ticket) (ts one rest : List Ticket)
    → (one ≡ []) ⊎ (one ≡ t ∷ [])
    → length (select p rest) ≤ length (select p ts)
    → length (select p (one ++ rest)) ≤ length (select p (t ∷ ts))
count_one p t ts one rest (inl e) h = rw e (ground (arith, h))
count_one p t ts one rest (inr e) h = rw e (ground (arith, h))

-- What is inserted goes to the end, and of no kind is it more than was asked for.
insert_tickets_lem :
    (ts : List Ticket) (db : Db) {db' : Db} {new : List Ticket}
    → insert_tickets ts db ≡ ok (new, db')
    → (db' ≡ record db { tickets = db.tickets ++ new })
      × ((p : Ticket → Bool) → length (select p new) ≤ length (select p ts))
unfolding insert_tickets
insert_tickets_lem [] db {db'} {new} h =
    let none_new : new ≡ [] = cc in
    let same : db' ≡ db = cc in
    (
      same
          ∙ ap (λ (ts : List Ticket). record db { tickets = ts })
              (sym (append-nil db.tickets)
                ∙ ap (λ (o : List Ticket). db.tickets ++ o) (sym none_new)),
      λ p. rw none_new (omega arith),
    )
insert_tickets_lem (t ∷ ts) db {db'} {new} h =
    let s1 = >>=-eq-ok (insert_ticket t) _ db h in
    let s2 = >>=-eq-ok (insert_tickets ts) _ s1.0.1 s1.2 in
    let one = one_inserted t db s1.1 in
    let rest = insert_tickets_lem ts s1.0.1 s2.1 in
    let written : s1.0.0 ++ s2.0.0 ≡ new = cc (s2.2) in
    let last : s2.0.1 ≡ db' = cc (s2.2) in
    (
      sym last
          ∙ rest.0
          ∙ ap (λ (d : Db). record d { tickets = d.tickets ++ s2.0.0 }) one.0
          ∙ ap (λ (ts : List Ticket). record db { tickets = ts })
              (append_assoc db.tickets s1.0.0 s2.0.0
                ∙ ap (λ (o : List Ticket). db.tickets ++ o) written),
      λ p.
          subst (λ o. length (select p o) ≤ length (select p (t ∷ ts))) written
            (count_one p t ts s1.0.0 s2.0.0 one.1 (rest.1 p)),
    )

module _ (order : Order) (existing : List Ticket) where
  issue_rows_lem :
      (rows : List Ticket) (db : Db) {db' : Db} {all_tickets : List Ticket}
      → issue_rows order existing rows db ≡ ok (all_tickets, db')
      → (new : List Ticket) × (db'.tickets ≡ db.tickets ++ new)
        × ((p : Ticket → Bool) → length (select p new) ≤ length (select p rows))
  unfolding issue_rows
  issue_rows_lem [] db {db'} h =
      let same : db' ≡ db = cc in
      ([], ap (λ (d : Db). d.tickets) same ∙ sym (append-nil db.tickets), λ p. omega arith)
  issue_rows_lem (r ∷ rs) db {db'} h =
      let s1 = >>=-eq-ok (insert_tickets (r ∷ rs)) _ db h in
      let s2 = >>=-eq-ok (record_each (ticket_issued order) s1.0.0) _ s1.0.1 s1.2 in
      let ins = insert_tickets_lem (r ∷ rs) db s1.1 in
      let logged =
        record_each-rows (ticket_issued order) (λ (t : Ticket). t.id)
          (λ t. (unfold ticket_issued in refl)) s1.0.0 s1.0.1 in
      let last : s2.0.1 ≡ db' = cc (s2.2) in
      (
        s1.0.0,
        ap (λ (d : Db). d.tickets) (sym last)
            ∙ ap (λ (d : Db). d.tickets) (ok_db (sym s2.1 ∙ logged))
            ∙ ap (λ (d : Db). d.tickets) ins.0,
        ins.1,
      )

-- The tickets of one item after new ones, of which there are no more than rows.
within :
    (fresh : ℕ → ℕ → Fresh) (order : Order) (id : ℕ) (db db' : Db) (new : List Ticket)
    → db'.tickets ≡ db.tickets ++ new
    → (let rows = rows_of fresh order (tickets_of id db) (items_of id db) in
        (p : Ticket → Bool) → length (select p new) ≤ length (select p rows))
    → (i : OrderItem)
    → count_by_item i.id (rows_of fresh order (tickets_of id db) (items_of id db))
      ≡ missing fresh order (tickets_of id db) i
    → count_by_item i.id (tickets_of id db')
      ≤ count_by_item i.id (tickets_of id db) + (i.quantity - count_by_item i.id (tickets_of id db))
unfolding missing
within fresh order id db db' new grown bound i e =
    let mine = λ (t : Ticket). t.order_id == id in
    let split =
      ap (λ (ts : List Ticket). length (select (of_item i.id) ts))
        (ap (select mine) grown ∙ select_append mine db.tickets new)
      ∙ count_append (of_item i.id) (select mine db.tickets) (select mine new) in
    omega (arith, split, count_select (of_item i.id) mine new, bound (of_item i.id), e)

-- A run of the issuance that does not fail leaves, for each item of the order, no more tickets than
-- the item's quantity, or than there were before if those were more. No two items have one id.
pub issue_tickets-at_most :
    (fresh : ℕ → ℕ → Fresh) (id : ℕ) (db : Db) {issued : List Ticket} {db' : Db}
    → ItemIdsUnique db.items
    → issue_tickets fresh id db ≡ ok (issued, db')
    → All
        (λ (i : OrderItem).
          count_by_item i.id (tickets_of id db')
          ≤ count_by_item i.id (tickets_of id db)
            + (i.quantity - count_by_item i.id (tickets_of id db)))
        (items_of id db)
unfolding issue_tickets
issue_tickets-at_most fresh id db {issued} {db'} u h = elim (Option-cases (order_by_id id db)) [
  | inl absent ↦ absurd (cc (rw (issue_tickets, absent) at h))
  | inr (order, found) ↦ elim (Bool-cases (is_paid order.status)) [
    | inr unpaid ↦ absurd (cc (rw (issue_tickets, found, unpaid) at h))
    | inl paid ↦ elim (Bool-cases (refund_required order.metadata)) [
      | inl flagged ↦ absurd (cc (rw (issue_tickets, found, paid, flagged) at h))
      | inr clear ↦
          let k = rw (issue_tickets, found, paid, clear) at h in
          let rows = rows_of fresh order (tickets_of id db) (items_of id db) in
          let (new, grown, bound) = issue_rows_lem order (tickets_of id db) rows db k in
          All-mono (items_of id db) (λ i. within fresh order id db db' new grown bound i)
            (count-rows_of fresh order (tickets_of id db) (items_of id db)
              (select-ItemIdsUnique (λ i. i.order_id == id) db.items u))
    ]
  ]
]

-- For a paid order that is not flagged for a refund and whose items have all their tickets, a run of
-- the issuance returns the tickets there are, and changes nothing.
pub issue_tickets-again :
    (fresh : ℕ → ℕ → Fresh) (id : ℕ) (db : Db) (order : Order)
    → order_by_id id db ≡ some order
    → is_paid order.status ≡ true
    → refund_required order.metadata ≡ false
    → All (λ (i : OrderItem). i.quantity ≤ count_by_item i.id (tickets_of id db)) (items_of id db)
    → issue_tickets fresh id db ≡ ok (tickets_of id db, db)
unfolding issue_tickets issue_rows
issue_tickets-again fresh id db order found paid clear complete =
    rw (
      found,
      paid,
      clear,
      rows_of_complete fresh order (tickets_of id db) (items_of id db) complete,
    )
