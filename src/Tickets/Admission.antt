-- ===== src/Tickets/Admission.antt =====
-- What admission takes, and what it leaves behind.
use ticketing_app.Prelude.{
  ℕ, String, ◌≡◌, refl, true, false, some, List, [], ◌∷◌, ◌++◌, ◌&&◌, update_where, ◌==◌, inl, inr,
  Bool-cases, Option-cases,
}
use ticketing_app.Schema.{Db, Ticket, TicketStatus, is_issued}
use ticketing_app.Store.{Failure, Result, ok, err}
use ticketing_app.Ledger.Record.{record_transition-row}
use ticketing_app.Inventory.Release.{order_by_id}
use ticketing_app.Tickets.CheckIn.{
  CheckInOptions, CheckInResult, is_void, is_checked_in, is_wrong_event, order_is_paid, view_of,
  refused, admitted, mark_checked_in, checked_in_row, ticket_checked_in, ticket_by_code, item_by_id,
  admit_ticket, decide, check_ticket, check_in_code,
}

-- A check-in that admitted: the ticket with the code was issued and not yet used, it is for the
-- event of the gate, and its order is paid; its row is marked, and the ledger has an entry more.
pub record Admits (iso : ℕ → String) (options : CheckInOptions) (now : ℕ) (code : List ℕ) (db : Db)
    (answer : CheckInResult) (db' : Db) : Type 0 where
  pub ticket : Ticket
  pub by_code : ticket_by_code code db ≡ some ticket
  pub unused : is_issued ticket.status ≡ true
  pub right_event : is_wrong_event options.event_id ticket ≡ false
  pub paid : order_is_paid (order_by_id ticket.order_id db) ≡ true
  pub marked :
      db'.tickets
      ≡ update_where
          (λ t. t.id == ticket.id && is_issued t.status)
          (checked_in_row options.scanned_by now)
          db.tickets
  pub orders : db'.orders ≡ db.orders
  pub logged : db'.ledger ≡ db.ledger ++ ticket_checked_in iso ticket options now ∷ []
  pub answered :
      answer ≡ admitted (view_of ticket (item_by_id ticket.order_item_id db)) options.scanned_by now

-- The three ways in which the transaction of a check-in ends: an error, a refusal that writes
-- nothing, and an admission.
pub data CheckedIn (iso : ℕ → String) (options : CheckInOptions) (now : ℕ) (code : List ℕ) (db : Db)
    : Result (CheckInResult × Db) → Type 0 where
  failed : (e : Failure) → CheckedIn iso options now code db (err e)
  turned_away :
      (answer : CheckInResult)
      → answer.admitted ≡ false
      → CheckedIn iso options now code db (ok (answer, db))
  let_in :
      (answer : CheckInResult) (db' : Db)
      → Admits iso options now code db answer db'
      → CheckedIn iso options now code db (ok (answer, db'))

issued-of : (s : TicketStatus) → is_void s ≡ false → is_checked_in s ≡ false → is_issued s ≡ true
issued-of TicketStatus.issued v c = refl
issued-of TicketStatus.checked_in v c = absurd (cc)
issued-of TicketStatus.void v c = absurd (cc)

module _ (iso : ℕ → String) (options : CheckInOptions) (now : ℕ) (code : List ℕ) (db : Db) where
  admit_ticket-CheckedIn :
      (t : Ticket)
      → ticket_by_code code db ≡ some t
      → is_issued t.status ≡ true
      → is_wrong_event options.event_id t ≡ false
      → order_is_paid (order_by_id t.order_id db) ≡ true
      → CheckedIn iso options now code db
          (admit_ticket iso options now t (view_of t (item_by_id t.order_item_id db)) db)
  unfolding admit_ticket mark_checked_in ticket_checked_in
  admit_ticket-CheckedIn t by_code unused right paid =
      rw
        (record_transition-row (ticket_checked_in iso t options now) t.id
          (mark_checked_in t.id options.scanned_by now db) refl)
        (let_in _ _ (record {
          ticket = t;
          by_code = by_code;
          unused = unused;
          right_event = right;
          paid = paid;
          marked = refl;
          orders = refl;
          logged = refl;
          answered = refl;
        }))

  check_ticket-CheckedIn :
      (t : Ticket)
      → ticket_by_code code db ≡ some t
      → is_wrong_event options.event_id t ≡ false
      → CheckedIn iso options now code db
          (check_ticket iso options now t (view_of t (item_by_id t.order_item_id db)) db)
  unfolding check_ticket decide refused
  check_ticket-CheckedIn t by_code right = elim (Bool-cases (is_void t.status)) [
    | inl void ↦ rw void (turned_away _ refl)
    | inr live ↦ elim (Bool-cases (order_is_paid (order_by_id t.order_id db))) [
      | inr unpaid ↦ rw (live, unpaid) (turned_away _ refl)
      | inl paid ↦ elim (Bool-cases (is_checked_in t.status)) [
        | inl used ↦ rw (live, paid, used) (turned_away _ refl)
        | inr unused ↦
            rw (live, paid, unused)
              (admit_ticket-CheckedIn t by_code (issued-of t.status live unused) right paid)
      ]
    ]
  ]

  -- Every check-in of a code ends in one of the three ways.
  pub check_in_code-CheckedIn :
      CheckedIn iso options now code db (check_in_code iso options now code db)
  unfolding check_in_code
  check_in_code-CheckedIn = elim (Option-cases (ticket_by_code code db)) [
    | inl absent ↦ rw absent (failed _)
    | inr (t, found) ↦ elim (Bool-cases (is_wrong_event options.event_id t)) [
      | inl wrong ↦ rw (found, wrong) (failed _)
      | inr right ↦ rw (found, right) (check_ticket-CheckedIn t found right)
    ]
  ]
