-- ===== src/Tickets/Once.antt =====
-- A ticket code is admitted at most once, whatever the gates scan and the admins void.
use ticketing_app.Prelude.{
  ℕ, ◌≤◌, String, ◌≡◌, refl, sym, ap, ◌∙◌, subst, Bool, true, false, Option, none, some, List, [],
  ◌∷◌, ◌&&◌, first, update_where, if◌then◌else◌, ◌==◌, inl, inr, ◌⊎◌, Bool-cases, arith,
  first_holds, ==_refl,
}
use ticketing_app.Schema.{Db, Ticket, is_issued}
use ticketing_app.Store.Exec.{World}
use ticketing_app.Codes.Text.{list_eq, list_eq→eq}
use ticketing_app.Codes.Qr.{Hmac}
use ticketing_app.Tickets.CheckIn.{CheckInOptions, CheckInResult, admitted, view_of, checked_in_row}
use ticketing_app.Tickets.Void.{void_row}
use ticketing_app.Tickets.Admission.{Admits}
use ticketing_app.Tickets.Steps.{
  GateOp, counted, gate_op, admissions, GateStep, idle, withdrawn, entered, gate_op-GateStep,
}

-- The first ticket with a code has been used or voided.
record Used (code : List ℕ) (tickets : List Ticket) : Type 0 where
  ticket : Ticket
  by_code : first (λ t. list_eq t.code code) tickets ≡ some ticket
  unissued : is_issued ticket.status ≡ false

updated : (Ticket → Bool) → (Ticket → Ticket) → Ticket → Ticket
updated q f t = if q t then f t else t

updated_same :
    (p q : Ticket → Bool) (f : Ticket → Ticket) (t : Ticket)
    → ((x : Ticket) → p (f x) ≡ p x)
    → p (updated q f t) ≡ p t
unfolding updated
updated_same p q f t same = elim (Bool-cases (q t)) [ inl h ↦ rw h (same t) | inr h ↦ rw h ]

-- The first row that a condition picks is the same row after an update that keeps the condition.
first-updated :
    (p q : Ticket → Bool) (f : Ticket → Ticket) (ts : List Ticket) (x : Ticket)
    → ((t : Ticket) → p (f t) ≡ p t)
    → first p ts ≡ some x
    → first p (update_where q f ts) ≡ some (updated q f x)
unfolding updated
first-updated p q f [] x same e = absurd (cc)
first-updated p q f (t ∷ ts) x same e = elim (Bool-cases (p t)) [
  | inl here ↦
      rw (updated_same p q f t same, here)
        (ap (λ (o : Option Ticket). updated_option q f o) (rw here at e))
  | inr later ↦
      rw (updated_same p q f t same, later) (first-updated p q f ts x same (rw later at e))
]
  where
    updated_option : (Ticket → Bool) → (Ticket → Ticket) → Option Ticket → Option Ticket
    updated_option q f none = none
    updated_option q f (some t) = some (updated q f t)

updated-unissued :
    (q : Ticket → Bool) (f : Ticket → Ticket) (t : Ticket)
    → ((x : Ticket) → is_issued (f x).status ≡ false)
    → is_issued t.status ≡ false
    → is_issued (updated q f t).status ≡ false
unfolding updated
updated-unissued q f t un h = elim (Bool-cases (q t)) [ inl e ↦ rw e (un t) | inr e ↦ rw e h ]

Used-update_where :
    (code : List ℕ) (q : Ticket → Bool) (f : Ticket → Ticket) (ts : List Ticket)
    → ((t : Ticket) → (f t).code ≡ t.code)
    → ((t : Ticket) → is_issued (f t).status ≡ false)
    → Used code ts
    → Used code (update_where q f ts)
Used-update_where code q f ts same un u = record {
  ticket = updated q f u.ticket;
  by_code =
      first-updated (λ t. list_eq t.code code) q f ts u.ticket
        (λ t. ap (λ (c : List ℕ). list_eq c code) (same t)) u.by_code;
  unissued = updated-unissued q f u.ticket un u.unissued;
}

module _ {iso : ℕ → String} {options : CheckInOptions} {now : ℕ} {c : List ℕ} {db : Db}
    {answer : CheckInResult} {db' : Db} (a : Admits iso options now c db answer db') (code : List ℕ)
    (same : list_eq answer.ticket.code code ≡ true) where
  answered_code : answer.ticket.code ≡ a.ticket.code
  unfolding admitted view_of
  answered_code = ap (λ (r : CheckInResult). r.ticket.code) a.answered

  -- The code that an answer admits is the code that was presented.
  admitted_code : c ≡ code
  admitted_code =
      sym (list_eq→eq a.ticket.code c (first_holds (λ t. list_eq t.code c) db.tickets a.by_code))
      ∙ sym answered_code
      ∙ list_eq→eq answer.ticket.code code same

  found_by : first (λ t. list_eq t.code code) db.tickets ≡ some a.ticket
  found_by =
      subst (λ d. first (λ (t : Ticket). list_eq t.code d) db.tickets ≡ some a.ticket) admitted_code
        a.by_code

  Used-not_admitted : ¬ (Used code db.tickets)
  Used-not_admitted u =
      contradiction (is_issued a.ticket.status) a.unused
        (subst (λ (t : Ticket). is_issued t.status ≡ false) (sym same_ticket) u.unissued)
    where
      some-injective : {x y : Ticket} → some x ≡ some y → x ≡ y
      some-injective e = cc

      same_ticket : a.ticket ≡ u.ticket
      same_ticket = some-injective (sym found_by ∙ u.by_code)

      contradiction : (b : Bool) → b ≡ true → b ≡ false → ⊥
      contradiction b t f = cc

  admitted-Used : Used code db'.tickets
  admitted-Used = record {
    ticket = checked_in_row options.scanned_by now a.ticket;
    by_code =
        ap (first (λ (t : Ticket). list_eq t.code code)) a.marked
        ∙ first-updated (λ t. list_eq t.code code) _ (checked_in_row options.scanned_by now)
            db.tickets a.ticket (λ t. refl) found_by
        ∙ ap some (picked a.ticket a.unused);
    unissued = refl;
  }
    where
      picked :
          (t : Ticket)
          → is_issued t.status ≡ true
          → updated
              (λ x. x.id == t.id && is_issued x.status)
              (checked_in_row options.scanned_by now)
              t
            ≡ checked_in_row options.scanned_by now t
      picked t h = (unfold updated in rw (==_refl t.id, h))

-- A used ticket stays used and is not admitted; an admission leaves a used ticket.
GateStep-Used :
    (code : List ℕ) (db : Db) (r : Option (List ℕ)) (db' : Db)
    → GateStep db r db'
    → Used code db.tickets
    → Used code db'.tickets × (counted code r ≡ 0)
GateStep-Used code db r db' (idle y same) u = (subst (Used code) (sym same) u, refl)
GateStep-Used code db r db' (withdrawn c y same) u = (
  subst (Used code) (sym same)
      (Used-update_where code _ void_row db.tickets (λ t. refl) (λ t. refl) u),
  refl,
)
GateStep-Used code db r db' (entered iso options now c answer y a) u =
    elim (Bool-cases (list_eq answer.ticket.code code)) [
      | inl same ↦ absurd (Used-not_admitted a code same u)
      | inr other ↦ (
        subst (Used code) (sym a.marked) (
            Used-update_where code _ (checked_in_row options.scanned_by now) db.tickets (λ t. refl)
              (λ t. refl) u),
        rw other,
      )
    ]

GateStep-once :
    (code : List ℕ) (db : Db) (r : Option (List ℕ)) (db' : Db)
    → GateStep db r db'
    → (counted code r ≡ 0) ⊎ ((counted code r ≡ 1) × Used code db'.tickets)
GateStep-once code db r db' (idle y same) = inl refl
GateStep-once code db r db' (withdrawn c y same) = inl refl
GateStep-once code db r db' (entered iso options now c answer y a) =
    elim (Bool-cases (list_eq answer.ticket.code code)) [
      | inl same ↦ inr ((rw same), admitted-Used a code same)
      | inr other ↦ inl (rw other)
    ]

module _ (hmac : Hmac) (iso : ℕ → String) (code : List ℕ) where
  Used-admissions :
      (ops : List GateOp) (w : World) → Used code w.db.tickets → admissions hmac iso code ops w ≡ 0
  unfolding admissions
  Used-admissions [] w u = refl
  Used-admissions (op ∷ ops) w u =
      let step = GateStep-Used code w.db _ _ (gate_op-GateStep hmac iso op w) u in
      let (r, w') = gate_op hmac iso op w in omega (arith, step.1, Used-admissions ops w' step.0)

  -- Whatever sequence of tickets the gates are presented with and whatever codes are voided in
  -- between, a code is admitted at most once.
  pub admissions-at_most_once : (ops : List GateOp) (w : World) → admissions hmac iso code ops w ≤ 1
  unfolding admissions
  admissions-at_most_once [] w = omega arith
  admissions-at_most_once (op ∷ ops) w =
      let (r, w') = gate_op hmac iso op w in
      elim (GateStep-once code w.db _ _ (gate_op-GateStep hmac iso op w)) [
        | inl none_yet ↦ omega (arith, none_yet, admissions-at_most_once ops w')
        | inr (one, used) ↦ omega (arith, one, Used-admissions ops w' used)
      ]
