-- ===== src/Tickets/Steps.antt =====
-- What gates and admins do to the tickets, one step at a time.
use ticketing_app.Prelude.{
  ℕ, ◌+◌, String, ◌≡◌, refl, ap, true, Option, none, some, List, [], ◌∷◌, select, map, first,
  update_where, if◌then◌else◌, inl, inr, Option-cases,
}
use ticketing_app.Schema.{Db}
use ticketing_app.Store.{Result, ok, err}
use ticketing_app.Store.Exec.{World, with_transaction, commit_or_roll_back}
use ticketing_app.Codes.Text.{list_eq}
use ticketing_app.Codes.Qr.{Hmac, parse_qr_payload}
use ticketing_app.Ledger.Record.{record_transition-row}
use ticketing_app.Tickets.CheckIn.{
  CheckInOptions, CheckInResult, is_manual, admitted, ticket_by_code, check_in_code,
  check_in_parsed, check_in_ticket,
}
use ticketing_app.Tickets.Void.{void_ticket, void_row, ticket_voided, void_rows}
use ticketing_app.Tickets.Admission.{
  Admits, CheckedIn, failed, turned_away, let_in, check_in_code-CheckedIn,
}

-- What gates and admins do: a scan or a typed code, and a voided ticket.
pub data GateOp : Type 0 where
  present : List ℕ → CheckInOptions → ℕ → GateOp
  withdraw : List ℕ → Option String → String → GateOp

-- the code that an answer admits
abbrev pub reported : Result CheckInResult → Option (List ℕ)
reported (ok answer) = if answer.admitted then some answer.ticket.code else none
reported (err e) = none

abbrev pub counted : List ℕ → Option (List ℕ) → ℕ
counted code none = 0
counted code (some c) = if list_eq c code then 1 else 0

module _ (hmac : Hmac) (iso : ℕ → String) where
  unfoldable pub gate_op : GateOp → World → Option (List ℕ) × World
  gate_op (present input options now) w =
      let (r, w') = check_in_ticket iso options now hmac input w in (reported r, w')
  gate_op (withdraw code reason actor) w =
      let (r, w') = with_transaction (void_ticket code reason actor) w in (none, w')

  -- how often a code is admitted
  unfoldable pub admissions : List ℕ → List GateOp → World → ℕ
  unfolding gate_op
  admissions code [] w = 0
  admissions code (op ∷ ops) w =
      let (entered, w') = gate_op op w in counted code entered + admissions code ops w'

-- What one of them does to the tickets.
pub data GateStep (db : Db) : Option (List ℕ) → Db → Type 0 where
  idle : (db' : Db) → db'.tickets ≡ db.tickets → GateStep db none db'
  withdrawn :
      (code : List ℕ) (db' : Db)
      → db'.tickets ≡ update_where (λ t. list_eq t.code code) void_row db.tickets
      → GateStep db none db'
  entered :
      (iso : ℕ → String) (options : CheckInOptions) (now : ℕ) (code : List ℕ)
      (answer : CheckInResult) (db' : Db)
      → Admits iso options now code db answer db'
      → GateStep db (some answer.ticket.code) db'

Admits-admitted :
    {iso : ℕ → String} {options : CheckInOptions} {now : ℕ} {code : List ℕ} {db : Db}
    {answer : CheckInResult} {db' : Db}
    → Admits iso options now code db answer db'
    → answer.admitted ≡ true
unfolding admitted
Admits-admitted a = ap (λ (r : CheckInResult). r.admitted) a.answered

CheckedIn-GateStep :
    (iso : ℕ → String) (options : CheckInOptions) (now : ℕ) (code : List ℕ) (w : World)
    (s : Result (CheckInResult × Db))
    → CheckedIn iso options now code w.db s
    → let (r, w') = commit_or_roll_back s w in GateStep w.db (reported r) w'.db
CheckedIn-GateStep iso options now code w (err x) (failed e) = idle w.db refl
CheckedIn-GateStep iso options now code w (ok (x, y)) (turned_away answer h) = rw h (idle w.db refl)
CheckedIn-GateStep iso options now code w (ok (x, y)) (let_in answer db' a) =
    rw (Admits-admitted a) (entered iso options now code answer db' a)

parsed-GateStep :
    (iso : ℕ → String) (options : CheckInOptions) (now : ℕ) (parsed : Result (Option (List ℕ)))
    (w : World)
    → let (r, w') = check_in_parsed iso options now parsed w in GateStep w.db (reported r) w'.db
unfolding check_in_parsed
parsed-GateStep iso options now (err e) w = idle w.db refl
parsed-GateStep iso options now (ok none) w = idle w.db refl
parsed-GateStep iso options now (ok (some [])) w = idle w.db refl
parsed-GateStep iso options now (ok (some (c ∷ cs))) w =
    CheckedIn-GateStep iso options now (c ∷ cs) w (check_in_code iso options now (c ∷ cs) w.db)
      (check_in_code-CheckedIn iso options now (c ∷ cs) w.db)

withdraw-GateStep :
    (code : List ℕ) (reason : Option String) (actor : String) (w : World)
    → let (r, w') = with_transaction (void_ticket code reason actor) w in GateStep w.db none w'.db
unfolding void_ticket void_rows ticket_voided
withdraw-GateStep code reason actor w = elim (Option-cases (ticket_by_code code w.db)) [
  | inl absent ↦ rw absent (idle w.db refl)
  | inr (t, found) ↦
      elim (Option-cases
        (first (λ _. true) (map void_row (select (λ x. list_eq x.code code) w.db.tickets)))) [
          | inl none_left ↦ rw (found, none_left) (idle w.db refl)
          | inr (v, voided) ↦
              let after = record w.db {
                tickets = update_where (λ x. list_eq x.code code) void_row w.db.tickets;
              } in
              rw
                (
                  found,
                  voided,
                  record_transition-row (ticket_voided v code t.status reason actor) v.id after
                      refl,
                )
                (withdrawn code _ refl)
        ]
]

pub gate_op-GateStep :
    (hmac : Hmac) (iso : ℕ → String) (op : GateOp) (w : World)
    → let (r, w') = gate_op hmac iso op w in GateStep w.db r w'.db
unfolding gate_op check_in_ticket
gate_op-GateStep hmac iso (present input options now) w =
    parsed-GateStep iso options now (parse_qr_payload hmac input (is_manual options.entry)) w
gate_op-GateStep hmac iso (withdraw code reason actor) w = withdraw-GateStep code reason actor w
