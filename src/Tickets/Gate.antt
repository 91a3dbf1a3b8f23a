-- ===== src/Tickets/Gate.antt =====
-- A scan that admits carries the signature of a code whose ticket may enter.
use ticketing_app.Prelude.{ℕ, String, ◌≡◌, refl, subst, true, Option, none, some, List, [], ◌∷◌}
use ticketing_app.Schema.{Db}
use ticketing_app.Store.{Result, ok, err}
use ticketing_app.Store.Exec.{World, commit_or_roll_back}
use ticketing_app.Codes.Qr.{Hmac, parse_qr_payload}
use ticketing_app.Codes.Roundtrip.{IsSignedFor, parse_qr_payload_sound}
use ticketing_app.Tickets.CheckIn.{
  Entry, CheckInOptions, CheckInResult, is_manual, check_in_code, check_in_parsed, check_in_ticket,
}
use ticketing_app.Tickets.Admission.{
  Admits, CheckedIn, failed, turned_away, let_in, check_in_code-CheckedIn,
}

module _ (iso : ℕ → String) (options : CheckInOptions) (now : ℕ) (db : Db) where
  -- If an answer admits, it is an admission of the code that was read.
  AdmitsRead : Result (Option (List ℕ)) → Result CheckInResult × World → Type 0
  AdmitsRead parsed (ok answer, w) =
      answer.admitted ≡ true
      → (code : List ℕ) × (parsed ≡ ok (some code)) × Admits iso options now code db answer w.db
  AdmitsRead parsed (err e, w) = Unit

module _ (iso : ℕ → String) (options : CheckInOptions) (now : ℕ) (w : World) where
  CheckedIn-AdmitsRead :
      (code : List ℕ) (s : Result (CheckInResult × Db))
      → CheckedIn iso options now code w.db s
      → AdmitsRead iso options now w.db (ok (some code)) (commit_or_roll_back s w)
  unfolding AdmitsRead
  CheckedIn-AdmitsRead code (err x) (failed e) = tt
  CheckedIn-AdmitsRead code (ok (x, y)) (turned_away answer refused) = λ h. absurd (cc)
  CheckedIn-AdmitsRead code (ok (x, y)) (let_in answer db' a) = λ h. (code, refl, a)

  parsed-AdmitsRead :
      (parsed : Result (Option (List ℕ)))
      → AdmitsRead iso options now w.db parsed (check_in_parsed iso options now parsed w)
  unfolding AdmitsRead check_in_parsed
  parsed-AdmitsRead (err e) = tt
  parsed-AdmitsRead (ok none) = tt
  parsed-AdmitsRead (ok (some [])) = tt
  parsed-AdmitsRead (ok (some (c ∷ cs))) =
      CheckedIn-AdmitsRead (c ∷ cs) (check_in_code iso options now (c ∷ cs) w.db)
        (check_in_code-CheckedIn iso options now (c ∷ cs) w.db)

-- A scan that is answered with an admission carried a code and the signature of that code; the
-- ticket of the code was issued and not yet used, for the event of the gate, in a paid order; and
-- afterwards it is marked as used, with an entry in the ledger.
pub check_in_ticket-Admits :
    (hmac : Hmac) (iso : ℕ → String) (options : CheckInOptions) (now : ℕ) (input : List ℕ)
    (w : World) (answer : CheckInResult) (w' : World)
    → options.entry ≡ Entry.scan
    → check_in_ticket iso options now hmac input w ≡ (ok answer, w')
    → answer.admitted ≡ true
    → (code : List ℕ) × IsSignedFor hmac input code × Admits iso options now code w.db answer w'.db
unfolding check_in_ticket AdmitsRead
check_in_ticket-Admits hmac iso options now input w answer w' scanned returned h =
    let parsed = parse_qr_payload hmac input (is_manual options.entry) in
    let (code, read, a) =
      subst (AdmitsRead iso options now w.db parsed) returned
        (parsed-AdmitsRead iso options now w parsed) h in
    (
      code,
      parse_qr_payload_sound hmac input code (
          subst (λ (e : Entry). parse_qr_payload hmac input (is_manual e) ≡ ok (some code)) scanned
            read),
      a,
    )
