-- ===== src/Ledger/Record.antt =====
-- `recordTransition` of src/services/ledger.service.ts: one entry, inside the caller's transaction.
-- `entity_id` is a `uuid` column, so a text that is no UUID is refused by PostgreSQL.
use mathlib.Core.List.{append-nil, append_assoc}
use ticketing_app.Prelude.{ℕ, ◌≡◌, ◌∙◌, ap, sym, List, [], ◌∷◌, ◌++◌, map, insert, arith}
use ticketing_app.Schema.{Db, Transition, EntityId}
use ticketing_app.Store.{ok, err, invalid_text}
use ticketing_app.Store.Exec
use ticketing_app.Store.Tx.{Tx, pure, ◌>>◌}

abbrev pub append_entry : EntityId → Transition → Tx Unit
append_entry (EntityId.row _) entry db = ok (tt, record db { ledger = insert entry db.ledger })
append_entry (EntityId.reference _) entry db = err invalid_text

unfoldable pub record_transition : Transition → Tx Unit
record_transition entry = append_entry entry.entity_id entry

-- recordStandaloneTransition: an insertion in its own transaction
unfoldable pub record_standalone_transition : Transition → Exec.Exec Unit
unfolding record_transition
record_standalone_transition entry = Exec.with_transaction (record_transition entry)

-- `for (const x of xs) await recordTransition(tx, entry(x))`
unfoldable pub record_each : {A : Type 0} → (A → Transition) → List A → Tx Unit
record_each entry [] = pure tt
record_each entry (x ∷ xs) = record_transition (entry x) >> record_each entry xs

-- An entry about a row of the database is appended, and nothing else changes.
pub record_transition-row :
    (entry : Transition) (id : ℕ) (db : Db)
    → entry.entity_id ≡ EntityId.row id
    → record_transition entry db ≡ ok (tt, record db { ledger = db.ledger ++ entry ∷ [] })
unfolding record_transition
record_transition-row entry id db e = ground arith

module _ {A : Type 0} (entry : A → Transition) (id : A → ℕ)
    (about_rows : (x : A) → (entry x).entity_id ≡ EntityId.row (id x)) where
  -- So for a list of entries, in order.
  pub record_each-rows :
      (xs : List A) (db : Db)
      → record_each entry xs db ≡ ok (tt, record db { ledger = db.ledger ++ map entry xs })
  unfolding record_each
  record_each-rows [] db =
      ap (λ (l : List Transition). ok (tt, record db { ledger = l })) (sym (append-nil db.ledger))
  record_each-rows (x ∷ xs) db = rw (record_transition-row (entry x) (id x) db (about_rows x)) (
      record_each-rows xs (record db { ledger = db.ledger ++ entry x ∷ [] })
      ∙ ap (λ (l : List Transition). ok (tt, record db { ledger = l }))
          (append_assoc db.ledger (entry x ∷ []) (map entry xs)))
