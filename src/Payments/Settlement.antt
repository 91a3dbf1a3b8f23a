-- ===== src/Payments/Settlement.antt =====
-- The data of a settlement, and the UPDATE of payment rows.
use ticketing_app.Prelude.{
  ℕ, String, Bool, true, false, Option, none, some, List, first, update_where, str_eq, ◌==◌, ◌&&◌,
  not, if◌then◌else◌,
}
use ticketing_app.Prelude.Int.{ℤ}
use ticketing_app.Schema.{Payment, SettlementOutcome}
use ticketing_app.Store.{ok, err, unique_violation}
use ticketing_app.Store.Tx.{Tx}

-- SettlementResult of src/gateways/types.ts
pub record SettlementResult : Type 0 where
  pub gateway_ref : String
  pub outcome : SettlementOutcome
  pub result_code : ℤ
  pub result_desc : String
  pub receipt : Option String
  pub amount_cents : Option ℕ
  pub transaction_date : Option ℕ

-- SettlementSource
pub data SettlementSource : Type 0 where
  callback query : SettlementSource

-- SettlementOutcomeReport
pub record SettlementOutcomeReport : Type 0 where
  pub applied : Bool
  pub reason : Option String
  pub order_status : Option String
  pub requires_refund : Bool

-- What the process outside this repository answers: `gateway.queryStatus`, where `none` is a throw,
-- and how PostgreSQL reads a text as a UUID, where `none` is a refusal.
pub record Outside : Type 0 where
  pub query_status : String → Option SettlementResult
  pub parse_uuid : String → Option ℕ

abbrev pub same_receipt : String → Option String → Bool
same_receipt r none = false
same_receipt r (some s) = str_eq s r

-- payments_receipt_key: another payment has this receipt
abbrev pub receipt_taken : Option String → ℕ → List Payment → Bool
receipt_taken none id ps = false
receipt_taken (some r) id ps = elim (first (λ p. same_receipt r p.receipt && not (p.id == id)) ps) [
  | none ↦ false
  | some _ ↦ true
]

-- UPDATE payments SET f WHERE p
unfoldable pub update_payments : (Payment → Bool) → (Payment → Payment) → Tx Unit
update_payments p f db = ok (tt, record db { payments = update_where p f db.payments })

-- The same by id, where `f` sets the receipt: refused if another payment has it.
unfoldable pub settle_payment : ℕ → Option String → (Payment → Payment) → Tx Unit
settle_payment id receipt f db =
    if receipt_taken receipt id db.payments
    then err unique_violation
    else ok (tt, record db { payments = update_where (λ p. p.id == id) f db.payments })
