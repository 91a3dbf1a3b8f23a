-- ===== src/Money.antt =====
-- src/lib/money.ts: M-Pesa amounts are whole shillings. Cents are natural numbers here: that a number
-- is a non-negative integer is checked before the rest, and is given.
use ticketing_app.Prelude.{ℕ, ◌*◌, ◌/◌, ◌%◌, ◌≤◌, ◌≡◌, ltb, ◌==◌, if◌then◌else◌, arith}
use ticketing_app.Store.{Result, ok, err, bad_request}

-- centsToMpesaAmount
unfoldable pub cents_to_mpesa_amount : ℕ → Result ℕ
cents_to_mpesa_amount cents =
    if cents % 100 == 0
    then (if ltb (cents / 100) 1 then err bad_request else ok (cents / 100))
    else err bad_request

-- mpesaAmountToCents, of a whole number of shillings
unfoldable pub mpesa_amount_to_cents : ℕ → ℕ
mpesa_amount_to_cents amount = amount * 100

-- An amount that is charged is at least one shilling and is exactly the cents that are owed.
pub mpesa_amount_to_cents-cents_to_mpesa_amount :
    (cents amount : ℕ)
    → cents_to_mpesa_amount cents ≡ ok amount
    → (mpesa_amount_to_cents amount ≡ cents) × (1 ≤ amount)
unfolding cents_to_mpesa_amount mpesa_amount_to_cents
mpesa_amount_to_cents-cents_to_mpesa_amount cents amount h = ground (arith, h)
