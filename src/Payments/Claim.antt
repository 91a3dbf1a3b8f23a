-- ===== src/Payments/Claim.antt =====
-- What the claim of a payment does not do.
use ticketing_app.Prelude.{ℕ, String, ◌≡◌, refl, some, first, update_where, first-update_where}
use ticketing_app.Schema.{Db, Payment}
use ticketing_app.Store.{ok}
use ticketing_app.Payments.Settlement.{update_payments}
use ticketing_app.Payments.Apply.{is_claimable, stamp, claim_payment}

-- A claim does not exclude a second one: as long as a payment is pending, a second caller that
-- sends the claiming UPDATE after a first one gets the same payment too, stamped anew.
pub claim_payment-not_exclusive :
    (ref : String) (t1 t2 : ℕ) (db : Db) (p : Payment)
    → first (is_claimable ref) db.payments ≡ some p
    → record {
      once : Db;
      twice : Db;
      first_claim : claim_payment ref t1 db ≡ ok (some (stamp t1 p), once);
      second_claim : claim_payment ref t2 once ≡ ok (some (stamp t2 p), twice);
    }
unfolding claim_payment update_payments
claim_payment-not_exclusive ref t1 t2 db p found =
    let ps = update_where (is_claimable ref) (stamp t1) db.payments in
    record {
      once = record db { payments = ps };
      twice = record db { payments = update_where (is_claimable ref) (stamp t2) ps };
      first_claim = rw found;
      second_claim =
          rw (first-update_where (is_claimable ref) (stamp t1) db.payments (λ q. refl) found);
    }
