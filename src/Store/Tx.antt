-- ===== src/Store/Tx.antt =====
-- What runs inside a transaction: it reads and writes the database, or throws. What a transaction
-- that throws has written is rolled back, so an error carries no database.
use ticketing_app.Prelude.{◌≡◌, refl, Option, none, some, Bool, true, false}
use ticketing_app.Schema.{Db}
use ticketing_app.Store.Errors.{Failure, Result, ok, err, and_then}

abbrev pub Tx : Type 0 → Type 0
Tx A = Db → Result (A × Db)

module _ {A : Type 0} where
  abbrev pub pure : A → Tx A
  pure a db = ok (a, db)

  abbrev pub throw : Failure → Tx A
  throw e db = err e

  abbrev pub gets : (Db → A) → Tx A
  gets f db = ok (f db, db)

  -- `if (!row) throw e`
  abbrev pub or_throw : Option A → Failure → Tx A
  or_throw none e = throw e
  or_throw (some a) e = pure a

abbrev pub modify : (Db → Db) → Tx Unit
modify f db = ok (tt, f db)

abbrev pub throw_if : Bool → Failure → Tx Unit
throw_if true e = throw e
throw_if false e = pure tt

abbrev pub run {ℓ} : {A : Type 0} {B : Type ℓ} → (A → Db → Result B) → A × Db → Result B
run f (a, db) = f a db

infixl 5 ◌>>=◌ ◌>>◌
abbrev pub ◌>>=◌ : {A B : Type 0} → Tx A → (A → Tx B) → Tx B
◌>>=◌ m f db = and_then (m db) (run f)

abbrev pub ◌>>◌ : {A B : Type 0} → Tx A → Tx B → Tx B
m >> n = m >>= λ _. n

-- A successful block is a successful first step and a successful rest.
pub >>=-eq-ok :
    {A B : Type 0} (m : Tx A) (f : A → Tx B) (db : Db) {r : B × Db}
    → (m >>= f) db ≡ ok r
    → (p : A × Db) × (m db ≡ ok p) × (f p.0 p.1 ≡ ok r)
>>=-eq-ok {A} {B} m f db {r} h = go (m db) refl h
  where
    go :
        (s : Result (A × Db))
        → m db ≡ s
        → and_then s (run f) ≡ ok r
        → (p : A × Db) × (m db ≡ ok p) × (f p.0 p.1 ≡ ok r)
    go (ok p) e k = (p, e, k)
    go (err x) e k = absurd (cc)
