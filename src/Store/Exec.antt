-- ===== src/Store/Exec.antt =====
-- What a service function does outside a transaction: it runs whole transactions and calls the
-- queues, one after the other, and what was done before a throw stays done.
use ticketing_app.Prelude.{ℕ, String, Option, none, some, Bool, true, false, List, [], ◌∷◌, ◌++◌}
use ticketing_app.Schema.{Db}
use ticketing_app.Store.Errors.{Failure, Result, ok, err, thrown}
use ticketing_app.Store.Tx.{Tx}

-- The calls that leave the process for Redis: the jobs of src/queue/queues.ts, and the cache.
pub data Call : Type 0 where
  cancel_order_expiry : ℕ → Call
  invalidate_event : ℕ → Call
  notify_order_failed : ℕ → String → Call
  notify_tickets_issued : ℕ → Call
  enqueue_ticket_issuance : ℕ → Call
  schedule_order_expiry : ℕ → ℕ → Call
  schedule_reconcile : ℕ → ℕ → Call

-- The database, the calls that Redis has accepted, and whether it accepts any.
pub record World : Type 0 where
  pub db : Db
  pub calls : List Call
  pub redis_up : Bool

abbrev pub Exec : Type 0 → Type 0
Exec A = World → Result A × World

module _ {A : Type 0} where
  abbrev pub pure : A → Exec A
  pure a w = (ok a, w)

  abbrev pub throw : Failure → Exec A
  throw e w = (err e, w)

  abbrev pub gets : (Db → A) → Exec A
  gets f w = (ok (f w.db), w)

  -- The value of a function that returns or throws.
  abbrev pub of_result : Result A → Exec A
  of_result r w = (r, w)

  -- `if (!row) throw e`
  abbrev pub of_option : Option A → Failure → Exec A
  of_option none e = throw e
  of_option (some a) e = pure a

  abbrev pub commit_or_roll_back : Result (A × Db) → World → Result A × World
  commit_or_roll_back (ok (a, db)) w = (ok a, record w { db = db })
  commit_or_roll_back (err e) w = (err e, w)

  -- withTransaction of src/db/client.ts; also a statement of its own, which is one transaction
  abbrev pub with_transaction : Tx A → Exec A
  with_transaction t w = commit_or_roll_back (t w.db) w

abbrev pub continue : {A B : Type 0} → Result A → World → (A → Exec B) → Result B × World
continue (ok a) w f = f a w
continue (err e) w f = (err e, w)

infixl 5 ◌>>=◌ ◌>>◌
abbrev pub ◌>>=◌ : {A B : Type 0} → Exec A → (A → Exec B) → Exec B
◌>>=◌ m f w = let (r, w') = m w in continue r w' f

abbrev pub ◌>>◌ : {A B : Type 0} → Exec A → Exec B → Exec B
m >> n = m >>= λ _. n

abbrev pub handle : {A : Type 0} → Result A → World → (Failure → Exec A) → Result A × World
handle (ok a) w h = (ok a, w)
handle (err e) w h = h e w

-- try { m } catch (e) { h(e) }
abbrev pub try_catch : {A : Type 0} → Exec A → (Failure → Exec A) → Exec A
try_catch m h w = let (r, w') = m w in handle r w' h

abbrev pub throw_if : Bool → Failure → Exec Unit
throw_if true e = throw e
throw_if false e = pure tt

-- A call that throws when Redis does not answer.
abbrev pub call_when : Bool → Call → Exec Unit
call_when true c w = (ok tt, record w { calls = w.calls ++ c ∷ [] })
call_when false c w = (err thrown, w)

abbrev pub call : Call → Exec Unit
call c w = call_when w.redis_up c w

-- A call that is best effort: it throws nothing.
abbrev pub call_quietly_when : Bool → Call → Exec Unit
call_quietly_when true c w = (ok tt, record w { calls = w.calls ++ c ∷ [] })
call_quietly_when false c w = (ok tt, w)

abbrev pub call_quietly : Call → Exec Unit
call_quietly c w = call_quietly_when w.redis_up c w

-- `m.catch(() => {})`
abbrev pub quietly : {A : Type 0} → Exec A → Exec Unit
quietly m = try_catch (m >> pure tt) (λ _. pure tt)
