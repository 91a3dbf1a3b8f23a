-- ===== src/Store/Keeps.antt =====
-- Invariants of the database under service functions, whether they return or throw: a rule for
-- each way to build one.
use ticketing_app.Prelude.{◌≡◌, refl, subst, Option, none, some, Bool, true, false, if◌then◌else◌}
use ticketing_app.Schema.{Db}
use ticketing_app.Store.Errors.{Failure, Result, ok, err}
use ticketing_app.Store.Tx
use ticketing_app.Store.Tx.{Tx, >>=-eq-ok}
use ticketing_app.Store.Exec.{
  World, Exec, Call, pure, throw, throw_if, of_result, of_option, gets, with_transaction,
  commit_or_roll_back, continue, handle, try_catch, call, call_when, call_quietly,
  call_quietly_when, quietly, ◌>>=◌, ◌>>◌,
}

-- A transaction that does not fail keeps `P`.
pub record TxKeeps {A : Type 0} (P : Db → Type 0) (t : Tx A) : Type 0 where
  pub at : (db : Db) (r : A) (db' : Db) → P db → t db ≡ ok (r, db') → P db'

pub record Keeps {A : Type 0} (P : Db → Type 0) (m : Exec A) : Type 0 where
  pub at : (w : World) → P w.db → P (m w).1.db

result_db : {A : Type 0} {p q : A × Db} → ok p ≡ ok q → p.1 ≡ q.1
result_db e = cc

module _ {A : Type 0} {P : Db → Type 0} where
  pub Keeps-pure : (a : A) → Keeps P (pure a)
  Keeps-pure a = record { at = λ w h. h }

  pub Keeps-throw : (e : Failure) → Keeps P (throw {A = A} e)
  Keeps-throw e = record { at = λ w h. h }

  pub Keeps-gets : (f : Db → A) → Keeps P (gets f)
  Keeps-gets f = record { at = λ w h. h }

  pub Keeps-of_result : (r : Result A) → Keeps P (of_result r)
  Keeps-of_result r = record { at = λ w h. h }

  pub Keeps-of_option : (o : Option A) (e : Failure) → Keeps P (of_option o e)
  Keeps-of_option none e = record { at = λ w h. h }
  Keeps-of_option (some a) e = record { at = λ w h. h }

  committed :
      (s : Result (A × Db)) (w : World)
      → ((r : A) (db' : Db) → s ≡ ok (r, db') → P db')
      → P w.db
      → P (commit_or_roll_back s w).1.db
  committed (ok (a, db)) w keep h = keep a db refl
  committed (err e) w keep h = h

  pub Keeps-with_transaction : (t : Tx A) → TxKeeps P t → Keeps P (with_transaction t)
  Keeps-with_transaction t k = record {
    at = λ w h. committed (t w.db) w (λ r db' e. k.at w.db r db' h e) h;
  }

  handled :
      (r : Result A) (w : World) (h : Failure → Exec A)
      → ((e : Failure) → Keeps P (h e))
      → P w.db
      → P (handle r w h).1.db
  handled (ok a) w h k p = p
  handled (err e) w h k p = (k e).at w p

  pub Keeps-try_catch :
      (m : Exec A) (h : Failure → Exec A)
      → Keeps P m
      → ((e : Failure) → Keeps P (h e))
      → Keeps P (try_catch m h)
  Keeps-try_catch m h km kh = record {
    at = λ w p. let (r, w') = m w in handled r w' h kh (km.at w p);
  }

  pub Keeps-if : (b : Bool) (m n : Exec A) → Keeps P m → Keeps P n → Keeps P (if b then m else n)
  Keeps-if true m n km kn = km
  Keeps-if false m n km kn = kn

module _ {A B : Type 0} {P : Db → Type 0} where
  continued :
      (r : Result A) (w : World) (f : A → Exec B)
      → ((a : A) → Keeps P (f a))
      → P w.db
      → P (continue r w f).1.db
  continued (ok a) w f k p = (k a).at w p
  continued (err e) w f k p = p

  pub Keeps-bind :
      (m : Exec A) (f : A → Exec B) → Keeps P m → ((a : A) → Keeps P (f a)) → Keeps P (m >>= f)
  Keeps-bind m f km kf = record { at = λ w p. let (r, w') = m w in continued r w' f kf (km.at w p) }

called : (P : Db → Type 0) (b : Bool) (c : Call) (w : World) → P w.db → P (call_when b c w).1.db
called P true c w h = h
called P false c w h = h

called_quietly :
    (P : Db → Type 0) (b : Bool) (c : Call) (w : World) → P w.db → P (call_quietly_when b c w).1.db
called_quietly P true c w h = h
called_quietly P false c w h = h

module _ {P : Db → Type 0} where
  pub Keeps-call : (c : Call) → Keeps P (call c)
  Keeps-call c = record { at = λ w. called P w.redis_up c w }

  pub Keeps-call_quietly : (c : Call) → Keeps P (call_quietly c)
  Keeps-call_quietly c = record { at = λ w. called_quietly P w.redis_up c w }

module _ {P : Db → Type 0} where
  pub Keeps-throw_if : (b : Bool) (e : Failure) → Keeps P (throw_if b e)
  Keeps-throw_if true e = record { at = λ w h. h }
  Keeps-throw_if false e = record { at = λ w h. h }

-- From a database in `P`, one in `Q` is left.
pub record Turns {A : Type 0} (P Q : Db → Type 0) (m : Exec A) : Type 0 where
  pub at : (w : World) → P w.db → Q (m w).1.db

module _ {A : Type 0} {P Q : Db → Type 0} where
  pub Turns-Keeps : (m : Exec A) → Keeps P m → ((db : Db) → P db → Q db) → Turns P Q m
  Turns-Keeps m k weak = record { at = λ w h. weak (m w).1.db (k.at w h) }

module _ {A B : Type 0} {P Q : Db → Type 0} where
  turned :
      (r : Result A) (w : World) (f : A → Exec B)
      → ((a : A) → Turns P Q (f a))
      → ((db : Db) → P db → Q db)
      → P w.db
      → Q (continue r w f).1.db
  turned (ok a) w f k weak p = (k a).at w p
  turned (err e) w f k weak p = weak w.db p

  pub Turns-bind :
      (m : Exec A) (f : A → Exec B)
      → ((db : Db) → P db → Q db)
      → Keeps P m
      → ((a : A) → Turns P Q (f a))
      → Turns P Q (m >>= f)
  Turns-bind m f weak km kf = record {
    at = λ w p. let (r, w') = m w in turned r w' f kf weak (km.at w p);
  }

-- The same for the body of a transaction.
module _ {A : Type 0} {P : Db → Type 0} where
  pub TxKeeps-pure : (a : A) → TxKeeps P (Tx.pure a)
  TxKeeps-pure a = record { at = λ db r db' h e. subst P (result_db e) h }

  pub TxKeeps-gets : (f : Db → A) → TxKeeps P (Tx.gets f)
  TxKeeps-gets f = record { at = λ db r db' h e. subst P (result_db e) h }

module _ {P : Db → Type 0} where
  pub TxKeeps-throw_if : (b : Bool) (x : Failure) → TxKeeps P (Tx.throw_if b x)
  TxKeeps-throw_if true x = record { at = λ db r db' h e. absurd (cc) }
  TxKeeps-throw_if false x = record { at = λ db r db' h e. subst P (result_db e) h }

  pub TxKeeps-modify : (f : Db → Db) → ((db : Db) → P db → P (f db)) → TxKeeps P (Tx.modify f)
  TxKeeps-modify f keep = record { at = λ db r db' h e. subst P (result_db e) (keep db h) }

module _ {A B : Type 0} {P : Db → Type 0} where
  pub TxKeeps-bind :
      (m : Tx A) (f : A → Tx B)
      → TxKeeps P m
      → ((a : A) → TxKeeps P (f a))
      → TxKeeps P (Tx.◌>>=◌ m f)
  TxKeeps-bind m f km kf = record {
    at = λ db r db' h e.
        let p = >>=-eq-ok m f db e in (kf p.0.0).at p.0.1 r db' (km.at db p.0.0 p.0.1 h p.1) p.2;
  }

pub ruleset tx_rules = (TxKeeps-pure, TxKeeps-gets, TxKeeps-throw_if, TxKeeps-bind)

module _ {A : Type 0} {P : Db → Type 0} where
  pub Keeps-quietly : (m : Exec A) → Keeps P m → Keeps P (quietly m)
  Keeps-quietly m k =
      Keeps-try_catch (m >> pure tt) (λ _. pure tt)
        (Keeps-bind m (λ _. pure tt) k (λ _. Keeps-pure tt)) (λ _. Keeps-pure tt)

pub ruleset keeps_rules = (
  Keeps-pure, Keeps-throw, Keeps-of_result, Keeps-of_option, Keeps-throw_if, Keeps-gets,
  Keeps-with_transaction, Keeps-try_catch, Keeps-if, Keeps-bind, Keeps-quietly, Keeps-call,
  Keeps-call_quietly,
)
