-- ===== src/Store/Errors.antt =====
-- src/lib/errors.ts: the errors that carry an HTTP status and a stable code, beside those that
-- PostgreSQL raises with an SQLSTATE code, and any other exception.
use ticketing_app.Prelude.{ℕ, String, ◌≡◌, ◌⊎◌, inl, inr, refl, Bool, true, false, ◌||◌, str_eq}

pub record AppError : Type 0 where
  pub status_code : ℕ
  pub code : String
  pub retryable : Bool

pub data Failure : Type 0 where
  app : AppError → Failure
  pg : String → Failure
  thrown : Failure

pub data Result {ℓ} (A : Type ℓ) : Type ℓ where
  ok : A → Result A
  err : Failure → Result A

abbrev pub bad_request : Failure
bad_request = app (record { status_code = 400; code = "bad_request"; retryable = false })

abbrev pub forbidden : Failure
forbidden = app (record { status_code = 403; code = "forbidden"; retryable = false })

abbrev pub not_found : Failure
not_found = app (record { status_code = 404; code = "not_found"; retryable = false })

-- `retryable` defaults to false
abbrev pub conflict : String → Bool → Failure
conflict code retryable = app (record { status_code = 409; code = code; retryable = retryable })

abbrev pub error_503 : String → Bool → Failure
error_503 code retryable = app (record { status_code = 503; code = code; retryable = retryable })

-- SQLSTATE of a violated CHECK constraint, unique index or foreign key, and of a text that is no
-- value of its column's type
abbrev pub check_violation : Failure
check_violation = pg "23514"

abbrev pub unique_violation : Failure
unique_violation = pg "23505"

abbrev pub foreign_key_violation : Failure
foreign_key_violation = pg "23503"

abbrev pub invalid_text : Failure
invalid_text = pg "22P02"

-- isRetryablePgError
pub is_retryable_pg_error : Failure → Bool
is_retryable_pg_error (pg code) = str_eq code "55P03" || str_eq code "40P01" || str_eq code "40001"
is_retryable_pg_error _ = false

-- isUniqueViolation: `code` is a field of an AppError too
abbrev pub is_unique_violation : Failure → Bool
is_unique_violation (pg code) = str_eq code "23505"
is_unique_violation (app e) = str_eq e.code "23505"
is_unique_violation thrown = false

-- `error instanceof AppError`
abbrev pub is_app_error : Failure → Bool
is_app_error (app e) = true
is_app_error _ = false

-- Continue with the value of a success.
abbrev pub and_then {ℓ κ} : {A : Type ℓ} {B : Type κ} → Result A → (A → Result B) → Result B
and_then (ok a) f = f a
and_then (err e) f = err e

pub ok-injective {ℓ} : {A : Type ℓ} {a b : A} → ok a ≡ ok b → a ≡ b
ok-injective h = cc

pub Result-cases {ℓ} :
    {A : Type ℓ} (r : Result A) → ((a : A) × (r ≡ ok a)) ⊎ ((e : Failure) × (r ≡ err e))
Result-cases (ok a) = inl (a, refl)
Result-cases (err e) = inr (e, refl)
