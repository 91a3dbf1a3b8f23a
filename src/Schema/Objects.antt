-- ===== src/Schema/Objects.antt =====
-- Objects of the `metadata` column: `metadata?.key === true` and `{ ...metadata, key: value }`.
use ticketing_app.Prelude.{
  Bool, true, false, String, Option, none, some, str_eq, if◌then◌else◌, ◌≡◌, arith, eq_iff,
}
use text.Mathlib.TextPositions.{eq_refl}
use ticketing_app.Schema.Rows.{Json, Object, end, field}

abbrev pub is_true : Json → Bool
is_true (Json.bool b) = b
is_true _ = false

-- object.key === true
unfoldable pub flag : String → Object → Bool
flag key end = false
flag key (field k v o) = if str_eq k key then is_true v else flag key o

unfoldable pub set : String → Json → Object → Object
set key v end = field key v end
set key v (field k w o) = if str_eq k key then field key v o else field k w (set key v o)

abbrev pub or_empty : Option Object → Object
or_empty none = end
or_empty (some o) = o

-- metadata?.refundRequired === true
unfoldable pub refund_required : Option Object → Bool
unfolding flag
refund_required none = false
refund_required (some o) = flag "refundRequired" o

flag-set : (key : String) (o : Object) → flag key (set key (Json.bool true) o) ≡ true
unfolding flag set
flag-set key end = rw (eq_refl key)
flag-set key (field k v o) = ground (arith, eq_iff k key, flag-set key o, eq_refl key)

-- `{ ...metadata, refundRequired: true }` is flagged.
pub refund_required-set :
    (m : Option Object)
    → refund_required (some (set "refundRequired" (Json.bool true) (or_empty m))) ≡ true
unfolding refund_required
refund_required-set m = flag-set "refundRequired" (or_empty m)
