-- ===== src/Codes/Qr.antt =====
-- `sign`, `buildQrPayload` and `parseQrPayload`.
use ticketing_app.Prelude.{
  ℕ, suc, Bool, true, false, Option, none, some, List, [], ◌∷◌, ◌++◌, map, ltb, ◌==◌, if◌then◌else◌,
  take, drop, length, all,
}
use ticketing_app.Store.{Result, ok, err, thrown, and_then}
use ticketing_app.Codes.Text.{upper, trim, last_index_of, list_eq}

-- `createHmac('sha256', secret).update(value).digest('base64url')`, with the secret of the process
abbrev pub Hmac : Type 0
Hmac = List ℕ → List ℕ

-- sign
unfoldable pub sign : Hmac → List ℕ → List ℕ
sign hmac value = take 27 (hmac value)

-- buildQrPayload
unfoldable pub build_qr_payload : Hmac → List ℕ → List ℕ
unfolding sign
build_qr_payload hmac code = code ++ b'.' ∷ sign hmac code

abbrev is_ascii : ℕ → Bool
is_ascii c = ltb c 128

-- `provided.length !== expected.length || !crypto.timingSafeEqual(…)`, negated. A text of the same
-- length with a character beyond ASCII has more bytes, and `timingSafeEqual` throws.
unfoldable pub signature_matches : List ℕ → List ℕ → Result Bool
signature_matches provided expected =
    if length provided == length expected
    then (if all is_ascii provided then ok (list_eq provided expected) else err thrown)
    else ok false

abbrev pub code_if : List ℕ → Bool → Result (Option (List ℕ))
code_if code true = ok (some code)
code_if code false = ok none

-- The part of `parseQrPayload` from the search for the separator on.
unfoldable pub parse_trimmed : Hmac → Bool → List ℕ → List ℕ → Result (Option (List ℕ))
unfolding sign signature_matches
parse_trimmed hmac allow_unsigned payload trimmed = elim (last_index_of b'.' trimmed) [
  | none ↦ ok (if allow_unsigned then some trimmed else none)
  | some separator ↦
      let code = take separator trimmed in
      and_then (signature_matches (drop (suc separator) (trim payload)) (sign hmac code))
        (code_if code)
]

abbrev pub is_nil : List ℕ → Bool
is_nil [] = true
is_nil (_ ∷ _) = false

-- parseQrPayload
unfoldable pub parse_qr_payload : Hmac → List ℕ → Bool → Result (Option (List ℕ))
unfolding parse_trimmed
parse_qr_payload hmac payload allow_unsigned =
    let trimmed = map upper (trim payload) in
    if is_nil trimmed then ok none else parse_trimmed hmac allow_unsigned payload trimmed
