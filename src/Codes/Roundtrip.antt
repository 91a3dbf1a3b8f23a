-- ===== src/Codes/Roundtrip.antt =====
-- A payload that this server built is read back as its code, and a scan is accepted only with the
-- signature of its code.
use mathlib.Core.List.{map-append}
use ticketing_app.Prelude.{
  ℕ, zero, suc, ◌≡◌, ◌≢◌, refl, sym, ap, ◌∙◌, Bool, true, false, some, List, [], ◌∷◌, ◌++◌, map,
  ◌&&◌, ◌||◌, leb, ltb, ◌==◌, arith, All, All-mono, All-append, take, drop, length, all, ==_refl,
  inl, inr, Bool-cases, Option-cases,
}
use ticketing_app.Store.{Result, ok, err, and_then}
use ticketing_app.Codes.Text.{
  is_space, upper, trim, last_index_of, list_eq_refl, list_eq→eq, last_index_of-append, trim_solid,
}
use ticketing_app.Codes.Generate.{IsCodeChar}
use ticketing_app.Codes.Qr.{
  code_if, Hmac, sign, build_qr_payload, is_nil, signature_matches, parse_trimmed, parse_qr_payload,
}

-- The characters of base64url.
abbrev pub is_base64url : ℕ → Bool
is_base64url c =
    (leb b'A' c && leb c b'Z')
    || (leb b'a' c && leb c b'z')
    || (leb b'0' c && leb c b'9')
    || c == b'-'
    || c == b'_'

-- `digest('base64url')` writes base64url.
abbrev pub WritesBase64url : Hmac → Type 0
WritesBase64url hmac = (value : List ℕ) → All (λ (c : ℕ). is_base64url c ≡ true) (hmac value)

abbrev IsSignatureChar : ℕ → Type 0
IsSignatureChar c = (is_space c ≡ false) × (upper c ≢ b'.') × (ltb c 128 ≡ true)

base64url-IsSignatureChar : (c : ℕ) → is_base64url c ≡ true → IsSignatureChar c
unfolding is_space upper
base64url-IsSignatureChar c h = ground arith

pub All-take {ℓ} : (P : ℕ → Type ℓ) (n : ℕ) (s : List ℕ) → All P s → All P (take n s)
All-take P zero s h = tt
All-take P (suc n) [] h = tt
All-take P (suc n) (c ∷ s) h = (h.0, All-take P n s h.1)

pub All-drop {ℓ} : (P : ℕ → Type ℓ) (n : ℕ) (s : List ℕ) → All P s → All P (drop n s)
All-drop P zero s h = h
All-drop P (suc n) [] h = tt
All-drop P (suc n) (c ∷ s) h = All-drop P n s h.1

take-length : (s t : List ℕ) → take (length s) (s ++ t) ≡ s
take-length [] t = refl
take-length (c ∷ s) t = ap (λ (r : List ℕ). c ∷ r) (take-length s t)

drop-length : (s : List ℕ) (c : ℕ) (t : List ℕ) → drop (suc (length s)) (s ++ c ∷ t) ≡ t
drop-length [] c t = refl
drop-length (d ∷ s) c t = drop-length s c t

map-upper_code : (s : List ℕ) → All IsCodeChar s → map upper s ≡ s
map-upper_code [] h = refl
map-upper_code (c ∷ s) h = ground (arith, h.0.1, map-upper_code s h.1)

All-map-upper : (s : List ℕ) → All IsSignatureChar s → All (λ (c : ℕ). c ≢ b'.') (map upper s)
All-map-upper [] h = tt
All-map-upper (c ∷ s) h = (h.0.1, All-map-upper s h.1)

all_ascii : (s : List ℕ) → All IsSignatureChar s → all (λ c. ltb c 128) s ≡ true
all_ascii [] h = refl
all_ascii (c ∷ s) h = rw h.0.2 (all_ascii s h.1)

signature_matches_refl : (s : List ℕ) → All IsSignatureChar s → signature_matches s s ≡ ok true
unfolding signature_matches
signature_matches_refl s h = rw (==_refl (length s), all_ascii s h, list_eq_refl s)

is_nil-append : (s : List ℕ) (c : ℕ) (t : List ℕ) → is_nil (s ++ c ∷ t) ≡ false
is_nil-append [] c t = refl
is_nil-append (d ∷ s) c t = refl

module _ (hmac : Hmac) (writes : WritesBase64url hmac) (code : List ℕ)
    (clean : All IsCodeChar code) where
  signature-All : All IsSignatureChar (sign hmac code)
  unfolding sign
  signature-All =
      All-take IsSignatureChar 27 (hmac code)
        (All-mono (hmac code) base64url-IsSignatureChar (writes code))

  built_solid : trim (build_qr_payload hmac code) ≡ build_qr_payload hmac code
  unfolding build_qr_payload
  built_solid = trim_solid (code ++ b'.' ∷ sign hmac code) (
      All-append (λ c. is_space c ≡ false) code (b'.' ∷ sign hmac code)
        (All-mono code (λ c (h : IsCodeChar c). h.0) clean)
        (
          (unfold is_space in refl),
          All-mono (sign hmac code) (λ c (h : IsSignatureChar c). h.0) signature-All,
        ))

  built_upper : map upper (build_qr_payload hmac code) ≡ code ++ b'.' ∷ map upper (sign hmac code)
  unfolding build_qr_payload
  built_upper = rw (map-append, map-upper_code code clean) (unfold upper in refl)

  drop_built : drop (suc (length code)) (trim (build_qr_payload hmac code)) ≡ sign hmac code
  drop_built = rw built_solid (unfold build_qr_payload in drop-length code b'.' (sign hmac code))

  parse_trimmed-built :
      (allow_unsigned : Bool)
      → parse_trimmed hmac allow_unsigned
          (build_qr_payload hmac code)
          (code ++ b'.' ∷ map upper (sign hmac code))
        ≡ ok (some code)
  unfolding parse_trimmed
  parse_trimmed-built allow_unsigned = rw (
    parse_trimmed,
    last_index_of-append b'.' code (map upper (sign hmac code))
        (All-map-upper (sign hmac code) signature-All),
    take-length code (b'.' ∷ map upper (sign hmac code)),
    drop_built,
    signature_matches_refl (sign hmac code) signature-All,
  )

  -- What `buildQrPayload` makes of a code, `parseQrPayload` reads as that code, whether or not
  -- unsigned codes are accepted. The code is in the characters that `generateTicketCode` uses, and
  -- the digest is base64url.
  pub parse-build :
      (allow_unsigned : Bool)
      → parse_qr_payload hmac (build_qr_payload hmac code) allow_unsigned ≡ ok (some code)
  unfolding parse_qr_payload
  parse-build allow_unsigned =
      rw
        (
          ap (map upper) built_solid,
          built_upper,
          is_nil-append code b'.' (map upper (sign hmac code)),
        )
        (parse_trimmed-built allow_unsigned)

-- What a scan is accepted for: the payload has a separator, the code is what stands before the last
-- one, and what stands behind it is the signature of the code.
abbrev pub IsSignedFor : Hmac → List ℕ → List ℕ → Type 0
IsSignedFor hmac payload code =
    (separator : ℕ) × (last_index_of b'.' (map upper (trim payload)) ≡ some separator)
    × (code ≡ take separator (map upper (trim payload)))
    × (drop (suc separator) (trim payload) ≡ sign hmac code)

signature_matches_sound : (s t : List ℕ) → signature_matches s t ≡ ok true → s ≡ t
unfolding signature_matches
signature_matches_sound s t h = list_eq→eq s t (ground (arith, h))

code_if_sound :
    (r : Result Bool) (c code : List ℕ)
    → and_then r (code_if c) ≡ ok (some code)
    → (r ≡ ok true) × (code ≡ c)
code_if_sound (ok true) c code h = (refl, cc)
code_if_sound (ok false) c code h = absurd (cc)
code_if_sound (err e) c code h = absurd (cc)

parse_trimmed_sound :
    (hmac : Hmac) (payload code : List ℕ)
    → parse_trimmed hmac false payload (map upper (trim payload)) ≡ ok (some code)
    → IsSignedFor hmac payload code
unfolding parse_trimmed
parse_trimmed_sound hmac payload code h =
    elim (Option-cases (last_index_of b'.' (map upper (trim payload)))) [
      | inl absent ↦ absurd (cc (rw (parse_trimmed, absent) at h))
      | inr (separator, found) ↦
          let accepted =
            code_if_sound _ (take separator (map upper (trim payload))) code
              (rw (parse_trimmed, found) at h) in
          (
            separator,
            found,
            accepted.1,
            signature_matches_sound _ _ accepted.0 ∙ ap (sign hmac) (sym accepted.1),
          )
    ]

-- A scan is accepted only with the signature of its code: a payload without a separator, or with
-- anything else behind it, is never read as a code.
pub parse_qr_payload_sound :
    (hmac : Hmac) (payload code : List ℕ)
    → parse_qr_payload hmac payload false ≡ ok (some code)
    → IsSignedFor hmac payload code
unfolding parse_qr_payload
parse_qr_payload_sound hmac payload code h = elim (Bool-cases (is_nil (map upper (trim payload)))) [
  | inl empty ↦ absurd (cc (rw empty at h))
  | inr present ↦ parse_trimmed_sound hmac payload code (rw present at h)
]
