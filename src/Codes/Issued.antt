-- ===== src/Codes/Issued.antt =====
-- The codes that `generateTicketCode` makes are in the characters that scanning leaves alone.
use ticketing_app.Prelude.{
  ℕ, zero, suc, ◌%◌, ◌<◌, ◌≡◌, refl, Bool, true, some, List, [], ◌∷◌, arith, All, All-append, take,
  drop, length, not, ◌&&◌, ◌==◌, ==_iff, all, all-cons,
}
use ticketing_app.Store.{ok}
use ticketing_app.Codes.Text.{is_space, upper}
use ticketing_app.Codes.Generate.{IsCodeChar, random_code, generate_ticket_code, char_at, alphabet}
use ticketing_app.Codes.Qr.{Hmac, build_qr_payload, parse_qr_payload}
use ticketing_app.Codes.Roundtrip.{WritesBase64url, All-take, All-drop, parse-build}

All-char_at : (cs : List ℕ) (i : ℕ) → All IsCodeChar cs → i < length cs → IsCodeChar (char_at cs i)
unfolding char_at
All-char_at [] i h lt = absurd (omega (arith, lt))
All-char_at (c ∷ cs) zero h lt = h.0
All-char_at (c ∷ cs) (suc i) h lt = All-char_at cs i h.1 (omega (arith, lt))

is_plain : ℕ → Bool
is_plain c = not (is_space c) && upper c == c && not (c == b'.')

is_plain-IsCodeChar : (cs : List ℕ) → all is_plain cs ≡ true → All IsCodeChar cs
unfolding is_plain
is_plain-IsCodeChar [] h = tt
is_plain-IsCodeChar (c ∷ cs) h =
    let both = all-cons is_plain c cs h in
    (
      (
        (ground (arith, both.0)),
        (ground (arith, ==_iff (upper c) c, both.0)),
        (ground (arith, both.0)),
      ),
      is_plain-IsCodeChar cs both.1,
    )

alphabet-All : All IsCodeChar alphabet
unfolding is_plain is_space upper
alphabet-All = is_plain-IsCodeChar alphabet refl

random_code-All : (bytes : List ℕ) → All IsCodeChar (random_code bytes)
unfolding random_code
random_code-All [] = tt
random_code-All (b ∷ bs) =
    (All-char_at alphabet (b % 32) alphabet-All (omega arith), random_code-All bs)

dash-IsCodeChar : IsCodeChar b'-'
unfolding is_space upper
dash-IsCodeChar = (refl, refl, refl)

generate_ticket_code-All : (bytes : List ℕ) → All IsCodeChar (generate_ticket_code bytes)
unfolding generate_ticket_code
generate_ticket_code-All bytes =
    let raw = random_code-All bytes in
    All-append IsCodeChar (take 4 (random_code bytes)) _
      (All-take IsCodeChar 4 (random_code bytes) raw)
      (
        dash-IsCodeChar,
        All-append IsCodeChar (take 4 (drop 4 (random_code bytes))) _
            (All-take IsCodeChar 4 (drop 4 (random_code bytes))
              (All-drop IsCodeChar 4 (random_code bytes) raw))
            (
              dash-IsCodeChar,
              All-take IsCodeChar 4 (drop 8 (random_code bytes))
                  (All-drop IsCodeChar 8 (random_code bytes) raw),
            ),
      )

-- The QR payload of every ticket code that `generateTicketCode` makes is scanned as that code,
-- whatever the random bytes, if the digest is base64url.
pub scan-issued :
    (hmac : Hmac)
    → WritesBase64url hmac
    → (bytes : List ℕ) (allow_unsigned : Bool)
    → let code = generate_ticket_code bytes in
      parse_qr_payload hmac (build_qr_payload hmac code) allow_unsigned ≡ ok (some code)
scan-issued hmac writes bytes allow_unsigned =
    parse-build hmac writes (generate_ticket_code bytes) (generate_ticket_code-All bytes)
      allow_unsigned
