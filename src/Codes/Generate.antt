-- ===== src/Codes/Generate.antt =====
-- `randomCode`, `generateOrderReference` and `generateTicketCode`, given the random bytes.
use ticketing_app.Prelude.{
  ℕ, zero, suc, ◌%◌, ◌≡◌, false, List, [], ◌∷◌, ◌++◌, map, ◌==◌, take, drop,
}
use ticketing_app.Codes.Text.{is_space, upper}

-- ALPHABET: Crockford's base 32, without I, L, O and U
abbrev pub alphabet : List ℕ
alphabet =
    b'0' ∷ b'1' ∷ b'2' ∷ b'3' ∷ b'4' ∷ b'5' ∷ b'6' ∷ b'7' ∷ b'8' ∷ b'9' ∷ b'A' ∷ b'B' ∷ b'C' ∷ b'D'
    ∷ b'E' ∷ b'F' ∷ b'G' ∷ b'H' ∷ b'J' ∷ b'K' ∷ b'M' ∷ b'N' ∷ b'P' ∷ b'Q' ∷ b'R' ∷ b'S' ∷ b'T'
    ∷ b'V' ∷ b'W' ∷ b'X' ∷ b'Y' ∷ b'Z' ∷ []

-- `ALPHABET[i]`, where `i` is in range
unfoldable pub char_at : List ℕ → ℕ → ℕ
char_at [] i = 0
char_at (c ∷ cs) zero = c
char_at (c ∷ cs) (suc i) = char_at cs i

-- randomCode, on the bytes that `crypto.randomBytes` returns
unfoldable pub random_code : List ℕ → List ℕ
unfolding char_at
random_code bytes = map (λ b. char_at alphabet (b % 32)) bytes

-- generateOrderReference, on 8 bytes: `TKT-` and the code
unfoldable pub generate_order_reference : List ℕ → List ℕ
unfolding random_code
generate_order_reference bytes = b'T' ∷ b'K' ∷ b'T' ∷ b'-' ∷ random_code bytes

-- generateTicketCode, on 12 bytes: three groups of four
unfoldable pub generate_ticket_code : List ℕ → List ℕ
unfolding random_code
generate_ticket_code bytes =
    let raw = random_code bytes in
    take 4 raw ++ b'-' ∷ (take 4 (drop 4 raw) ++ b'-' ∷ take 4 (drop 8 raw))

-- A character that scanning leaves alone: no space, no separator, no lower-case letter.
abbrev pub IsCodeChar : ℕ → Type 0
IsCodeChar c = (is_space c ≡ false) × (upper c ≡ c) × ((c == b'.') ≡ false)
