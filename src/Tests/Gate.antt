-- ===== src/Tests/Gate.antt =====
-- The theorems on codes and tickets at the shop.
use ticketing_app.Prelude.{
  ℕ, ◌+◌, ◌≤◌, ◌%◌, String, ◌≡◌, refl, true, false, none, some, List, [], ◌∷◌, map, arith,
}
use ticketing_app.Schema.{TicketStatus}
use ticketing_app.Store.{ok}
use ticketing_app.Codes.Text.{trim, last_index_of, upper, list_eq}
use ticketing_app.Codes.Generate.{generate_ticket_code}
use ticketing_app.Codes.Qr.{Hmac, build_qr_payload, parse_qr_payload}
use ticketing_app.Codes.Roundtrip.{WritesBase64url, IsSignedFor, parse_qr_payload_sound}
use ticketing_app.Codes.Issued.{scan-issued}
use ticketing_app.Ledger.Record.{record_transition}
use ticketing_app.Tickets.CheckIn.{
  Entry, CheckInOptions, CheckInResult, check_in_ticket, ticket_checked_in, admitted, view_of,
}
use ticketing_app.Tickets.Admission.{Admits}
use ticketing_app.Tickets.Steps.{present, withdraw, admissions}
use ticketing_app.Tickets.Once.{admissions-at_most_once}
use ticketing_app.Tickets.Gate.{check_in_ticket-Admits}
use ticketing_app.Tests.Shop.{bytes, badge, shop, world}

abbrev pub digest : Hmac
digest = map (λ c. b'a' + c % 26)

digest-WritesBase64url : WritesBase64url digest
digest-WritesBase64url [] = tt
digest-WritesBase64url (c ∷ cs) = (ground arith, digest-WritesBase64url cs)

scan-issued_example :
    parse_qr_payload digest (build_qr_payload digest (generate_ticket_code bytes)) false
    ≡ ok (some (generate_ticket_code bytes))
scan-issued_example = scan-issued digest digest-WritesBase64url bytes false

parse_qr_payload_sound_example : IsSignedFor digest (build_qr_payload digest badge.code) badge.code
parse_qr_payload_sound_example =
    parse_qr_payload_sound digest (build_qr_payload digest badge.code) badge.code
      (scan-issued digest digest-WritesBase64url bytes false)

abbrev iso : ℕ → String
iso _ = "1970-01-01T00:00:00.000Z"

abbrev gate : CheckInOptions
gate = record { event_id = some 1; scanned_by = some "north"; entry = Entry.scan }

abbrev payload : List ℕ
payload = build_qr_payload digest badge.code

admissions-at_most_once_example :
    admissions digest iso badge.code
      (present payload gate 60 ∷ present payload gate 61 ∷ withdraw badge.code none "admin" ∷ [])
      world
    ≤ 1
admissions-at_most_once_example =
    admissions-at_most_once digest iso badge.code
      (present payload gate 60 ∷ present payload gate 61 ∷ withdraw badge.code none "admin" ∷ [])
      world

abbrev pass : CheckInResult
pass = record {
  admitted = true;
  reason = none;
  ticket = record {
    code = badge.code;
    holder_name = some "Wanjiru";
    tier_name = "Standard";
    event_id = 1;
    status = TicketStatus.checked_in;
    checked_in_at = some 60;
    checked_in_by = some "north";
  };
}

check_in_ticket-Admits_example :
    (code : List ℕ) × IsSignedFor digest payload code
    × Admits iso gate 60 code shop pass (check_in_ticket iso gate 60 digest payload world).1.db
unfolding check_in_ticket parse_qr_payload trim build_qr_payload generate_ticket_code last_index_of
    upper list_eq record_transition ticket_checked_in admitted view_of
check_in_ticket-Admits_example =
    check_in_ticket-Admits digest iso gate 60 payload world pass
      (check_in_ticket iso gate 60 digest payload world).1 refl refl refl
