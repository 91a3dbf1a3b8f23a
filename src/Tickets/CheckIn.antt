-- ===== src/Tickets/CheckIn.antt =====
-- `checkInTicket`.
use ticketing_app.Prelude.{
  ℕ, String, Bool, true, false, Option, none, some, List, [], ◌∷◌, ◌&&◌, first, update_where,
  if◌then◌else◌, ◌==◌, not, str_eq,
}
use Prim.Native.String.{◌++◌ as str_append}
use ticketing_app.Schema.{
  Db, Order, OrderItem, Ticket, TicketStatus, LedgerEntity, EntityId, Transition, Json, Object,
  is_paid, is_issued,
}
use ticketing_app.Store.{Result, ok, err, bad_request, conflict, not_found}
use ticketing_app.Store.Tx.{Tx, pure, throw_if, gets, modify, or_throw, ◌>>=◌, ◌>>◌}
use ticketing_app.Store.Exec
use ticketing_app.Ledger.Record.{record_transition}
use ticketing_app.Inventory.Release.{order_by_id}
use ticketing_app.Codes.Text.{list_eq}
use ticketing_app.Codes.Qr.{Hmac, parse_qr_payload}
use ticketing_app.Tickets.Issue.{name_or_default}

pub data Entry : Type 0 where
  scan manual : Entry

pub data Refusal : Type 0 where
  already_checked_in void order_not_paid : Refusal

-- The options of `checkInTicket`, with the default of `entry` filled in: `scan`
pub record CheckInOptions : Type 0 where
  pub event_id : Option ℕ
  pub scanned_by : Option String
  pub entry : Entry

pub record TicketView : Type 0 where
  pub code : List ℕ
  pub holder_name : Option String
  pub tier_name : String
  pub event_id : ℕ
  pub status : TicketStatus
  pub checked_in_at : Option ℕ
  pub checked_in_by : Option String

pub record CheckInResult : Type 0 where
  pub admitted : Bool
  pub reason : Option Refusal
  pub ticket : TicketView

abbrev pub is_manual : Entry → Bool
is_manual Entry.manual = true
is_manual Entry.scan = false

abbrev entry_text : Entry → String
entry_text Entry.manual = "manual"
entry_text Entry.scan = "scan"

abbrev pub is_void : TicketStatus → Bool
is_void TicketStatus.void = true
is_void _ = false

abbrev pub is_checked_in : TicketStatus → Bool
is_checked_in TicketStatus.checked_in = true
is_checked_in _ = false

-- order?.status === 'paid'
abbrev pub order_is_paid : Option Order → Bool
order_is_paid none = false
order_is_paid (some o) = is_paid o.status

-- options.eventId && ticket.eventId !== options.eventId
abbrev pub is_wrong_event : Option ℕ → Ticket → Bool
is_wrong_event none t = false
is_wrong_event (some event) t = not (t.event_id == event)

-- options.scannedBy ? `scanner:${options.scannedBy}` : 'scanner:unknown'
abbrev scanner : Option String → String
scanner none = "scanner:unknown"
scanner (some name) = if str_eq name "" then "scanner:unknown" else str_append "scanner:" name

unfoldable pub view_of : Ticket → Option OrderItem → TicketView
view_of t item = record {
  code = t.code;
  holder_name = t.holder_name;
  tier_name = name_or_default item;
  event_id = t.event_id;
  status = t.status;
  checked_in_at = t.checked_in_at;
  checked_in_by = t.checked_in_by;
}

unfoldable pub refused : Refusal → TicketView → CheckInResult
refused why view = record { admitted = false; reason = some why; ticket = view }

unfoldable pub admitted : TicketView → Option String → ℕ → CheckInResult
admitted view scanned_by now = record {
  admitted = true;
  reason = none;
  ticket = record view {
    status = TicketStatus.checked_in;
    checked_in_at = some now;
    checked_in_by = scanned_by;
  };
}

-- the row that an admission leaves
abbrev pub checked_in_row : Option String → ℕ → Ticket → Ticket
checked_in_row scanned_by now t = record t {
  status = TicketStatus.checked_in;
  checked_in_at = some now;
  checked_in_by = scanned_by;
}

unfoldable pub mark_checked_in : ℕ → Option String → ℕ → Db → Db
mark_checked_in id scanned_by now db = record db {
  tickets =
      update_where (λ t. t.id == id && is_issued t.status) (checked_in_row scanned_by now)
        db.tickets;
}

-- `iso` is `toISOString`
unfoldable pub ticket_checked_in : (ℕ → String) → Ticket → CheckInOptions → ℕ → Transition
ticket_checked_in iso t options now = record {
  entity = LedgerEntity.ticket;
  entity_id = EntityId.row t.id;
  event = "ticket.checked_in";
  from_state = some "issued";
  to_state = "checked_in";
  actor = scanner options.scanned_by;
  order_id = some t.order_id;
  event_id = some t.event_id;
  amount_cents = none;
  detail = Object.field "code" (Json.chars t.code) (
      Object.field "checkedInAt" (Json.text (iso now)) (
        Object.field "entry" (Json.text (entry_text options.entry)) (
          Object.field "signatureVerified" (Json.bool (not (is_manual options.entry)))
            Object.end)));
}

abbrev pub ticket_by_code : List ℕ → Db → Option Ticket
ticket_by_code code db = first (λ t. list_eq t.code code) db.tickets

abbrev pub item_by_id : ℕ → Db → Option OrderItem
item_by_id id db = first (λ i. i.id == id) db.items

module _ (iso : ℕ → String) (options : CheckInOptions) (now : ℕ) where
  -- the UPDATE, the ledger entry and the answer of an admission
  unfoldable pub admit_ticket : Ticket → TicketView → Tx CheckInResult
  admit_ticket ticket view = do
    modify (mark_checked_in ticket.id options.scanned_by now)
    record_transition (ticket_checked_in iso ticket options now)
    pure (admitted view options.scanned_by now)

  -- what follows the reading of the order
  unfoldable pub decide : Ticket → TicketView → Bool → Tx CheckInResult
  unfolding admit_ticket
  decide ticket view paid =
      if not paid
      then pure (refused Refusal.order_not_paid view)
      else if is_checked_in ticket.status
      then pure (refused Refusal.already_checked_in view)
      else admit_ticket ticket view

  -- the part of the transaction behind its errors
  unfoldable pub check_ticket : Ticket → TicketView → Tx CheckInResult
  unfolding decide
  check_ticket ticket view =
      if is_void ticket.status
      then pure (refused Refusal.void view)
      else gets (order_by_id ticket.order_id) >>= λ order. decide ticket view (order_is_paid order)

  -- the body of the transaction
  unfoldable pub check_in_code : List ℕ → Tx CheckInResult
  unfolding check_ticket
  check_in_code code = do
    found ← gets (ticket_by_code code)
    ticket ← or_throw found not_found
    throw_if (is_wrong_event options.event_id ticket) (conflict "wrong_event" false)
    item ← gets (item_by_id ticket.order_item_id)
    check_ticket ticket (view_of ticket item)

  -- `if (!code) throw`: an empty code is refused too
  unfoldable pub check_in_parsed : Result (Option (List ℕ)) → Exec.Exec CheckInResult
  unfolding check_in_code
  check_in_parsed (err e) = Exec.throw e
  check_in_parsed (ok none) = Exec.throw bad_request
  check_in_parsed (ok (some [])) = Exec.throw bad_request
  check_in_parsed (ok (some (c ∷ cs))) = Exec.with_transaction (check_in_code (c ∷ cs))

  -- checkInTicket
  unfoldable pub check_in_ticket : Hmac → List ℕ → Exec.Exec CheckInResult
  unfolding check_in_parsed
  check_in_ticket hmac qr_or_code =
      check_in_parsed (parse_qr_payload hmac qr_or_code (is_manual options.entry))
