-- ===== src/Tickets/Void.antt =====
-- `voidTicket`.
use ticketing_app.Prelude.{
  ℕ, String, true, Option, none, some, List, map, select, first, update_where,
}
use ticketing_app.Schema.{
  Ticket, TicketStatus, LedgerEntity, EntityId, Transition, Json, Object, ticket_status_text,
}
use ticketing_app.Store.{not_found}
use ticketing_app.Store.Tx.{Tx, pure, gets, or_throw, ◌>>=◌}
use ticketing_app.Ledger.Record.{record_transition}
use ticketing_app.Codes.Text.{list_eq}
use ticketing_app.Tickets.CheckIn.{ticket_by_code}

abbrev pub void_row : Ticket → Ticket
void_row t = record t { status = TicketStatus.void }

abbrev text_or_null : Option String → Json
text_or_null none = Json.null
text_or_null (some s) = Json.text s

unfoldable pub ticket_voided : Ticket → List ℕ → TicketStatus → Option String → String → Transition
ticket_voided t code before reason actor = record {
  entity = LedgerEntity.ticket;
  entity_id = EntityId.row t.id;
  event = "ticket.voided";
  from_state = some (ticket_status_text before);
  to_state = "void";
  actor = actor;
  order_id = some t.order_id;
  event_id = some t.event_id;
  amount_cents = none;
  detail =
      Object.field "code" (Json.chars code)
        (Object.field "reason" (text_or_null reason) Object.end);
}

-- UPDATE tickets SET status = 'void' WHERE code = code RETURNING *, and the first of its rows
unfoldable pub void_rows : List ℕ → Tx (Option Ticket)
void_rows code db =
    pure (first (λ _. true) (map void_row (select (λ t. list_eq t.code code) db.tickets)))
      (record db { tickets = update_where (λ t. list_eq t.code code) void_row db.tickets })

-- voidTicket; the `Tx` is the body of its `withTransaction`
unfoldable pub void_ticket : List ℕ → Option String → String → Tx Unit
unfolding void_rows
void_ticket code reason actor = do
  found ← gets (ticket_by_code code)
  before ← or_throw found not_found
  result ← void_rows code
  voided ← or_throw result not_found
  record_transition (ticket_voided voided code before.status reason actor)
