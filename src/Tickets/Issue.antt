-- ===== src/Tickets/Issue.antt =====
-- `issueTicketsForOrder`, `attachTierNames` and `getTicketsForOrder`. The row ids of PostgreSQL and
-- the random bytes of a code are given for each item and sequence number.
use ticketing_app.Prelude.{
  ℕ, zero, suc, ◌-◌, String, Bool, true, false, Option, none, some, List, [], ◌∷◌, ◌++◌, map, ◌&&◌,
  ◌||◌, select, insert, length, if◌then◌else◌, ◌==◌, not,
}
use ticketing_app.Schema.{
  Db, Order, OrderItem, Ticket, TicketStatus, LedgerEntity, EntityId, Transition, Json, Object,
  is_paid,
}
use ticketing_app.Schema.Objects.{refund_required}
use ticketing_app.Store.{conflict, not_found, unique_violation}
use ticketing_app.Store.Tx.{Tx, pure, throw, throw_if, gets, or_throw, ◌>>=◌, ◌>>◌}
use ticketing_app.Store.Exec
use ticketing_app.Ledger.Record.{record_each}
use ticketing_app.Inventory.Release.{order_by_id, items_of}
use ticketing_app.Codes.Text.{list_eq}
use ticketing_app.Codes.Generate.{generate_ticket_code}
use ticketing_app.Codes.Qr.{Hmac, build_qr_payload}

-- What a new ticket row gets from outside.
pub record Fresh : Type 0 where
  pub id : ℕ
  pub bytes : List ℕ

abbrev pub of_item : ℕ → Ticket → Bool
of_item item t = t.order_item_id == item

-- `countByItem.get(item) ?? 0`
abbrev pub count_by_item : ℕ → List Ticket → ℕ
count_by_item item ts = length (select (of_item item) ts)

unfoldable pub ticket_row : Order → OrderItem → ℕ → Fresh → Ticket
ticket_row order item sequence fresh = record {
  id = fresh.id;
  event_id = order.event_id;
  order_id = order.id;
  order_item_id = item.id;
  tier_id = item.tier_id;
  code = generate_ticket_code fresh.bytes;
  holder_name = some order.buyer_name;
  holder_email = some order.buyer_email;
  status = TicketStatus.issued;
  checked_in_at = none;
  checked_in_by = none;
  sequence = sequence;
}

module _ (fresh : ℕ → ℕ → Fresh) (order : Order) where
  -- the inner loop, with as many rounds to go
  unfoldable pub rows_from : OrderItem → ℕ → ℕ → List Ticket
  rows_from item sequence zero = []
  rows_from item sequence (suc n) =
      ticket_row order item sequence (fresh item.id sequence) ∷ rows_from item (suc sequence) n

  -- the outer loop
  unfoldable pub rows_of : List Ticket → List OrderItem → List Ticket
  unfolding rows_from
  rows_of existing [] = []
  rows_of existing (i ∷ is) =
      let issued_before = count_by_item i.id existing in
      rows_from i (suc issued_before) (i.quantity - issued_before) ++ rows_of existing is

-- the conflict target
abbrev pub same_sequence : Ticket → Ticket → Bool
same_sequence t u = t.order_item_id == u.order_item_id && t.sequence == u.sequence

-- `tickets_code_key` and the primary key
abbrev pub same_key : Ticket → Ticket → Bool
same_key t u = t.id == u.id || list_eq t.code u.code

abbrev pub exists_in : (Ticket → Bool) → List Ticket → Bool
exists_in p [] = false
exists_in p (t ∷ ts) = if p t then true else exists_in p ts

-- One row of the INSERT … ON CONFLICT (order_item_id, sequence) DO NOTHING RETURNING *.
unfoldable pub insert_ticket : Ticket → Tx (List Ticket)
insert_ticket t db =
    if exists_in (same_sequence t) db.tickets
    then pure [] db
    else if exists_in (same_key t) db.tickets
    then throw unique_violation db
    else pure (t ∷ []) (record db { tickets = insert t db.tickets })

unfoldable pub insert_tickets : List Ticket → Tx (List Ticket)
unfolding insert_ticket
insert_tickets [] = pure []
insert_tickets (t ∷ ts) = do one ← insert_ticket t; rest ← insert_tickets ts; pure (one ++ rest)

unfoldable pub ticket_issued : Order → Ticket → Transition
ticket_issued order t = record {
  entity = LedgerEntity.ticket;
  entity_id = EntityId.row t.id;
  event = "ticket.issued";
  from_state = none;
  to_state = "issued";
  actor = "system:issuance";
  order_id = some order.id;
  event_id = some order.event_id;
  amount_cents = none;
  detail = Object.field "code" (Json.chars t.code) (
      Object.field "tierId" (Json.num t.tier_id)
        (Object.field "sequence" (Json.num t.sequence) Object.end));
}

abbrev pub tickets_of : ℕ → Db → List Ticket
tickets_of order_id db = select (λ t. t.order_id == order_id) db.tickets

unfoldable pub issue_rows : Order → List Ticket → List Ticket → Tx (List Ticket)
unfolding insert_tickets
issue_rows order existing [] = pure existing
issue_rows order existing (r ∷ rs) = do
  inserted ← insert_tickets (r ∷ rs)
  record_each (ticket_issued order) inserted
  pure (existing ++ inserted)

-- The transaction of `issueTicketsForOrder`.
unfoldable pub issue_tickets : (ℕ → ℕ → Fresh) → ℕ → Tx (List Ticket)
unfolding issue_rows rows_of
issue_tickets fresh order_id = do
  found ← gets (order_by_id order_id)
  order ← or_throw found not_found
  throw_if (not (is_paid order.status)) (conflict "order_not_paid" false)
  throw_if (refund_required order.metadata) (conflict "refund_required" false)
  items ← gets (items_of order_id)
  existing ← gets (tickets_of order_id)
  issue_rows order existing (rows_of fresh order existing items)

pub record IssuedTicket : Type 0 where
  pub id : ℕ
  pub code : List ℕ
  pub qr : List ℕ
  pub tier_name : String
  pub status : TicketStatus

-- `?? 'Ticket'`
abbrev pub name_or_default : Option OrderItem → String
name_or_default none = "Ticket"
name_or_default (some i) = i.tier_name

abbrev last_or_none : OrderItem → Option OrderItem → Option OrderItem
last_or_none i none = some i
last_or_none i (some j) = some j

-- `nameByItem.get`: a later entry of the map replaces an earlier one
unfoldable pub last_item : ℕ → List OrderItem → Option OrderItem
last_item id [] = none
last_item id (i ∷ is) =
    let later = last_item id is in if i.id == id then last_or_none i later else later

unfoldable pub attach_tier_names : Hmac → List Ticket → Db → List IssuedTicket
unfolding last_item
attach_tier_names hmac [] db = []
attach_tier_names hmac (r ∷ rs) db =
    let items = items_of r.order_id db in
    map
      (λ (t : Ticket). record {
        id = t.id;
        code = t.code;
        qr = build_qr_payload hmac t.code;
        tier_name = name_or_default (last_item t.order_item_id items);
        status = t.status;
      })
      (r ∷ rs)

-- issueTicketsForOrder
unfoldable pub issue_tickets_for_order : Hmac → (ℕ → ℕ → Fresh) → ℕ → Exec.Exec (List IssuedTicket)
unfolding issue_tickets attach_tier_names
issue_tickets_for_order hmac fresh order_id =
    Exec.◌>>=◌ (Exec.with_transaction (issue_tickets fresh order_id))
      (λ issued. Exec.gets (attach_tier_names hmac issued))

-- getTicketsForOrder
unfoldable pub get_tickets_for_order : Hmac → ℕ → Exec.Exec (List IssuedTicket)
unfolding attach_tier_names
get_tickets_for_order hmac order_id =
    Exec.◌>>=◌ (Exec.gets (tickets_of order_id)) (λ rows. Exec.gets (attach_tier_names hmac rows))
