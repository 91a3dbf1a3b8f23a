-- ===== src/Orders/View.antt =====
-- `buildView`, `getOrderByReference`, `getOrderById` and `getOrderStatus`. A SELECT sorted by
-- `created_at`, newest first, takes the last payment row that was inserted.
use ticketing_app.Prelude.{
  ℕ, String, Bool, false, Option, none, some, List, [], ◌∷◌, map, first, length, str_eq, ◌==◌, ◌&&◌,
  ◌||◌, not, ltb, if◌then◌else◌,
}
use ticketing_app.Schema.{
  Db, Event, Order, OrderItem, OrderStatus, Payment, PaymentStatus, TicketStatus, is_paid,
}
use ticketing_app.Store.{not_found}
use ticketing_app.Store.Exec.{Exec, pure, gets, of_option, ◌>>=◌}
use ticketing_app.Phone.{mask_phone}
use ticketing_app.Codes.Qr.{Hmac}
use ticketing_app.Inventory.Release.{order_by_id, items_of}
use ticketing_app.Tickets.Issue.{IssuedTicket, get_tickets_for_order}

-- OrderViewer
pub record OrderViewer : Type 0 where
  pub uid : Option String
  pub trusted : Bool

-- The field `event` of OrderView
pub record EventView : Type 0 where
  pub slug : String
  pub name : String
  pub starts_at : ℕ
  pub venue : Option String

pub record BuyerView : Type 0 where
  pub name : String
  pub email : String
  pub phone : List ℕ

pub record ItemView : Type 0 where
  pub tier_name : String
  pub quantity : ℕ
  pub unit_price_cents : ℕ
  pub subtotal_cents : ℕ

pub record PaymentView : Type 0 where
  pub status : PaymentStatus
  pub gateway : String
  pub receipt : Option String
  pub result_desc : Option String

-- An entry of `tickets`: a ticket with its code and its QR payload, or with neither
pub record VisibleTicket : Type 0 where
  pub id : ℕ
  pub code : Option (List ℕ)
  pub qr : Option (List ℕ)
  pub tier_name : String
  pub status : TicketStatus

-- OrderView
pub record OrderView : Type 0 where
  pub reference : String
  pub status : OrderStatus
  pub event : EventView
  pub buyer : BuyerView
  pub items : List ItemView
  pub total_cents : ℕ
  pub currency : String
  pub expires_at : ℕ
  pub paid_at : Option ℕ
  pub payment : Option PaymentView
  pub tickets : List VisibleTicket
  pub tickets_redacted : Bool

-- with the defaults for an event that is missing
unfoldable pub view_event : Option Event → EventView
view_event none = record { slug = ""; name = ""; starts_at = 0; venue = none }
view_event (some e) = record {
  slug = e.slug;
  name = e.name;
  starts_at = e.starts_at;
  venue = e.venue;
}

abbrev pub view_item : OrderItem → ItemView
view_item i = record {
  tier_name = i.tier_name;
  quantity = i.quantity;
  unit_price_cents = i.unit_price_cents;
  subtotal_cents = i.subtotal_cents;
}

unfoldable pub view_payment : Option Payment → Option PaymentView
view_payment none = none
view_payment (some p) = some (record {
  status = p.status;
  gateway = p.gateway;
  receipt = p.receipt;
  result_desc = p.result_desc;
})

abbrev pub same_uid : Option String → Option String → Bool
same_uid (some a) (some b) = str_eq a b
same_uid _ _ = false

-- `ownsOrder`
unfoldable pub owns_order : Order → OrderViewer → Bool
owns_order order viewer = viewer.trusted || same_uid order.user_id viewer.uid

abbrev pub show_ticket : IssuedTicket → VisibleTicket
show_ticket t = record {
  id = t.id;
  code = some t.code;
  qr = some t.qr;
  tier_name = t.tier_name;
  status = t.status;
}

-- the same without `qr` and `code`
abbrev pub redact_ticket : IssuedTicket → VisibleTicket
redact_ticket t = record {
  id = t.id;
  code = none;
  qr = none;
  tier_name = t.tier_name;
  status = t.status;
}

-- `visibleTickets`
unfoldable pub visible_tickets : Bool → List IssuedTicket → List VisibleTicket
visible_tickets owns issued = if owns then map show_ticket issued else map redact_ticket issued

-- the last payment of an order
unfoldable pub latest_payment : ℕ → List Payment → Option Payment
latest_payment id [] = none
latest_payment id (p ∷ ps) = elim (latest_payment id ps) [
  | some later ↦ some later
  | none ↦ if p.order_id == id then some p else none
]

unfoldable pub issued_tickets : Hmac → Order → Exec (List IssuedTicket)
issued_tickets hmac order =
    if is_paid order.status then get_tickets_for_order hmac order.id else pure []

unfoldable pub view_of_order :
    Order
    → OrderViewer
    → Option Event
    → List OrderItem
    → Option Payment
    → List IssuedTicket
    → OrderView
unfolding view_event view_payment visible_tickets
view_of_order order viewer event items payment issued = record {
  reference = order.reference;
  status = order.status;
  event = view_event event;
  buyer = record {
    name = order.buyer_name;
    email = order.buyer_email;
    phone = mask_phone order.buyer_phone;
  };
  items = map view_item items;
  total_cents = order.total_cents;
  currency = order.currency;
  expires_at = order.reserved_until;
  paid_at = order.paid_at;
  payment = view_payment payment;
  tickets = visible_tickets (owns_order order viewer) issued;
  tickets_redacted = not (owns_order order viewer) && ltb 0 (length issued);
}

-- buildView
unfoldable pub build_view : Hmac → Order → OrderViewer → Exec OrderView
unfolding issued_tickets view_of_order
build_view hmac order viewer = do
  event ← gets (λ db. first (λ (e : Event). e.id == order.event_id) db.events)
  items ← gets (items_of order.id)
  payment ← gets (λ db. latest_payment order.id db.payments)
  issued ← issued_tickets hmac order
  pure (view_of_order order viewer event items payment issued)

abbrev pub order_by_reference : String → Db → Option Order
order_by_reference reference db = first (λ (o : Order). str_eq o.reference reference) db.orders

-- getOrderByReference
unfoldable pub get_order_by_reference : Hmac → String → OrderViewer → Exec OrderView
unfolding build_view
get_order_by_reference hmac reference viewer = do
  found ← gets (order_by_reference reference)
  order ← of_option found not_found
  build_view hmac order viewer

-- getOrderById
unfoldable pub get_order_by_id : Hmac → ℕ → OrderViewer → Exec OrderView
unfolding build_view
get_order_by_id hmac id viewer = do
  found ← gets (order_by_id id)
  order ← of_option found not_found
  build_view hmac order viewer

-- What `getOrderStatus` returns, and the columns of the payment that it selects
pub record StatusPayment : Type 0 where
  pub status : PaymentStatus
  pub receipt : Option String
  pub result_desc : Option String

pub record StatusView : Type 0 where
  pub reference : String
  pub status : OrderStatus
  pub paid_at : Option ℕ
  pub expires_at : ℕ
  pub ticket_count : ℕ
  pub payment : Option StatusPayment

unfoldable pub status_payment : Option Payment → Option StatusPayment
status_payment none = none
status_payment (some p) =
    some (record { status = p.status; receipt = p.receipt; result_desc = p.result_desc })

unfoldable pub status_of_order : Order → Option Payment → List IssuedTicket → StatusView
unfolding status_payment
status_of_order order payment issued = record {
  reference = order.reference;
  status = order.status;
  paid_at = order.paid_at;
  expires_at = order.reserved_until;
  ticket_count = length issued;
  payment = status_payment payment;
}

-- getOrderStatus
unfoldable pub get_order_status : Hmac → String → Exec StatusView
unfolding issued_tickets status_of_order
get_order_status hmac reference = do
  found ← gets (order_by_reference reference)
  order ← of_option found not_found
  payment ← gets (λ db. latest_payment order.id db.payments)
  issued ← issued_tickets hmac order
  pure (status_of_order order payment issued)
