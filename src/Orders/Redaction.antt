-- ===== src/Orders/Redaction.antt =====
-- Who sees what opens a gate.
use ticketing_app.Prelude.{
  suc, ltb, ◌≡◌, refl, ap, String, true, false, Option, none, some, List, [], ◌∷◌, map, first,
  length, ◌==◌, All, inl, inr, Bool-cases,
}
use ticketing_app.Schema.{Event, Order, OrderItem, Payment, is_paid}
use ticketing_app.Store.{ok}
use ticketing_app.Store.Exec.{World}
use ticketing_app.Codes.Qr.{Hmac}
use ticketing_app.Inventory.Release.{items_of}
use ticketing_app.Tickets.Issue.{IssuedTicket, get_tickets_for_order, attach_tier_names, tickets_of}
use ticketing_app.Orders.View.{
  latest_payment, OrderViewer, OrderView, VisibleTicket, owns_order, visible_tickets, redact_ticket,
  show_ticket, issued_tickets, view_of_order, build_view, order_by_reference,
  get_order_by_reference,
}

-- A ticket that shows neither its code nor its QR payload.
abbrev pub IsRedacted : VisibleTicket → Type 0
IsRedacted t = (t.code ≡ none) × (t.qr ≡ none)

-- The system itself, which builds the email to the buyer.
abbrev pub system : OrderViewer
system = record { uid = none; trusted = true }

abbrev pub hide : VisibleTicket → VisibleTicket
hide t = record t { code = none; qr = none }

-- A view less what opens a gate.
abbrev pub redact_view : OrderView → OrderView
redact_view v = record v {
  tickets = map hide v.tickets;
  tickets_redacted = ltb 0 (length v.tickets);
}

hidden : (ts : List VisibleTicket) → All IsRedacted (map hide ts)
hidden [] = tt
hidden (t ∷ ts) = ((refl, refl), hidden ts)

hide-show :
    (issued : List IssuedTicket) → map hide (map show_ticket issued) ≡ map redact_ticket issued
hide-show [] = refl
hide-show (t ∷ ts) = ap (λ (r : List VisibleTicket). redact_ticket t ∷ r) (hide-show ts)

length-show : (issued : List IssuedTicket) → length (map show_ticket issued) ≡ length issued
length-show [] = refl
length-show (t ∷ ts) = ap suc (length-show ts)

module _ (o : Order) (viewer : OrderViewer) (stranger : owns_order o viewer ≡ false)
    (event : Option Event) (items : List OrderItem) (payment : Option Payment)
    (issued : List IssuedTicket) where
  stranger_view :
      view_of_order o viewer event items payment issued
      ≡ redact_view (view_of_order o system event items payment issued)
  unfolding view_of_order visible_tickets owns_order
  stranger_view = rw (stranger, hide-show issued, length-show issued) refl

abbrev event_at : Order → World → Option Event
event_at o w = first (λ (e : Event). e.id == o.event_id) w.db.events

same_redacted :
    (o : Order) (viewer : OrderViewer) (w : World)
    → owns_order o viewer ≡ false
    → (issued : List IssuedTicket)
    → view_of_order o viewer
        (event_at o w)
        (items_of o.id w.db)
        (latest_payment o.id w.db.payments)
        issued
      ≡ redact_view (
          view_of_order o system
            (event_at o w)
            (items_of o.id w.db)
            (latest_payment o.id w.db.payments)
            issued)
same_redacted o viewer w stranger issued =
    stranger_view o viewer stranger (event_at o w) (items_of o.id w.db)
      (latest_payment o.id w.db.payments) issued

-- Of an order that exists, a viewer who neither owns it nor is the system is shown what the system is
-- shown, less the code and the QR payload of every ticket, and nothing is written.
pub get_order_by_reference-IsRedacted :
    (hmac : Hmac) (reference : String) (viewer : OrderViewer) (w : World) (o : Order)
    → order_by_reference reference w.db ≡ some o
    → owns_order o viewer ≡ false
    → (view : OrderView) × (get_order_by_reference hmac reference system w ≡ (ok view, w))
      × (get_order_by_reference hmac reference viewer w ≡ (ok (redact_view view), w))
      × All IsRedacted (redact_view view).tickets
unfolding get_order_by_reference build_view issued_tickets get_tickets_for_order
get_order_by_reference-IsRedacted hmac reference viewer w o found stranger =
    elim (Bool-cases (is_paid o.status)) [
      | inl paid ↦
          let issued = attach_tier_names hmac (tickets_of o.id w.db) w.db in
          rw (found, paid)
            (
              _,
              refl,
              ap (λ (v : OrderView). (ok v, w)) (same_redacted o viewer w stranger issued),
              hidden _,
            )
      | inr unpaid ↦
          rw (found, unpaid)
            (
              _,
              refl,
              ap (λ (v : OrderView). (ok v, w)) (same_redacted o viewer w stranger []),
              hidden _,
            )
    ]
