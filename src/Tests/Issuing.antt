-- ===== src/Tests/Issuing.antt =====
-- The theorems on issuance at the shop.
use ticketing_app.Prelude.{ℕ, ◌+◌, ◌*◌, ◌-◌, ◌≤◌, ◌≡◌, refl, [], ◌∷◌, All, arith}
use ticketing_app.Schema.{Db, OrderItem}
use ticketing_app.Schema.Objects.{refund_required}
use ticketing_app.Store.{ok}
use ticketing_app.Inventory.Release.{items_of}
use ticketing_app.Codes.Text.{list_eq}
use ticketing_app.Codes.Generate.{generate_ticket_code}
use ticketing_app.Ledger.Record.{record_each, record_transition}
use ticketing_app.Tickets.Issue.{
  Fresh, count_by_item, tickets_of, issue_tickets, ticket_row, ticket_issued,
}
use ticketing_app.Tickets.Issuing.{issue_tickets-at_most, issue_tickets-again}
use ticketing_app.Tests.Shop.{shop, settled_before, two_seats, one_seat, bytes, after}

abbrev fresh : ℕ → ℕ → Fresh
fresh item sequence = record { id = 100 * item + sequence; bytes = sequence ∷ bytes }

-- The shop, with three seats in the paid order and one ticket for them.
abbrev large_shop : Db
large_shop = record shop { items = two_seats ∷ record one_seat { quantity = 3 } ∷ [] }

issue_tickets-at_most_example :
    All
      (λ (i : OrderItem).
        count_by_item i.id (tickets_of 2 (after (issue_tickets fresh 2 large_shop)))
        ≤ count_by_item i.id (tickets_of 2 large_shop)
          + (i.quantity - count_by_item i.id (tickets_of 2 large_shop)))
      (items_of 2 large_shop)
unfolding after issue_tickets refund_required ticket_row list_eq generate_ticket_code record_each
    record_transition ticket_issued
issue_tickets-at_most_example =
    issue_tickets-at_most fresh 2 large_shop {db' = after (issue_tickets fresh 2 large_shop)}
      (((omega arith), tt), (tt, tt)) refl

issue_tickets-again_example : issue_tickets fresh 2 shop ≡ ok (tickets_of 2 shop, shop)
issue_tickets-again_example =
    issue_tickets-again fresh 2 shop settled_before refl refl (unfold refund_required in refl)
      ((omega arith), tt)
