-- ===== src/Schema/Database.antt =====
-- The database: its tables, each with its rows in insertion order, and the CHECK constraints on
-- `ticket_tiers` that src/db/schema.ts declares.
use ticketing_app.Prelude.{ℕ, ◌+◌, Bool, true, none, some, List, ◌&&◌, leb}
use ticketing_app.Schema.Rows.{
  Organisation, Member, Event, Tier, Order, OrderItem, Payment, Ticket, WebhookEvent, Transition,
}

pub record Db : Type 0 where
  pub organisations : List Organisation
  pub members : List Member
  pub events : List Event
  pub tiers : List Tier
  pub orders : List Order
  pub items : List OrderItem
  pub payments : List Payment
  pub tickets : List Ticket
  pub webhooks : List WebhookEvent
  pub ledger : List Transition

-- ticket_tiers_no_oversell
unfoldable pub no_oversell : Tier → Bool
no_oversell t = elim t.quantity_total [
  | none ↦ true
  | some total ↦ leb (t.quantity_reserved + t.quantity_sold) total
]

-- ticket_tiers_order_bounds
unfoldable pub order_bounds : Tier → Bool
order_bounds t = leb 1 t.min_per_order && leb t.min_per_order t.max_per_order

-- All of the constraints: those that counters and prices are not negative hold of natural numbers.
unfoldable pub tier_checks : Tier → Bool
unfolding no_oversell order_bounds
tier_checks t = no_oversell t && order_bounds t

abbrev pub int4_max : ℕ
int4_max = 2147483647

-- the greatest `bigint`
abbrev pub int8_max : ℕ
int8_max = 9223372036854775807

-- The counters are `integer` columns, of 32 bits.
unfoldable pub fits_int4 : Tier → Bool
fits_int4 t = leb t.quantity_reserved int4_max && leb t.quantity_sold int4_max
