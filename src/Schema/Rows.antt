-- ===== src/Schema/Rows.antt =====
-- The rows of src/db/schema.ts.
use ticketing_app.Prelude.{ℕ, String, Bool, Option, List}
use ticketing_app.Prelude.Int.{ℤ}
use ticketing_app.Schema.Status.{
  EventStatus, TierStatus, OrderStatus, PaymentStatus, TicketStatus, WebhookStatus, LedgerEntity,
}

-- organisations
pub record Organisation : Type 0 where
  pub id : ℕ
  pub slug : String
  pub name : String
  pub verified_at : Option ℕ

-- organisationMembers
pub record Member : Type 0 where
  pub organisation_id : ℕ
  pub user_id : String

-- events
pub record Event : Type 0 where
  pub id : ℕ
  pub organisation_id : ℕ
  pub slug : String
  pub name : String
  pub venue : Option String
  pub currency : String
  pub starts_at : ℕ
  pub ends_at : Option ℕ
  pub status : EventStatus
  pub archived_at : Option ℕ

-- ticketTiers; `quantity_total` is NULL for an uncapped tier
pub record Tier : Type 0 where
  pub id : ℕ
  pub event_id : ℕ
  pub name : String
  pub price_cents : ℕ
  pub quantity_total : Option ℕ
  pub quantity_reserved : ℕ
  pub quantity_sold : ℕ
  pub min_per_order : ℕ
  pub max_per_order : ℕ
  pub sales_start_at : Option ℕ
  pub sales_end_at : Option ℕ
  pub status : TierStatus
  pub sort_order : ℕ

-- The values of the `metadata` and `detail` columns; `chars` is a text given by its code units.
mutual
  pub data Json : Type 0 where
    null : Json
    bool : Bool → Json
    num : ℕ → Json
    text : String → Json
    int : ℤ → Json
    chars : List ℕ → Json
    arr : Array → Json
    obj : Object → Json

  pub data Array : Type 0 where
    nil : Array
    cons : Json → Array → Array

  pub data Object : Type 0 where
    end : Object
    field : String → Json → Object → Object

-- orders
pub record Order : Type 0 where
  pub id : ℕ
  pub event_id : ℕ
  pub reference : String
  pub user_id : Option String
  pub buyer_name : String
  pub buyer_email : String
  pub buyer_phone : List ℕ
  pub terms_version : Option String
  pub subtotal_cents : ℕ
  pub fee_cents : ℕ
  pub total_cents : ℕ
  pub currency : String
  pub status : OrderStatus
  pub reserved_until : ℕ
  pub idempotency_key : Option String
  pub metadata : Option Object
  pub created_at : ℕ
  pub paid_at : Option ℕ
  pub released_at : Option ℕ

-- orderItems
pub record OrderItem : Type 0 where
  pub id : ℕ
  pub order_id : ℕ
  pub tier_id : ℕ
  pub tier_name : String
  pub quantity : ℕ
  pub unit_price_cents : ℕ
  pub subtotal_cents : ℕ

-- payments
pub record Payment : Type 0 where
  pub id : ℕ
  pub order_id : ℕ
  pub gateway : String
  pub gateway_ref : String
  pub amount_cents : ℕ
  pub payer_phone : List ℕ
  pub status : PaymentStatus
  pub result_code : Option ℤ
  pub result_desc : Option String
  pub receipt : Option String
  pub transaction_date : Option ℕ
  pub reconcile_attempts : ℕ
  pub last_reconciled_at : Option ℕ
  pub claimed_at : Option ℕ
  pub settled_at : Option ℕ

-- tickets
pub record Ticket : Type 0 where
  pub id : ℕ
  pub event_id : ℕ
  pub order_id : ℕ
  pub order_item_id : ℕ
  pub tier_id : ℕ
  pub code : List ℕ
  pub holder_name : Option String
  pub holder_email : Option String
  pub status : TicketStatus
  pub checked_in_at : Option ℕ
  pub checked_in_by : Option String
  pub sequence : ℕ

-- webhookEvents
pub record WebhookEvent : Type 0 where
  pub id : ℕ
  pub gateway : String
  pub dedupe_key : String
  pub status : WebhookStatus
  pub error : Option String
  pub attempts : ℕ
  pub processed_at : Option ℕ

-- What a transition is about: a row of this database, or a text that some caller supplies where
-- the column wants a UUID.
pub data EntityId : Type 0 where
  row : ℕ → EntityId
  reference : String → EntityId

-- TransitionInput of src/services/ledger.service.ts.
pub record Transition : Type 0 where
  pub entity : LedgerEntity
  pub entity_id : EntityId
  pub event : String
  pub from_state : Option String
  pub to_state : String
  pub actor : String
  pub order_id : Option ℕ
  pub event_id : Option ℕ
  pub amount_cents : Option ℕ
  pub detail : Object
