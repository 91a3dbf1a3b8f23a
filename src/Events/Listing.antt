-- ===== src/Events/Listing.antt =====
-- `listPublishedEvents`, `listPastEvents`, `getPublicEvent` and `getAvailability`, as they answer when
-- the cache has no entry. The texts and pictures that are only copied are left out.
use ticketing_app.Prelude.{
  ℕ, min, String, Bool, true, false, Option, none, some, List, [], ◌∷◌, map, select, first, leb,
  ltb, ◌==◌, ◌&&◌, ◌||◌, not, if◌then◌else◌, str_eq, take,
}
use ticketing_app.Schema.{
  Db, Organisation, Event, EventStatus, Tier, is_active, is_closed, is_published,
}
use ticketing_app.Store.{not_found}
use ticketing_app.Store.Exec.{Exec, gets, of_option, throw_if, ◌>>=◌, ◌>>◌}
use ticketing_app.Inventory.Seats.{is_null}
use ticketing_app.Checkout.Create.{get_event_row_by_slug}
use ticketing_app.Events.Sorting.{order_by}
use ticketing_app.Events.Tiers.{PublicTier, Availability, to_public_tier, availability_of}

-- `organiser` of PublicEvent
pub record Organiser : Type 0 where
  pub name : String
  pub slug : String
  pub verified : Bool

-- PublicEvent without its tiers
pub record ListedEvent : Type 0 where
  pub id : ℕ
  pub slug : String
  pub name : String
  pub venue : Option String
  pub currency : String
  pub starts_at : ℕ
  pub ends_at : Option ℕ
  pub from_price_cents : Option ℕ
  pub organiser : Organiser

-- PublicEvent
pub record PublicEvent : Type 0 where
  pub listed : ListedEvent
  pub tiers : List PublicTier

-- PastEvent
pub record PastEvent : Type 0 where
  pub listed : ListedEvent
  pub archived : Bool
  pub archived_at : Option ℕ

-- eventEndsAt
abbrev pub event_ends_at : Event → ℕ
event_ends_at e = elim e.ends_at [ none ↦ e.starts_at | some end ↦ end ]

abbrev with_organisation :
    Option Organisation → Event → List (Event × Organisation) → List (Event × Organisation)
with_organisation none e rest = rest
with_organisation (some o) e rest = (e, o) ∷ rest

-- INNER JOIN organisations ON events.organisation_id = organisations.id
unfoldable pub join : List Organisation → List Event → List (Event × Organisation)
join os [] = []
join os (e ∷ es) = with_organisation (first (λ o. o.id == e.organisation_id) os) e (join os es)

unfoldable pub listed : Option ℕ → Event × Organisation → ListedEvent
listed price (e, o) = record {
  id = e.id;
  slug = e.slug;
  name = e.name;
  venue = e.venue;
  currency = e.currency;
  starts_at = e.starts_at;
  ends_at = e.ends_at;
  from_price_cents = price;
  organiser = record { name = o.name; slug = o.slug; verified = not (is_null o.verified_at) };
}

abbrev pub lower : ℕ → Option ℕ → Option ℕ
lower price none = some price
lower price (some other) = some (min other price)

-- `min(price_cents)` of a group of rows
abbrev pub min_price : List Tier → Option ℕ
min_price [] = none
min_price (t ∷ ts) = lower t.price_cents (min_price ts)

-- `cheapest` of `listPublishedEvents`, the entry of one event
unfoldable pub cheapest : ℕ → List Tier → Option ℕ
cheapest event_id tiers =
    min_price (select (λ (t : Tier). t.event_id == event_id && is_active t.status) tiers)

abbrev pub is_current : ℕ → Event → Bool
is_current now e = is_published e.status && is_null e.archived_at && leb now (event_ends_at e)

abbrev starts_before : Event × Organisation → Event × Organisation → Bool
starts_before x y = leb x.0.starts_at y.0.starts_at

-- the entries that `listPublishedEvents` makes of the events it selects
unfoldable pub list_rows : List Organisation → List Tier → List Event → List ListedEvent
unfolding join listed cheapest
list_rows os tiers es =
    map (λ (row : Event × Organisation). listed (cheapest row.0.id tiers) row)
      (order_by starts_before (join os es))

-- listPublishedEvents
unfoldable pub list_published_events : ℕ → Db → List ListedEvent
unfolding list_rows
list_published_events now db =
    list_rows db.organisations db.tiers (select (is_current now) db.events)

abbrev pub is_past : ℕ → Event → Bool
is_past now e =
    (is_published e.status || elim e.status [ EventStatus.closed ↦ true | _ ↦ false ])
    && ltb (event_ends_at e) now

abbrev ended_after : Event × Organisation → Event × Organisation → Bool
ended_after x y = leb (event_ends_at y.0) (event_ends_at x.0)

unfoldable past_event : Event × Organisation → PastEvent
past_event row = record {
  listed = listed none row;
  archived = not (is_null row.0.archived_at);
  archived_at = row.0.archived_at;
}

-- listPastEvents
unfoldable pub list_past_events : ℕ → ℕ → Db → List PastEvent
unfolding join past_event
list_past_events limit now db = map past_event (
    take (min limit 200)
      (order_by ended_after (join db.organisations (select (is_past now) db.events))))

abbrev pub is_shown : Tier → Bool
is_shown t = is_active t.status || is_closed t.status

-- `asc(sortOrder), asc(priceCents)`
abbrev pub comes_before : Tier → Tier → Bool
comes_before a b =
    if a.sort_order == b.sort_order
    then leb a.price_cents b.price_cents
    else ltb a.sort_order b.sort_order

-- the tiers that `getPublicEvent` loads
unfoldable pub shown_tiers : ℕ → List Tier → List Tier
shown_tiers event_id tiers =
    order_by comes_before (select (λ (t : Tier). t.event_id == event_id && is_shown t) tiers)

-- the `reduce` of `getPublicEvent`
unfoldable pub lowest : Option ℕ → List Tier → Option ℕ
lowest found [] = found
lowest found (t ∷ ts) = lowest (lower t.price_cents found) ts

-- What `getPublicEvent` makes of an event and its organiser.
unfoldable pub public_event : ℕ → List Tier → Event × Organisation → PublicEvent
public_event now tiers (e, o) = record {
  listed =
      listed (lowest none (select (λ (t : Tier). is_active t.status) (shown_tiers e.id tiers)))
        (e, o);
  tiers = map (λ t. to_public_tier t e.currency now) (shown_tiers e.id tiers);
}

abbrev pub head_row : List (Event × Organisation) → Option (Event × Organisation)
head_row [] = none
head_row (row ∷ rows) = some row

-- getPublicEvent
unfoldable pub get_public_event : String → ℕ → Exec PublicEvent
unfolding join
get_public_event slug now = do
  found ← gets (λ db.
      head_row (join db.organisations (select (λ (e : Event). str_eq e.slug slug) db.events)))
  row ← of_option found not_found
  throw_if (not (is_published row.0.status)) not_found
  gets (λ db. public_event now db.tiers row)

-- getAvailability
unfoldable pub get_availability : String → Exec (List Availability)
get_availability slug = do
  event ← get_event_row_by_slug slug
  gets (λ db. map availability_of (select (λ (t : Tier). t.event_id == event.id) db.tiers))
