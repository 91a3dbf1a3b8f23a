-- ===== src/Tests/Catalogue.antt =====
-- The theorems on what is shown of events and tiers.
use ticketing_app.Prelude.{◌≡◌, refl, some, [], ◌∷◌, arith}
use ticketing_app.Schema.{Event, TierStatus}
use ticketing_app.Store.{ok}
use ticketing_app.Inventory.Reserve.{can_reserve}
use ticketing_app.Events.Tiers.{offers, to_public_tier, can_reserve-to_public_tier}
use ticketing_app.Events.Listing.{list_published_events, public_event, listed, cheapest}
use ticketing_app.Events.Archive.{archive_past_events, archive_past_events-list_published_events}
use ticketing_app.Events.Prices.{public_event-listed}
use ticketing_app.Tests.Shop.{concert, organiser, standard, shop}

can_reserve-to_public_tier_example :
    can_reserve 1 (record { tier_id = 7; quantity = 2 }) 100 standard
    ≡ offers (to_public_tier standard "KES" 100) 2
can_reserve-to_public_tier_example = can_reserve-to_public_tier standard "KES" 2 100 (omega arith)

-- the shop's events, and one that ended at instant 10
abbrev old_concert : Event
old_concert = record concert { id = 2; slug = "old"; starts_at = 10 }

archive_past_events-list_published_events_example :
    let db = record shop { events = old_concert ∷ concert ∷ [] } in
    let archived = record old_concert { archived_at = some 100 } in
    let db' = record db { events = archived ∷ concert ∷ [] } in
    (list_published_events 200 db' ≡ list_published_events 200 db)
    × (archive_past_events 0 100 db' ≡ ok ([], db'))
archive_past_events-list_published_events_example =
    archive_past_events-list_published_events 0 100 200
      (record shop { events = old_concert ∷ concert ∷ [] })
      {swept = record { id = 2; slug = "old" } ∷ []} (omega arith)
      (unfold archive_past_events in refl)

public_event-listed_example :
    let tiers =
      record standard { id = 8; price_cents = 90000; status = TierStatus.closed } ∷ standard ∷ [] in
    (public_event 100 tiers (concert, organiser)).listed
    ≡ listed (cheapest 1 tiers) (concert, organiser)
public_event-listed_example =
    public_event-listed 100
      (record standard { id = 8; price_cents = 90000; status = TierStatus.closed } ∷ standard ∷ [])
      (concert, organiser)
