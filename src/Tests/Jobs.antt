-- ===== src/Tests/Jobs.antt =====
-- The theorems on the workers and on the system, at the shop.
use ticketing_app.Prelude.{List, ℕ, ◌≡◌, refl, true, false, none, [], ◌∷◌, arith, select, drop, All}
use ticketing_app.Schema.{Db, OrderStatus, fits_int4, tier_checks}
use ticketing_app.Store.{ok}
use ticketing_app.Inventory.Seats.{is_holding_inventory}
use ticketing_app.Inventory.Locking.{sort_for_locking}
use ticketing_app.Inventory.Release.{
  TerminalStatus, release_order, release_items, release_row, order_released, inventory_released,
}
use ticketing_app.Inventory.Reserve.{update_each, update_tiers}
use ticketing_app.Inventory.Counters.Invariant.{NotOversold}
use ticketing_app.Ledger.Record.{record_transition, record_each}
use ticketing_app.Payments.Settlement.{Outside}
use ticketing_app.Workers.Expiry.{is_stale, sweep}
use ticketing_app.Checkout.Create.{cancel_order}
use ticketing_app.Checkout.Cancelled.{Cancels, cancel_order-Cancels}
use ticketing_app.Workers.Sweeping.{sweep-leaves}
use ticketing_app.Workers.Queued.{Job}
use ticketing_app.Workers.Chasing.{chase, chase-ends}
use ticketing_app.System.Steps.{State, Reach, here, next, release}
use ticketing_app.System.Reachable.{IsSound, Reach-NotOversold}
use ticketing_app.Tests.Shop.{asked, shop, world, shop-IsConsistent, after}
use ticketing_app.Inventory.Counters.Framing.{same_counters}

sweep-leaves_example :
    ((n : ℕ) × ((sweep 500 700 world).0 ≡ ok n))
    × (select (is_stale 700) (sweep 500 700 world).1.db.orders
        ≡ drop 500 (select (is_stale 700) shop.orders))
sweep-leaves_example = sweep-leaves 700 500 world shop-IsConsistent

-- The gateway does not answer.
abbrev silent : ℕ → Outside
silent attempt = record { query_status = λ _. none; parse_uuid = λ _. none }

-- the first chase of payment 21
abbrev first_job : List Job
first_job = record { payment_id = 21; attempt = 1 } ∷ []

chase-ends_example : (chase silent 5 first_job 100 world).0 ≡ []
chase-ends_example = chase-ends silent 5 21 1 100 world (omega arith) (omega arith)

-- The shop, with a payment for its paid order.
abbrev sound_shop : Db
sound_shop = record shop { payments = record asked { id = 20; order_id = 2 } ∷ asked ∷ [] }

abbrev before : State
before = record { db = sound_shop; starting = [] }

before-IsSound : IsSound before
before-IsSound = record {
  consistent = same_counters refl refl refl shop-IsConsistent;
  backed = record { backed = ((λ (paid : false ≡ true). absurd (cc)), ((λ _. refl), tt)) };
  links = record { linked = ((refl, (refl, tt)), (refl, (refl, tt)), tt) };
}

abbrev afterwards : State
afterwards = record {
  db = after (release_order 1 TerminalStatus.expired 700 sound_shop);
  starting = [];
}

released_shop : Reach before afterwards
unfolding after release_order is_holding_inventory release_items update_each sort_for_locking
    update_tiers fits_int4 release_row tier_checks record_transition order_released record_each
    inventory_released
released_shop = next here (
    release 1 TerminalStatus.expired 700 (record { released = true; status = OrderStatus.expired })
      refl refl)

Reach-NotOversold_example : All (NotOversold afterwards.db) afterwards.db.tiers
Reach-NotOversold_example = Reach-NotOversold before-IsSound released_shop

cancel_order-Cancels_example :
    Cancels "TKT-AAAAAAAA" 700 shop
      (cancel_order "TKT-AAAAAAAA" 700 world).0
      (cancel_order "TKT-AAAAAAAA" 700 world).1.db
cancel_order-Cancels_example = cancel_order-Cancels "TKT-AAAAAAAA" 700 world shop-IsConsistent
