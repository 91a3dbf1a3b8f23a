-- ===== src/Tests/Reads.antt =====
-- The theorems on order views, tenancy, the ledger and the purge.
use ticketing_app.Prelude.{
  ◌≡◌, ◌≢◌, refl, String, false, none, some, List, [], ◌∷◌, arith, All, take, eq_iff, str_eq,
}
use ticketing_app.Schema.{OrderStatus, fits_int4, tier_checks, no_oversell, order_bounds}
use ticketing_app.Store.{ok}
use ticketing_app.Store.Exec.{World}
use ticketing_app.Ledger.Chain.{VerifiableRow, valid, verify_single_chain}
use ticketing_app.Ledger.Linked.{
  Linked, HashesDiffer, verify_single_chain-Linked, verify_single_chain-take,
}
use ticketing_app.Orders.View.{OrderViewer, OrderView, owns_order, get_order_by_reference}
use ticketing_app.Orders.Redaction.{
  system, redact_view, IsRedacted, get_order_by_reference-IsRedacted,
}
use ticketing_app.Tenancy.Scope.{organisation, load_scoped_event}
use ticketing_app.Tenancy.Isolation.{load_scoped_event-isolated}
use ticketing_app.Purge.Abandoned.{purge_abandoned_orders, cutoff_at}
use ticketing_app.Purge.Consistency.{Spares, purge_abandoned_orders-Spares}
use ticketing_app.Inventory.Counters.Invariant.{IsConsistent, is_admitting, is_accounted}
use ticketing_app.Inventory.Counters.Sums.{order_seats}
use ticketing_app.Inventory.Locking.{sum_for}
use ticketing_app.Inventory.Seats.{is_holding_inventory}
use ticketing_app.Schema.Objects.{refund_required}
use ticketing_app.Tests.Shop.{concert, waiting, settled_before, shop, world}
use ticketing_app.Tests.Gate.{digest}

abbrev stranger : OrderViewer
stranger = record { uid = some "someone"; trusted = false }

get_order_by_reference-IsRedacted_example :
    (view : OrderView) × (get_order_by_reference digest "TKT-BBBBBBBB" system world
      ≡ (ok view, world))
    × (get_order_by_reference digest "TKT-BBBBBBBB" stranger world ≡ (ok (redact_view view), world))
    × All IsRedacted (redact_view view).tickets
get_order_by_reference-IsRedacted_example =
    get_order_by_reference-IsRedacted digest "TKT-BBBBBBBB" stranger world settled_before refl
      (unfold owns_order in refl)

-- The shop beside another organisation's event.
abbrev shared_world : World
shared_world = record world {
  db = record shop {
    events = concert ∷ record concert { id = 2; organisation_id = 2; slug = "play" } ∷ [];
  };
}

load_scoped_event-isolated_example :
    (load_scoped_event (organisation 1) 2 shared_world).0
    ≡ (load_scoped_event (organisation 1) 2 world).0
load_scoped_event-isolated_example = load_scoped_event-isolated 1 2 shared_world world refl

-- The content of an entry is its own digest.
abbrev itself : String → String
itself s = s

abbrev first_entry : VerifiableRow
first_entry = record {
  seq = 1;
  chain_key = some 1;
  entry_hash = "a";
  prev_hash = none;
  preimage = "a";
}

abbrev later_entries : List VerifiableRow
later_entries =
    record first_entry { seq = 2; entry_hash = "b"; prev_hash = some "a"; preimage = "b" }
    ∷ record first_entry { seq = 3; entry_hash = "c"; prev_hash = some "b"; preimage = "c" }
    ∷ []

text_differ : (s t : String) → str_eq s t ≡ false → s ≢ t
text_differ s t h e = absurd (cc (h, (eq_iff s t).1 e))

linked : Linked itself none (first_entry ∷ later_entries)
linked = (refl, refl, (refl, refl, (refl, refl, tt)))

differ : HashesDiffer (first_entry ∷ later_entries)
differ = (
  (text_differ "b" "a" refl, (text_differ "c" "a" refl, tt)),
  ((text_differ "c" "b" refl, tt), (tt, tt)),
)

verify_single_chain-Linked_example :
    verify_single_chain itself (first_entry ∷ later_entries) ≡ valid 3
verify_single_chain-Linked_example =
    verify_single_chain-Linked itself first_entry later_entries linked differ

verify_single_chain-take_example :
    verify_single_chain itself (take 2 (first_entry ∷ later_entries)) ≡ valid 2
verify_single_chain-take_example =
    verify_single_chain-take itself 1 first_entry later_entries (omega arith) linked differ

-- The shop with an order that was cancelled before it was paid.
abbrev dropped_world : World
dropped_world = record world {
  db = record shop {
    orders =
        waiting
        ∷ settled_before
        ∷ record waiting {
          id = 5;
          reference = "TKT-DDDDDDDD";
          status = OrderStatus.cancelled;
          released_at = some 300;
        }
        ∷ [];
  };
}

dropped_shop-IsConsistent : IsConsistent dropped_world.db
unfolding order_seats sum_for is_holding_inventory is_admitting is_accounted fits_int4 tier_checks
    no_oversell order_bounds refund_required
dropped_shop-IsConsistent = record {
  order_ids = (((omega arith), ((omega arith), tt)), (((omega arith), tt), (tt, tt)));
  tier_ids = (tt, tt);
  storable = ((refl, refl), tt);
  reserved = (refl, tt);
  sold = ((omega arith), tt);
  accounted = (refl, (refl, (refl, tt)));
}

purge_abandoned_orders-Spares_example :
    IsConsistent (purge_abandoned_orders (λ n. "") 30 5000000000 dropped_world).1.db
    × Spares
        (cutoff_at 30 5000000000)
        dropped_world.db
        (purge_abandoned_orders (λ n. "") 30 5000000000 dropped_world).1.db
purge_abandoned_orders-Spares_example =
    purge_abandoned_orders-Spares (λ n. "") 30 5000000000 dropped_world dropped_shop-IsConsistent
