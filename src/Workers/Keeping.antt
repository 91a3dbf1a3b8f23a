-- ===== src/Workers/Keeping.antt =====
-- Workers keep the counters consistent.
use ticketing_app.Prelude.{ℕ, Option, none, some, List, [], ◌∷◌}
use ticketing_app.Schema.{Order, Payment}
use ticketing_app.Store.Exec.{quietly}
use ticketing_app.Store.Keeps.{Keeps, Keeps-bind, Keeps-quietly}
use ticketing_app.Inventory.Counters.Invariant.{IsConsistent}
use ticketing_app.Inventory.Counters.Framing.{counter_rules}
use ticketing_app.Payments.Settlement.{SettlementResult, Outside}
use ticketing_app.Payments.Consistency.{Keeps-apply_settlement}
use ticketing_app.Workers.Expiry.{expire, expire_found, expire_one, sweep_each, sweep}
use ticketing_app.Workers.Reconcile.{retry, settle_queried, after_query, reconcile_found, reconcile}

Keeps-expire : (o : Order) (now : ℕ) → Keeps IsConsistent (expire o now)
unfolding expire
Keeps-expire o now = search counter_rules depth 8

Keeps-expire_found : (o : Option Order) (now : ℕ) → Keeps IsConsistent (expire_found o now)
Keeps-expire_found none now = search counter_rules
Keeps-expire_found (some o) now = Keeps-expire o now

pub Keeps-expire_one : (id now : ℕ) → Keeps IsConsistent (expire_one id now)
unfolding expire_one
Keeps-expire_one id now = search (counter_rules, Keeps-expire_found) depth 8

Keeps-sweep_each : (os : List Order) (now : ℕ) → Keeps IsConsistent (sweep_each os now)
unfolding sweep_each
Keeps-sweep_each [] now = search counter_rules
Keeps-sweep_each (o ∷ os) now =
    Keeps-bind (quietly (expire o now)) (λ _. sweep_each os now)
      (Keeps-quietly (expire o now) (Keeps-expire o now)) (λ _. Keeps-sweep_each os now)

pub Keeps-sweep : (limit now : ℕ) → Keeps IsConsistent (sweep limit now)
unfolding sweep
Keeps-sweep limit now = search (counter_rules, Keeps-sweep_each) depth 8

Keeps-retry : (id attempt : ℕ) → Keeps IsConsistent (retry id attempt)
unfolding retry
Keeps-retry id attempt = search counter_rules depth 8

Keeps-settle_queried :
    (outside : Outside) (r : SettlementResult) (now : ℕ)
    → Keeps IsConsistent (settle_queried outside r now)
unfolding settle_queried
Keeps-settle_queried outside r now = search (counter_rules, Keeps-apply_settlement) depth 8

Keeps-after_query :
    (outside : Outside) (p : Payment) (attempt now : ℕ) (r : Option SettlementResult)
    → Keeps IsConsistent (after_query outside p attempt now r)
unfolding after_query
Keeps-after_query outside p attempt now none = Keeps-retry p.id attempt
Keeps-after_query outside p attempt now (some r) =
    search (counter_rules, Keeps-retry, Keeps-settle_queried) depth 8

Keeps-reconcile_found :
    (outside : Outside) (p : Option Payment) (attempt now : ℕ)
    → Keeps IsConsistent (reconcile_found outside p attempt now)
unfolding reconcile_found
Keeps-reconcile_found outside none attempt now = search counter_rules
Keeps-reconcile_found outside (some p) attempt now =
    search (counter_rules, Keeps-after_query) depth 8

pub Keeps-reconcile :
    (outside : Outside) (id attempt now : ℕ) → Keeps IsConsistent (reconcile outside id attempt now)
unfolding reconcile
Keeps-reconcile outside id attempt now = search (counter_rules, Keeps-reconcile_found) depth 8
