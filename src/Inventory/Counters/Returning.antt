-- ===== src/Inventory/Counters/Returning.antt =====
-- A release of an order that holds seats does not fail: giving seats back breaks no constraint.
use ticketing_app.Prelude.{
  false, ℕ, ◌≡◌, refl, Bool, true, some, List, [], ◌∷◌, map, select, all, update_where, ◌==◌, arith,
  All, inl, inr, Bool-cases,
}
use ticketing_app.Schema.{
  Db, Tier, Order, OrderItem, tier_checks, fits_int4, no_oversell, order_bounds,
}
use ticketing_app.Store.{ok}
use ticketing_app.Inventory.Seats.{is_holding_inventory}
use ticketing_app.Inventory.Reserve.{update_tiers, update_each}
use ticketing_app.Inventory.Release.{
  TerminalStatus, to_status, order_by_id, release_row, release_items, release_order,
}
use ticketing_app.Inventory.Counters.Rows.{IsStorable, update_tiers_lem, update_each_lem}
use ticketing_app.Inventory.Counters.Releasing.{sorted_items, after_release, release_held-eq}
use ticketing_app.Inventory.Counters.Invariant.{IsConsistent}

release_row-IsStorable :
    (quantity : ℕ) (t : Tier) → IsStorable t → IsStorable (release_row quantity t)
unfolding release_row fits_int4 tier_checks no_oversell order_bounds
release_row-IsStorable quantity t h = ground (arith, h)

module _ (p : Tier → Bool) (f : Tier → Tier)
    (keeps : (t : Tier) → IsStorable t → IsStorable (f t)) where
  all_storable :
      (ts : List Tier)
      → All IsStorable ts
      → (all fits_int4 (map f (select p ts)) ≡ true)
        × (all tier_checks (map f (select p ts)) ≡ true)
  all_storable [] h = (refl, refl)
  all_storable (t ∷ ts) h = elim (Bool-cases (p t)) [
    | inl e ↦ rw (e, (keeps t h.0).0, (keeps t h.0).1) (all_storable ts h.1)
    | inr e ↦ rw e (all_storable ts h.1)
  ]

  update_tiers-returns :
      (db : Db)
      → All IsStorable db.tiers
      → update_tiers p f db
        ≡ ok (map f (select p db.tiers), record db { tiers = update_where p f db.tiers })
  unfolding update_tiers
  update_tiers-returns db h = let fine = all_storable db.tiers h in rw (fine.0, fine.1)

-- The loop over the items gets to its end.
release_loop-returns :
    (is : List OrderItem) (db : Db)
    → All IsStorable db.tiers
    → (db' : Db) × (update_each release_row is db ≡ ok (tt, db'))
unfolding update_each
release_loop-returns [] db h = (db, refl)
release_loop-returns (i ∷ is) db h =
    let one =
      update_tiers-returns (λ t. t.id == i.tier_id) (release_row i.quantity)
        (release_row-IsStorable i.quantity) db h in
    let stored = (update_tiers_lem (λ t. t.id == i.tier_id) (release_row i.quantity) db one).2 h in
    let rest =
      release_loop-returns is
        (record db {
          tiers = update_where (λ t. t.id == i.tier_id) (release_row i.quantity) db.tiers;
        })
        stored in
    (rest.0, rw one rest.1)

-- In a consistent database, a release of an order that holds seats returns that it released them,
-- with every item's seats taken off what is reserved, the order marked, and the entries appended.
pub release_order-returns :
    (id : ℕ) (terminal : TerminalStatus) (now : ℕ) (db : Db) (o : Order)
    → IsConsistent db
    → order_by_id id db ≡ some o
    → is_holding_inventory o ≡ true
    → release_order id terminal now db
      ≡ ok
          (record { released = true; status = to_status terminal }, after_release o terminal now db)
unfolding release_order release_items
release_order-returns id terminal now db o c found holding =
    let loop = release_loop-returns (sorted_items o db) db c.storable in
    let shape = (update_each_lem release_row (sorted_items o db) db loop.1).0 in
    rw (found, holding) (release_held-eq o terminal now db loop.0 loop.1 shape)

-- A release of an order that holds no seats changes nothing.
pub release_order-idle :
    (id : ℕ) (terminal : TerminalStatus) (now : ℕ) (db : Db) (o : Order)
    → order_by_id id db ≡ some o
    → is_holding_inventory o ≡ false
    → release_order id terminal now db ≡ ok (record { released = false; status = o.status }, db)
unfolding release_order
release_order-idle id terminal now db o found quiet = rw (found, quiet) refl
