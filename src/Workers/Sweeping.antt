-- ===== src/Workers/Sweeping.antt =====
-- The sweep gets through the lapsed holds.
use mathlib.Core.Path.{subst}
use ticketing_app.Prelude.{
  ℕ, zero, suc, ◌≡◌, ◌≢◌, refl, Bool, true, false, some, List, [], ◌∷◌, select, first, take, drop,
  update_where, ◌==◌, arith, All, ==_refl, inl, inr, Bool-cases,
}
use ticketing_app.Schema.{Order, OrderStatus}
use ticketing_app.Store.{ok}
use ticketing_app.Store.Exec.{World, quietly}
use ticketing_app.Inventory.Seats.{is_holding_inventory}
use ticketing_app.Inventory.Release.{TerminalStatus, order_by_id, mark_released}
use ticketing_app.Inventory.Counters.Sums.{OrderIdsUnique, update_where_absent}
use ticketing_app.Inventory.Counters.Invariant.{IsConsistent}
use ticketing_app.Inventory.Counters.Releasing.{after_release, release_order-IsConsistent}
use ticketing_app.Inventory.Counters.Returning.{release_order-returns}
use ticketing_app.Workers.Expiry.{expire, is_stale, sweep_each, sweep}

module _ (p : Order → Bool) where
  select-All :
      (Q : Order → Type 0) (xs : List Order) {o : Order} {os : List Order}
      → select p xs ≡ o ∷ os
      → All Q xs
      → Q o
  select-All Q [] e h = absurd (cc)
  select-All Q (x ∷ xs) {o} {os} e h = elim (Bool-cases (p x)) [
    | inl here ↦ let picked : x ∷ select p xs ≡ o ∷ os = rw here at e in subst Q (cc (picked)) h.0
    | inr away ↦ select-All Q xs (rw away at e) h.1
  ]

  select_holds : (xs : List Order) {o : Order} {os : List Order} → select p xs ≡ o ∷ os → p o ≡ true
  select_holds [] e = absurd (cc)
  select_holds (x ∷ xs) {o} {os} e = elim (Bool-cases (p x)) [
    | inl here ↦
        let picked : x ∷ select p xs ≡ o ∷ os = rw here at e in
        subst (λ (y : Order). p y ≡ true) (cc (picked)) here
    | inr away ↦ select_holds xs (rw away at e)
  ]

  -- The first row that a test picks is found by its id.
  select-first :
      (xs : List Order) {o : Order} {os : List Order}
      → OrderIdsUnique xs
      → select p xs ≡ o ∷ os
      → first (λ (y : Order). y.id == o.id) xs ≡ some o
  select-first [] u e = absurd (cc)
  select-first (x ∷ xs) {o} {os} u e = elim (Bool-cases (p x)) [
    | inl here ↦
        let picked : x ∷ select p xs ≡ o ∷ os = rw here at e in
        let same : x ≡ o = cc (picked) in rw (same, ==_refl o.id) refl
    | inr away ↦
        let later : select p xs ≡ o ∷ os = rw away at e in
        let other : o.id ≢ x.id = select-All (λ (y : Order). y.id ≢ x.id) xs later u.0 in
        let rest = select-first xs u.1 later in ground (arith, other, rest)
  ]

  -- A change after which the test fails takes the row off what it picks.
  select-update_where :
      (f : Order → Order)
      → ((y : Order) → p (f y) ≡ false)
      → (xs : List Order) {o : Order} {os : List Order} → OrderIdsUnique xs
      → select p xs ≡ o ∷ os
      → select p (update_where (λ (y : Order). y.id == o.id) f xs) ≡ os
  select-update_where f off [] u e = absurd (cc)
  select-update_where f off (x ∷ xs) {o} {os} u e = elim (Bool-cases (p x)) [
    | inl here ↦
        let picked : x ∷ select p xs ≡ o ∷ os = rw here at e in
        let same : x ≡ o = cc (picked) in
        let rest : select p xs ≡ os = cc (picked) in
        let others : All (λ (q : Order). q.id ≢ o.id) xs =
          subst (λ (y : Order). All (λ (q : Order). q.id ≢ y.id) xs) same u.0 in
        rw (same, ==_refl o.id, off o, update_where_absent o.id f xs others) rest
    | inr away ↦
        let later : select p xs ≡ o ∷ os = rw away at e in
        let rest = select-update_where f off xs u.1 later in
        elim (Bool-cases (x.id == o.id)) [
          | inl here ↦ rw (here, off x) rest
          | inr there ↦ rw (there, away) rest
        ]
  ]

module _ (now : ℕ) where
  stale-holding : (o : Order) → is_stale now o ≡ true → is_holding_inventory o ≡ true
  unfolding is_stale is_holding_inventory
  stale-holding o h = ground (arith, h)

  -- What the expiry of the first lapsed hold leaves.
  expire_next :
      (w : World) {o : Order} {os : List Order}
      → IsConsistent w.db
      → select (is_stale now) w.db.orders ≡ o ∷ os
      → ((quietly (expire o now) w).0 ≡ ok tt)
        × IsConsistent (quietly (expire o now) w).1.db
        × (select (is_stale now) (quietly (expire o now) w).1.db.orders ≡ os)
  unfolding expire
  expire_next w {o} {os} c e =
      let found : order_by_id o.id w.db ≡ some o =
        select-first (is_stale now) w.db.orders c.order_ids e in
      let holding = stale-holding o (select_holds (is_stale now) w.db.orders e) in
      let r = release_order-returns o.id TerminalStatus.expired now w.db o c found holding in
      let c' = release_order-IsConsistent o.id TerminalStatus.expired now w.db c r in
      let off : (y : Order)
          → is_stale now (record y { status = OrderStatus.expired; released_at = some now })
            ≡ false =
        λ y. (unfold is_stale in refl) in
      let left : select (is_stale now) (after_release o TerminalStatus.expired now w.db).orders
          ≡ os =
        (unfold after_release mark_released in
          select-update_where (is_stale now) _ off w.db.orders c.order_ids e) in
      elim (Bool-cases w.redis_up) [
        | inl up ↦ rw (r, up) (refl, c', left)
        | inr down ↦ rw (r, down) (refl, c', left)
      ]

  -- The loop over the first holds of those that have lapsed leaves the rest.
  sweep_each_leaves :
      (k : ℕ) (os : List Order) (w : World)
      → IsConsistent w.db
      → select (is_stale now) w.db.orders ≡ os
      → ((sweep_each (take k os) now w).0 ≡ ok tt)
        × (select (is_stale now) (sweep_each (take k os) now w).1.db.orders ≡ drop k os)
  unfolding sweep_each
  sweep_each_leaves zero os w c e = (refl, e)
  sweep_each_leaves (suc k) [] w c e = (refl, e)
  sweep_each_leaves (suc k) (o ∷ os) w c e =
      let one = expire_next w c e in
      rw one.0 (sweep_each_leaves k os (quietly (expire o now) w).1 one.1 one.2)

  -- From a consistent database, the sweep returns, and of the orders whose hold has lapsed exactly
  -- those past the limit are left: each of the first ones has been released.
  pub sweep-leaves :
      (limit : ℕ) (w : World)
      → IsConsistent w.db
      → ((n : ℕ) × ((sweep limit now w).0 ≡ ok n))
        × (select (is_stale now) (sweep limit now w).1.db.orders
            ≡ drop limit (select (is_stale now) w.db.orders))
  unfolding sweep
  sweep-leaves limit w c =
      let swept = sweep_each_leaves limit (select (is_stale now) w.db.orders) w c refl in
      rw swept.0 ((_, refl), swept.1)
