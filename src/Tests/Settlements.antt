-- ===== src/Tests/Settlements.antt =====
-- The theorems on inventory and payments at the shop.
use ticketing_app.Prelude.{true, ℕ, ◌≡◌, refl, none, some, [], ◌∷◌}
use ticketing_app.Prelude.Int.{pos}
use ticketing_app.Schema.{OrderStatus, Db, SettlementOutcome, fits_int4, tier_checks}
use ticketing_app.Store.{ok}
use ticketing_app.Inventory.Seats.{is_holding_inventory}
use ticketing_app.Inventory.Locking.{
  sort_for_locking, IsLockOrdered, sum_for, sort_for_locking-IsLockOrdered,
  sum_for-sort_for_locking,
}
use ticketing_app.Inventory.Release.{
  TerminalStatus, release_order, release_items, release_row, order_released, inventory_released,
}
use ticketing_app.Inventory.Commit.{
  commit_order, sell_items, sell_held_items, sell_held_row, order_paid, inventory_sold,
}
use ticketing_app.Inventory.Reserve.{update_each, update_tiers}
use ticketing_app.Ledger.Record.{record_transition, record_each}
use ticketing_app.Inventory.Counters.Sums.{item_tier, item_quantity}
use ticketing_app.Inventory.Counters.Invariant.{IsConsistent}
use ticketing_app.Inventory.Counters.Releasing.{release_order-IsConsistent, after_release}
use ticketing_app.Inventory.Counters.Returning.{release_order-returns}
use ticketing_app.Inventory.Counters.Settling.{commit_order-IsConsistent}
use ticketing_app.Payments.Settlement.{SettlementResult, SettlementSource, Outside}
use ticketing_app.Payments.Apply.{ApplySettlementOptions, apply_settlement, claim_payment, stamp}
use ticketing_app.Payments.Consistency.{apply_settlement-IsConsistent}
use ticketing_app.Payments.Safety.{
  AppliesNothing, apply_settlement-settled, apply_settlement-forged,
}
use ticketing_app.Payments.Claim.{claim_payment-not_exclusive}
use ticketing_app.Tests.Shop.{
  waiting, two_seats, one_seat, asked, shop, world, shop-IsConsistent, after,
}

commit_order-IsConsistent_example : IsConsistent (after (commit_order 1 50 shop))
unfolding after commit_order sell_items sell_held_items update_each sort_for_locking update_tiers
    fits_int4 sell_held_row tier_checks record_transition order_paid record_each inventory_sold
commit_order-IsConsistent_example =
    commit_order-IsConsistent 1 50 shop {db' = after (commit_order 1 50 shop)} shop-IsConsistent
      refl

release_order-IsConsistent_example :
    IsConsistent (after (release_order 1 TerminalStatus.expired 700 shop))
unfolding after release_order is_holding_inventory release_items update_each sort_for_locking
    update_tiers fits_int4 release_row tier_checks record_transition order_released record_each
    inventory_released
release_order-IsConsistent_example =
    release_order-IsConsistent 1 TerminalStatus.expired 700 shop
      {db' = after (release_order 1 TerminalStatus.expired 700 shop)} shop-IsConsistent refl

abbrev success : SettlementResult
success = record {
  gateway_ref = "ws_CO_1";
  outcome = SettlementOutcome.succeeded;
  result_code = pos 0;
  result_desc = "ok";
  receipt = some "QK1";
  amount_cents = some 300000;
  transaction_date = none;
}

abbrev confirming : Outside
confirming = record { query_status = λ _. some success; parse_uuid = λ _. none }

abbrev silent : Outside
silent = record { query_status = λ _. none; parse_uuid = λ _. none }

abbrev by_callback : ApplySettlementOptions
by_callback = record { webhook_event_id = none; source = SettlementSource.callback }

apply_settlement-IsConsistent_example :
    IsConsistent (apply_settlement confirming success by_callback 50 world).1.db
apply_settlement-IsConsistent_example =
    apply_settlement-IsConsistent confirming success by_callback 50 world shop-IsConsistent

apply_settlement-forged_example :
    AppliesNothing world (apply_settlement silent success by_callback 50 world)
apply_settlement-forged_example =
    apply_settlement-forged silent success by_callback 50 world refl refl tt

abbrev foreign : SettlementResult
foreign = record success { gateway_ref = "ws_CO_9" }

apply_settlement-settled_example :
    AppliesNothing world (apply_settlement confirming foreign by_callback 50 world)
apply_settlement-settled_example =
    apply_settlement-settled confirming foreign by_callback 50 world refl

claim_payment-not_exclusive_example : record {
  once : Db;
  twice : Db;
  first_claim : claim_payment "ws_CO_1" 50 shop ≡ ok (some (stamp 50 asked), once);
  second_claim : claim_payment "ws_CO_1" 51 once ≡ ok (some (stamp 51 asked), twice);
}
claim_payment-not_exclusive_example = claim_payment-not_exclusive "ws_CO_1" 50 51 shop asked refl

sort_for_locking-IsLockOrdered_example :
    IsLockOrdered (λ (n : ℕ). n) (sort_for_locking (λ n. n) (3 ∷ 1 ∷ 2 ∷ []))
sort_for_locking-IsLockOrdered_example = sort_for_locking-IsLockOrdered (λ n. n) (3 ∷ 1 ∷ 2 ∷ [])

sum_for-sort_for_locking_example :
    sum_for item_tier item_quantity 7 (sort_for_locking item_tier (two_seats ∷ one_seat ∷ []))
    ≡ sum_for item_tier item_quantity 7 (two_seats ∷ one_seat ∷ [])
sum_for-sort_for_locking_example =
    sum_for-sort_for_locking item_tier item_quantity 7 (two_seats ∷ one_seat ∷ [])

release_order-returns_example :
    release_order 1 TerminalStatus.expired 700 shop
    ≡ ok (
      record { released = true; status = OrderStatus.expired },
      after_release waiting TerminalStatus.expired 700 shop,
    )
release_order-returns_example =
    release_order-returns 1 TerminalStatus.expired 700 shop waiting shop-IsConsistent refl
      (unfold is_holding_inventory in refl)
