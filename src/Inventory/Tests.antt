-- ===== src/Inventory/Tests.antt =====
-- Runs of the stock services, and their theorems at concrete shops.
use mathlib.Core.Option
use retail_system.Prelude.{
  ℕ, ◌≡◌, refl, ◌≢◌, ◌↔◌, true, false, not, ◌&&◌, none, some, List, [], ◌∷◌, ◌==◌, if◌then◌else◌,
  pos, negsuc, ◌+ℤ◌, ◌-ℤ◌, neg, ◌<ℤ◌, length, err, ok,
}
use retail_system.Inventory.Adjustment.{Adjust, adjust}
use retail_system.Inventory.Batches.{Batch, pick_batch, expiring_soon}
use retail_system.Inventory.Ledger.{
  IsConsistent, record_movement-IsConsistent, record_movement_refused,
}
use retail_system.Inventory.Movement.{Request, weighted, may_go_negative, record_movement}
use retail_system.Inventory.Rebuild.{
  update_row, rebuild_stock_items, has_moved, rebuild_stock_items_repairs,
}
use retail_system.Inventory.Sample.{
  stocked_movement, empty, purchase_request, stocked_item, stocked, purchase_run,
  empty-IsConsistent,
}
use retail_system.Inventory.State.{
  MovementReason, stock_moved, Stock, insufficient_stock, find_item, item_or_new, save_item,
  quantity_of, ledger_total, is_none,
}
use retail_system.Money.{half_even}

record_movement-IsConsistent_example : IsConsistent stocked
record_movement-IsConsistent_example =
    record_movement-IsConsistent purchase_request empty stocked empty-IsConsistent purchase_run

-- Thirteen units, of twelve.
abbrev too_much : Request
too_much = record purchase_request {
  qty_delta = negsuc 12_999;
  reason = MovementReason.sale;
  unit_cost = none;
}

record_movement_refused_example :
    (record_movement too_much stocked
      ≡ err (insufficient_stock (quantity_of 1 5 stocked.items) (neg (negsuc 12_999))))
    ↔ ((stocked.tracked 5 ≡ true)
        × (may_go_negative stocked too_much ≡ false)
        × (negsuc 12_999 ≢ pos 0)
        × (quantity_of 1 5 stocked.items +ℤ negsuc 12_999 <ℤ pos 0))
record_movement_refused_example = record_movement_refused too_much stocked

-- Twelve at 2.50 and four at 3.30 average to 2.70.
cost_run : weighted 12_000 250 4000 330 ≡ 270
unfolding weighted half_even
cost_run = refl

abbrev breakage : Adjust
breakage = record {
  variant = 5;
  new_qty = pos 11_000;
  branch = 1;
  wastage = true;
  expected_qty = some (pos 12_000);
}

abbrev after_breakage : Stock
after_breakage = record stocked {
  items = record stocked_item { qty_on_hand = pos 11_000 } ∷ [];
  ledger =
      record stocked_movement {
        qty_delta = negsuc 999;
        reason = MovementReason.wastage;
        source = none;
        balance_after = pos 11_000;
      }
      ∷ stocked_movement
      ∷ [];
  events = stock_moved 1 5 (pos 11_000) ∷ stocked.events;
}

adjust_run : adjust breakage stocked ≡ ok after_breakage
unfolding adjust record_movement item_or_new find_item save_item ◌+ℤ◌ ◌-ℤ◌
adjust_run = refl

-- The cache has drifted: the row says seven units.
abbrev drifted : Stock
drifted = record stocked { items = record stocked_item { qty_on_hand = pos 7000 } ∷ [] }

rebuild_stock_items_repairs_example :
    let (n, s') = rebuild_stock_items 1 drifted in
    ((b' v : ℕ)
      → quantity_of b' v s'.items ≡ (
          if 1 == b' && has_moved 1 v drifted.ledger && not (is_none (find_item 1 v drifted.items))
          then ledger_total 1 v drifted.ledger
          else quantity_of b' v drifted.items))
    × (s'.ledger ≡ drifted.ledger)
rebuild_stock_items_repairs_example = rebuild_stock_items_repairs 1 drifted

rebuild_run : (rebuild_stock_items 1 drifted).0 ≡ 1
unfolding rebuild_stock_items update_row ledger_total ◌+ℤ◌
rebuild_run = refl

abbrev shelf : List Batch
shelf =
    record { pk = 1; variant = 5; expiry_date = none; on_hand = some (pos 9000) }
    ∷ record { pk = 2; variant = 5; expiry_date = some 40; on_hand = some (pos 2000) }
    ∷ record { pk = 3; variant = 5; expiry_date = some 60; on_hand = some (pos 8000) }
    ∷ []

pick_run : Option.map (λ (b : Batch). b.pk) (pick_batch 5 (pos 4000) shelf) ≡ some 3
unfolding pick_batch
pick_run = refl

expiring_run : length (expiring_soon 30 15 shelf) ≡ 1
unfolding expiring_soon
expiring_run = refl

-- A row that no movement stands behind keeps what it says: four units here, of a product that never
-- came in.
abbrev left_over : Stock
left_over = record empty { items = record stocked_item { qty_on_hand = pos 4000 } ∷ [] }

left_over_run :
    (quantity_of 1 5 (rebuild_stock_items 1 left_over).1.items ≡ pos 4000)
    × (ledger_total 1 5 left_over.ledger ≡ pos 0)
unfolding rebuild_stock_items quantity_of find_item ledger_total
left_over_run = (refl, refl)
