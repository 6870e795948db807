-- ===== src/Inventory/Sample.antt =====
-- A shop with twelve units of one product, on which the theorems of the stock are tried.
use retail_system.Prelude.{◌≡◌, refl, false, not, none, some, [], ◌∷◌, ◌==◌, pos, ◌+ℤ◌, ok}
use retail_system.Inventory.Ledger.{IsConsistent, record_movement-IsConsistent}
use retail_system.Inventory.Movement.{Request, record_movement}
use retail_system.Inventory.State.{
  MovementReason, Source, CostMethod, StockSettings, StockItem, StockMovement, stock_moved, Stock,
  find_item, item_or_new, save_item, quantity_of, ledger_total,
}
use retail_system.Money.{half_even}

abbrev pub settings : StockSettings
settings = record { negative_stock_allowed = false; cost_method = CostMethod.weighted_average }

abbrev pub empty : Stock
empty = record {
  items = [];
  ledger = [];
  events = [];
  settings = some settings;
  tracked = λ v. not (v == 9);
}

-- Twelve units at 2.50 each, at branch 1.
abbrev pub purchase_request : Request
purchase_request = record {
  variant = 5;
  qty_delta = pos 12_000;
  reason = MovementReason.purchase;
  branch = 1;
  batch = none;
  unit_cost = some 250;
  source = some (Source.of_receipt 3);
  allow_negative = none;
}

abbrev pub stocked_item : StockItem
stocked_item = record {
  branch = 1;
  variant = 5;
  qty_on_hand = pos 12_000;
  avg_cost = 250;
  reorder_level = none;
  last_counted_at = none;
}

abbrev pub stocked_movement : StockMovement
stocked_movement = record {
  branch = 1;
  variant = 5;
  batch = none;
  qty_delta = pos 12_000;
  unit_cost = 250;
  reason = MovementReason.purchase;
  source = some (Source.of_receipt 3);
  balance_after = pos 12_000;
}

abbrev pub stocked : Stock
stocked = record empty {
  items = stocked_item ∷ [];
  ledger = stocked_movement ∷ [];
  events = stock_moved 1 5 (pos 12_000) ∷ [];
}

pub purchase_run : record_movement purchase_request empty ≡ ok stocked
unfolding record_movement item_or_new find_item save_item half_even ◌+ℤ◌
purchase_run = refl

pub empty-IsConsistent : IsConsistent empty
unfolding quantity_of find_item ledger_total
empty-IsConsistent b v = refl

pub stocked-IsConsistent : IsConsistent stocked
stocked-IsConsistent =
    record_movement-IsConsistent purchase_request empty stocked empty-IsConsistent purchase_run
