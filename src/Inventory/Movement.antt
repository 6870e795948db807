-- ===== src/Inventory/Movement.antt =====
-- `record_movement` of apps/inventory/services.py, the one writer of stock, with the settings that
-- it reads. A raise rolls the transaction back, so an error carries no state.
use retail_system.Prelude.{
  ℕ, ◌+◌, ◌*◌, Bool, true, not, ◌&&◌, Option, none, some, List, ◌∷◌, ◌==◌, if◌then◌else◌, ℤ, pos,
  pos_part, ◌+ℤ◌, neg, ltb_ℤ, eqb_ℤ, Result, ok, ◌>>◌, raise_if,
}
use retail_system.Inventory.State.{
  MovementReason, Source, CostMethod, StockItem, StockMovement, StockEvent, stock_moved,
  stock_negative, stock_low, Stock, StockError, insufficient_stock, is_low, item_or_new, save_item,
}
use retail_system.Money.{half_even}

-- The keyword arguments of `record_movement`; the note, the user and the uuid are not kept.
pub record Request : Type 0 where
  pub variant : ℕ
  pub qty_delta : ℤ
  pub reason : MovementReason
  pub branch : ℕ
  pub batch : Option ℕ
  pub unit_cost : Option ℕ
  pub source : Option Source
  pub allow_negative : Option Bool

-- `_negative_allowed`
unfoldable pub negative_allowed : Stock → Bool
negative_allowed s = elim s.settings [ none ↦ true | some row ↦ row.negative_stock_allowed ]

unfoldable pub cost_method : Stock → CostMethod
cost_method s = elim s.settings [ none ↦ CostMethod.weighted_average | some row ↦ row.cost_method ]

-- The average of what is held, `max(qty_on_hand, 0)`, and of what comes in.
unfoldable pub weighted : ℕ → ℕ → ℕ → ℕ → ℕ
weighted held avg_cost qty_in unit_cost =
    if held + qty_in == 0
    then unit_cost
    else half_even (held * avg_cost + qty_in * unit_cost) (held + qty_in)

-- `_new_average`, for a movement inwards.
unfoldable pub new_average : Stock → StockItem → ℤ → ℕ → ℕ
unfolding weighted cost_method
new_average s item qty_in unit_cost = elim (cost_method s) [
  | CostMethod.last_cost ↦ unit_cost
  | CostMethod.weighted_average ↦
      weighted (pos_part item.qty_on_hand) item.avg_cost (pos_part qty_in) unit_cost
]

-- The average cost of the item after the movement.
unfoldable pub cost_after : Stock → StockItem → Request → ℕ
unfolding new_average
cost_after s item r = elim r.unit_cost [
  | none ↦ item.avg_cost
  | some c ↦ if ltb_ℤ (pos 0) r.qty_delta then new_average s item r.qty_delta c else item.avg_cost
]

-- The cost written on the movement.
unfoldable pub movement_cost : StockItem → Request → ℕ
movement_cost item r = elim r.unit_cost [ none ↦ item.avg_cost | some c ↦ c ]

unfoldable pub movement_of : StockItem → Request → StockMovement
unfolding movement_cost
movement_of item r = record {
  branch = r.branch;
  variant = r.variant;
  batch = r.batch;
  qty_delta = r.qty_delta;
  unit_cost = movement_cost item r;
  reason = r.reason;
  source = r.source;
  balance_after = item.qty_on_hand +ℤ r.qty_delta;
}

unfoldable pub item_after : Stock → StockItem → Request → StockItem
unfolding cost_after
item_after s item r = record item {
  qty_on_hand = item.qty_on_hand +ℤ r.qty_delta;
  avg_cost = cost_after s item r;
}

-- The events of a movement, newest first.
unfoldable pub events_of : StockItem → List StockEvent → List StockEvent
unfolding is_low
events_of i es =
    let moved = stock_moved i.branch i.variant i.qty_on_hand ∷ es in
    if ltb_ℤ i.qty_on_hand (pos 0)
    then stock_negative i.branch i.variant i.qty_on_hand ∷ moved
    else if is_low i
    then stock_low i.branch i.variant i.qty_on_hand ∷ moved
    else moved

unfoldable pub may_go_negative : Stock → Request → Bool
unfolding negative_allowed
may_go_negative s r = elim r.allow_negative [ none ↦ negative_allowed s | some b ↦ b ]

-- The part of `record_movement` behind its two early returns, on the locked item.
unfoldable pub write_movement : Stock → StockItem → Request → Result StockError Stock
unfolding may_go_negative movement_of item_after events_of
write_movement s item r =
    let i = item_after s item r in
    raise_if (ltb_ℤ (item.qty_on_hand +ℤ r.qty_delta) (pos 0) && not (may_go_negative s r))
      (insufficient_stock item.qty_on_hand (neg r.qty_delta))
    >> ok (record s {
      items = save_item i s.items;
      ledger = movement_of item r ∷ s.ledger;
      events = events_of i s.events;
    })

unfoldable pub record_movement : Request → Stock → Result StockError Stock
unfolding write_movement
record_movement r s =
    if eqb_ℤ r.qty_delta (pos 0)
    then ok s
    else if not (s.tracked r.variant)
    then ok s
    else write_movement s (item_or_new r.branch r.variant s.items) r
