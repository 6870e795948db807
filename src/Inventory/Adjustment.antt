-- ===== src/Inventory/Adjustment.antt =====
-- `adjust` and `_adjust_movement` of apps/inventory/services.py.
use retail_system.Prelude.{
  ℕ, ◌≡◌, sym, ◌∙◌, Bool, true, false, not, ◌&&◌, Option, none, some, List, arith, if◌then◌else◌, ℤ,
  pos, ◌-ℤ◌, ◌≤ℤ◌, ltb_ℤ, eqb_ℤ, -ℤ_parts, eq_of_parts, +ℤ_zero, +ℤ_sub, -ℤ_zero, Result, ok,
  raise_if, ◌>>◌,
}
use retail_system.Inventory.Ledger.{IsConsistent, change, record_movement_effect}
use retail_system.Inventory.Movement.{Request, record_movement}
use retail_system.Inventory.State.{
  MovementReason, StockItem, Stock, StockError, stock_changed, is_at, new_item, get_stock_item,
  quantity_of, ledger_total, find-save_item,
}

pub record Adjust : Type 0 where
  pub variant : ℕ
  pub new_qty : ℤ
  pub branch : ℕ
  pub wastage : Bool
  pub expected_qty : Option ℤ

-- `_adjust_movement`
unfoldable pub adjust_movement : Adjust → ℤ → Request
adjust_movement a delta = record {
  variant = a.variant;
  qty_delta = delta;
  reason = if a.wastage then MovementReason.wastage else MovementReason.adjustment;
  branch = a.branch;
  batch = none;
  unit_cost = none;
  source = none;
  allow_negative = some true;
}

-- The quantity is another one than the person saw.
unfoldable pub is_stale : Option ℤ → ℤ → Bool
is_stale none qty = false
is_stale (some seen) qty = not (eqb_ℤ qty seen)

unfoldable pub adjust : Adjust → Stock → Result StockError Stock
unfolding is_stale adjust_movement get_stock_item
adjust a s =
    let (item, items) = get_stock_item a.branch a.variant s.items in
    let delta = a.new_qty -ℤ item.qty_on_hand in
    raise_if (is_stale a.expected_qty item.qty_on_hand) (stock_changed item.qty_on_hand)
    >> raise_if (a.wastage && ltb_ℤ (pos 0) delta) (stock_changed item.qty_on_hand)
    >> (if eqb_ℤ delta (pos 0)
        then ok (record s { items = items })
        else record_movement (adjust_movement a delta) (record s { items = items }))

pub get_stock_item_same :
    (b v b' v' : ℕ) (is : List StockItem)
    → (quantity_of b' v' (get_stock_item b v is).1 ≡ quantity_of b' v' is)
      × ((get_stock_item b v is).0.qty_on_hand ≡ quantity_of b v is)
unfolding get_stock_item quantity_of new_item
get_stock_item_same b v b' v' is =
    ground (arith, find-save_item b' v' (new_item b v) is, eq_of_parts (quantity_of b v is) (pos 0))

pub adjust_effect :
    (a : Adjust) (s s' : Stock) (b v : ℕ)
    → adjust a s ≡ ok s'
    → let after =
        if is_at b v a.branch a.variant && s.tracked a.variant
        then a.new_qty
        else quantity_of b v s.items in
      (quantity_of b v s'.items ≡ after)
      × (quantity_of b v s.items ≡ ledger_total b v s.ledger → ledger_total b v s'.ledger ≡ after)
      × (s'.tracked ≡ s.tracked)
unfolding adjust change
adjust_effect a s s' b v h =
    let (item, items) = get_stock_item a.branch a.variant s.items in
    let delta = a.new_qty -ℤ item.qty_on_hand in
    ground (
      arith,
      get_stock_item_same a.branch a.variant b v s.items,
      get_stock_item_same a.branch a.variant a.branch a.variant s.items,
      record_movement_effect (adjust_movement a delta) (record s { items = items }) s' b v,
      -ℤ_zero a.new_qty item.qty_on_hand,
      +ℤ_sub a.new_qty item.qty_on_hand,
      +ℤ_zero (quantity_of b v items),
      +ℤ_zero (ledger_total b v s.ledger),
    )

adjust_guards :
    (a : Adjust) (s s' : Stock)
    → adjust a s ≡ ok s'
    → let held = quantity_of a.branch a.variant s.items in
      (a.wastage ≡ true → a.new_qty ≤ℤ held) × (is_stale a.expected_qty held ≡ false)
unfolding adjust
adjust_guards a s s' h =
    let item = (get_stock_item a.branch a.variant s.items).0 in
    ground (
      arith,
      get_stock_item_same a.branch a.variant a.branch a.variant s.items,
      -ℤ_parts a.new_qty item.qty_on_hand,
    )

is_stale-some : (q qty : ℤ) → is_stale (some q) qty ≡ false → qty ≡ q
unfolding is_stale
is_stale-some q qty h = ground (arith, eq_of_parts qty q)

-- An adjustment that goes through leaves exactly the quantity that was counted, if the product is
-- tracked, and no other quantity moves; the cache stays in step with the ledger. With wastage it
-- never adds stock, and an expected quantity was the quantity held.
pub adjust_sets :
    (a : Adjust) (s s' : Stock)
    → IsConsistent s
    → s.tracked a.variant ≡ true
    → adjust a s ≡ ok s'
    → let held = quantity_of a.branch a.variant s.items in
      IsConsistent s'
      × ((b v : ℕ)
          → quantity_of b v s'.items
            ≡ (if is_at b v a.branch a.variant then a.new_qty else quantity_of b v s.items))
      × (a.wastage ≡ true → a.new_qty ≤ℤ held)
      × ((q : ℤ) → a.expected_qty ≡ some q → held ≡ q)
adjust_sets a s s' c t h = (
  λ b v. (adjust_effect a s s' b v h).0 ∙ sym ((adjust_effect a s s' b v h).1 (c b v)),
  λ b v. ground (arith, adjust_effect a s s' b v h, t),
  (adjust_guards a s s' h).0,
  λ q e. is_stale-some q _ (rw e at (adjust_guards a s s' h).1),
)
