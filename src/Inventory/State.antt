-- ===== src/Inventory/State.antt =====
-- The stock tables of apps/inventory/models.py: the cached quantities and the ledger of movements.
-- Quantities are signed thousandths of a unit and costs are cents.
use retail_system.Prelude.{
  ℕ, ◌≡◌, inl, inr, Bool, true, false, ◌&&◌, Option, none, some, List, [], ◌∷◌, arith, ◌==◌,
  if◌then◌else◌, Option-cases, ℤ, pos, ◌+ℤ◌, leb_ℤ,
}

pub data MovementReason : Type 0 where
  opening purchase sale return supplier_return transfer_out transfer_in : MovementReason
  adjustment wastage count : MovementReason

-- `source_type` and `source_id`
pub data Source : Type 0 where
  of_sale of_return of_transfer of_count of_receipt : ℕ → Source

pub data CostMethod : Type 0 where
  weighted_average last_cost : CostMethod

pub record StockSettings : Type 0 where
  pub negative_stock_allowed : Bool
  pub cost_method : CostMethod

pub record StockItem : Type 0 where
  pub branch : ℕ
  pub variant : ℕ
  pub qty_on_hand : ℤ
  pub avg_cost : ℕ
  pub reorder_level : Option ℤ
  pub last_counted_at : Option ℕ

pub record StockMovement : Type 0 where
  pub branch : ℕ
  pub variant : ℕ
  pub batch : Option ℕ
  pub qty_delta : ℤ
  pub unit_cost : ℕ
  pub reason : MovementReason
  pub source : Option Source
  pub balance_after : ℤ

-- The branch, the variant and the quantity on hand.
pub data StockEvent : Type 0 where
  stock_moved stock_negative stock_low : ℕ → ℕ → ℤ → StockEvent

-- `settings` is `TenantSettings.objects.first()` and `tracked` is `variant.product.track_stock`.
-- The ledger and the events are newest first.
pub record Stock : Type 0 where
  pub items : List StockItem
  pub ledger : List StockMovement
  pub events : List StockEvent
  pub settings : Option StockSettings
  pub tracked : ℕ → Bool

-- What is raised: `InsufficientStock` with what is there and what is wanted, `StockChanged` with
-- the quantity now, and the three `ValueError`s on the state of a document.
pub data StockError : Type 0 where
  insufficient_stock : ℤ → ℤ → StockError
  stock_changed : ℤ → StockError
  not_draft not_sent already_applied : StockError

abbrev pub is_at : ℕ → ℕ → ℕ → ℕ → Bool
is_at b v b' v' = b == b' && v == v'

-- `StockItem.is_low`
unfoldable pub is_low : StockItem → Bool
is_low i = elim i.reorder_level [ none ↦ false | some level ↦ leb_ℤ i.qty_on_hand level ]

-- `StockItem.objects.filter(branch=…, variant=…).first()`
unfoldable pub find_item : ℕ → ℕ → List StockItem → Option StockItem
find_item b v [] = none
find_item b v (i ∷ is) = if is_at b v i.branch i.variant then some i else find_item b v is

-- A row just created holds nothing.
unfoldable pub new_item : ℕ → ℕ → StockItem
new_item b v = record {
  branch = b;
  variant = v;
  qty_on_hand = pos 0;
  avg_cost = 0;
  reorder_level = none;
  last_counted_at = none;
}

unfoldable pub item_or_new : ℕ → ℕ → List StockItem → StockItem
unfolding new_item
item_or_new b v is = elim (find_item b v is) [ none ↦ new_item b v | some i ↦ i ]

-- `item.save()`: the row of its branch and variant is written, or inserted where there is none.
unfoldable pub save_item : StockItem → List StockItem → List StockItem
save_item i [] = i ∷ []
save_item i (j ∷ js) =
    if is_at i.branch i.variant j.branch j.variant then i ∷ js else j ∷ save_item i js

-- `get_stock_item` with `create=True`: the row, and the table in which it stands.
unfoldable pub get_stock_item : ℕ → ℕ → List StockItem → StockItem × List StockItem
unfolding new_item
get_stock_item b v is = elim (find_item b v is) [
  | none ↦ (new_item b v, save_item (new_item b v) is)
  | some i ↦ (i, is)
]

-- `quantity_of`: no row counts as nothing.
unfoldable pub quantity_of : ℕ → ℕ → List StockItem → ℤ
quantity_of b v is = elim (find_item b v is) [ none ↦ pos 0 | some i ↦ i.qty_on_hand ]

-- What the ledger says: the sum of the movements of a variant at a branch.
unfoldable pub ledger_total : ℕ → ℕ → List StockMovement → ℤ
ledger_total b v [] = pos 0
ledger_total b v (m ∷ ms) =
    let rest = ledger_total b v ms in
    if is_at b v m.branch m.variant then m.qty_delta +ℤ rest else rest

pub find-save_item :
    (b v : ℕ) (i : StockItem) (is : List StockItem)
    → find_item b v (save_item i is)
      ≡ (if is_at b v i.branch i.variant then some i else find_item b v is)
unfolding find_item save_item
find-save_item b v i [] = ground arith
find-save_item b v i (j ∷ js) = ground (arith, find-save_item b v i js)

pub quantity_of-save_item :
    (b v : ℕ) (i : StockItem) (is : List StockItem)
    → quantity_of b v (save_item i is)
      ≡ (if is_at b v i.branch i.variant then i.qty_on_hand else quantity_of b v is)
unfolding quantity_of
quantity_of-save_item b v i is = ground (arith, find-save_item b v i is)

-- A found row is the one of its branch and variant.
pub find_item_at :
    (b v : ℕ) (is : List StockItem) (i : StockItem)
    → find_item b v is ≡ some i
    → (i.branch ≡ b) × (i.variant ≡ v)
unfolding find_item
find_item_at b v [] i h = cc
find_item_at b v (j ∷ js) i h = ground (arith, find_item_at b v js i)

pub item_or_new_at :
    (b v : ℕ) (is : List StockItem)
    → ((item_or_new b v is).branch ≡ b)
      × ((item_or_new b v is).variant ≡ v)
      × ((item_or_new b v is).qty_on_hand ≡ quantity_of b v is)
unfolding item_or_new quantity_of new_item
item_or_new_at b v is = elim (Option-cases (find_item b v is)) [
  | inl e ↦ ground arith
  | inr (i, e) ↦ ground (arith, find_item_at b v is i e)
]

abbrev pub is_none {ℓ} : {A : Type ℓ} → Option A → Bool
is_none none = true
is_none (some _) = false

-- A row made where there is none holds nothing, so no quantity changes.
pub quantity_of-save_new :
    (b w b' v : ℕ) (is : List StockItem)
    → is_none (find_item b w is) ≡ true
    → quantity_of b' v (save_item (new_item b w) is) ≡ quantity_of b' v is
unfolding quantity_of new_item
quantity_of-save_new b w b' v is h = ground (arith, find-save_item b' v (new_item b w) is)
