-- ===== src/Inventory/RebuildLaws.antt =====
-- About `ensure_stock_items` of apps/inventory/services.py.
use retail_system.Prelude.{ℕ, ◌≡◌, refl, ◌∙◌, ◌≢◌, true, not, ◌&&◌, none, List, [], ◌∷◌, arith}
use retail_system.Inventory.Ledger.{IsConsistent}
use retail_system.Inventory.Rebuild.{mem_ℕ, missing_at, create_rows, ensure_stock_items}
use retail_system.Inventory.State.{
  StockItem, Stock, find_item, new_item, save_item, quantity_of, find-save_item, is_none,
  quantity_of-save_new,
}

create_rows_quantity :
    (b b' v : ℕ) (vs : List ℕ) (is : List StockItem)
    → quantity_of b' v (create_rows b vs is) ≡ quantity_of b' v is
unfolding create_rows
create_rows_quantity b b' v [] is = refl
create_rows_quantity b b' v (w ∷ vs) is = ground (
  arith,
  create_rows_quantity b b' v vs (save_item (new_item b w) is),
  create_rows_quantity b b' v vs is,
  quantity_of-save_new b w b' v is,
)

create_rows_found :
    (b v : ℕ) (vs : List ℕ) (is : List StockItem)
    → is_none (find_item b v (create_rows b vs is))
      ≡ (not (mem_ℕ v vs) && is_none (find_item b v is))
unfolding create_rows mem_ℕ new_item
create_rows_found b v [] is = ground arith
create_rows_found b v (w ∷ vs) is = ground (
  arith,
  create_rows_found b v vs (save_item (new_item b w) is),
  create_rows_found b v vs is,
  find-save_item b v (new_item b w) is,
)

missing_at_mem :
    (b v : ℕ) (vs : List ℕ) (is : List StockItem)
    → mem_ℕ v (missing_at b vs is) ≡ (mem_ℕ v vs && is_none (find_item b v is))
unfolding missing_at mem_ℕ
missing_at_mem b v [] is = ground arith
missing_at_mem b v (w ∷ vs) is = ground (arith, missing_at_mem b v vs is)

-- Afterwards every wanted product has its line at the branch, and no quantity anywhere has changed:
-- the cache is in step with the ledger as it was.
pub ensure_stock_items_complete :
    (b : ℕ) (wanted : List ℕ) (s : Stock)
    → IsConsistent s
    → let (n, s') = ensure_stock_items b wanted s in
      ((v : ℕ) → mem_ℕ v wanted ≡ true → find_item b v s'.items ≢ none)
      × ((b' v : ℕ) → quantity_of b' v s'.items ≡ quantity_of b' v s.items)
      × IsConsistent s'
unfolding ensure_stock_items
ensure_stock_items_complete b wanted s c =
    let missing = missing_at b wanted s.items in
    (
      λ v m.
          ground (arith, create_rows_found b v missing s.items, missing_at_mem b v wanted s.items),
      λ b' v. create_rows_quantity b b' v missing s.items,
      λ b' v. create_rows_quantity b b' v missing s.items ∙ c b' v,
    )
