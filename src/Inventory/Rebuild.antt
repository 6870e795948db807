-- ===== src/Inventory/Rebuild.antt =====
-- `rebuild_stock_items` and `ensure_stock_items` of apps/inventory/services.py.
use retail_system.Prelude.{
  ℕ, ◌+◌, ◌≡◌, refl, Bool, false, not, ◌&&◌, ◌||◌, List, [], ◌∷◌, arith, ◌==◌, if◌then◌else◌, ℤ,
  eqb_ℤ, eq_of_parts, length,
}
use retail_system.Inventory.State.{
  StockItem, StockMovement, Stock, is_at, find_item, new_item, save_item, quantity_of, ledger_total,
  is_none,
}
use retail_system.Purchasing.Receipts.{wanted}
use retail_system.Till.Amounts.{total}

unfoldable pub mem_ℕ : ℕ → List ℕ → Bool
mem_ℕ v [] = false
mem_ℕ v (w ∷ ws) = v == w || mem_ℕ v ws

-- `.values("variant")` of the ledger at a branch: each variant once.
unfoldable pub variants_at : ℕ → List StockMovement → List ℕ
unfolding mem_ℕ
variants_at b [] = []
variants_at b (m ∷ ms) =
    let rest = variants_at b ms in
    if b == m.branch && not (mem_ℕ m.variant rest) then m.variant ∷ rest else rest

-- `.exclude(qty_on_hand=total).update(qty_on_hand=total)`, with the number of rows updated.
unfoldable pub update_row : ℕ → ℕ → ℤ → StockItem → ℕ × StockItem
update_row b v total i =
    if is_at b v i.branch i.variant && not (eqb_ℤ i.qty_on_hand total)
    then (1, record i { qty_on_hand = total })
    else (0, i)

unfoldable pub update_rows : ℕ → ℕ → ℤ → List StockItem → ℕ × List StockItem
update_rows b v total [] = (0, [])
update_rows b v total (i ∷ is) =
    let (k, i') = update_row b v total i in
    let (n, is') = update_rows b v total is in (k + n, i' ∷ is')

unfoldable pub rebuild_rows : ℕ → List StockMovement → List ℕ → List StockItem → ℕ × List StockItem
unfolding update_rows
rebuild_rows b ledger [] is = (0, is)
rebuild_rows b ledger (v ∷ vs) is =
    let (n, is') = update_rows b v (ledger_total b v ledger) is in
    let (m, is'') = rebuild_rows b ledger vs is' in (n + m, is'')

unfoldable pub rebuild_stock_items : ℕ → Stock → ℕ × Stock
unfolding rebuild_rows variants_at
rebuild_stock_items b s =
    let (n, is) = rebuild_rows b s.ledger (variants_at b s.ledger) s.items in
    (n, record s { items = is })

update_row_lem :
    (b v : ℕ) (total : ℤ) (i : StockItem)
    → let i' = (update_row b v total i).1 in
      (i'.branch ≡ i.branch)
      × (i'.variant ≡ i.variant)
      × (i'.qty_on_hand ≡ (if is_at b v i.branch i.variant then total else i.qty_on_hand))
unfolding update_row
update_row_lem b v total i = ground (arith, eq_of_parts i.qty_on_hand total)

quantity_of-update_rows :
    (b v b' v' : ℕ) (total : ℤ) (is : List StockItem)
    → quantity_of b' v' (update_rows b v total is).1 ≡ (
        if is_at b v b' v' && not (is_none (find_item b v is)) then total else quantity_of b' v' is)
unfolding quantity_of find_item update_rows
quantity_of-update_rows b v b' v' total [] = ground arith
quantity_of-update_rows b v b' v' total (i ∷ is) =
    ground (arith, quantity_of-update_rows b v b' v' total is, update_row_lem b v total i)

found-update_rows :
    (b v b' v' : ℕ) (total : ℤ) (is : List StockItem)
    → is_none (find_item b' v' (update_rows b v total is).1) ≡ is_none (find_item b' v' is)
unfolding find_item update_rows
found-update_rows b v b' v' total [] = refl
found-update_rows b v b' v' total (i ∷ is) =
    ground (arith, found-update_rows b v b' v' total is, update_row_lem b v total i)

rebuild_rows_effect :
    (b b' v : ℕ) (ledger : List StockMovement) (vs : List ℕ) (is : List StockItem)
    → quantity_of b' v (rebuild_rows b ledger vs is).1 ≡ (
        if b == b' && mem_ℕ v vs && not (is_none (find_item b v is))
        then ledger_total b v ledger
        else quantity_of b' v is)
unfolding rebuild_rows mem_ℕ
rebuild_rows_effect b b' v ledger [] is = ground arith
rebuild_rows_effect b b' v ledger (w ∷ vs) is =
    let is' = (update_rows b w (ledger_total b w ledger) is).1 in
    ground (
      arith,
      rebuild_rows_effect b b' v ledger vs is',
      quantity_of-update_rows b w b' v (ledger_total b w ledger) is,
      found-update_rows b w b v (ledger_total b w ledger) is,
    )

-- Whether a product has ever moved at a branch.
unfoldable pub has_moved : ℕ → ℕ → List StockMovement → Bool
has_moved b v [] = false
has_moved b v (m ∷ ms) = is_at b v m.branch m.variant || has_moved b v ms

variants_at-mem :
    (b v : ℕ) (ms : List StockMovement) → mem_ℕ v (variants_at b ms) ≡ has_moved b v ms
unfolding variants_at mem_ℕ has_moved
variants_at-mem b v [] = refl
variants_at-mem b v (m ∷ ms) = ground (arith, variants_at-mem b v ms)

-- A rebuild of a branch sets the quantity of a product there to what the ledger adds up to exactly
-- where the product has a row and has moved at the branch. Every other quantity stays as it was, at
-- the branch, where a row without a movement keeps what it says, and elsewhere; and so does the
-- ledger.
pub rebuild_stock_items_repairs :
    (b : ℕ) (s : Stock)
    → let (n, s') = rebuild_stock_items b s in
      ((b' v : ℕ)
        → quantity_of b' v s'.items ≡ (
            if b == b' && has_moved b v s.ledger && not (is_none (find_item b v s.items))
            then ledger_total b v s.ledger
            else quantity_of b' v s.items))
      × (s'.ledger ≡ s.ledger)
unfolding rebuild_stock_items
rebuild_stock_items_repairs b s = (
  λ b' v. ground (
    arith,
    rebuild_rows_effect b b' v s.ledger (variants_at b s.ledger) s.items,
    variants_at-mem b v s.ledger,
  ),
  refl,
)

-- Where the cache is in step with the ledger, a rebuild changes nothing that is read.
pub rebuild_stock_items_idle :
    (b b' v : ℕ) (s : Stock)
    → quantity_of b v s.items ≡ ledger_total b v s.ledger
    → quantity_of b' v (rebuild_stock_items b s).1.items ≡ quantity_of b' v s.items
unfolding rebuild_stock_items
rebuild_stock_items_idle b b' v s c =
    ground (arith, rebuild_rows_effect b b' v s.ledger (variants_at b s.ledger) s.items)

-- `Variant.objects.filter(is_active…, track_stock…)` without the variants that have a row here.
unfoldable pub missing_at : ℕ → List ℕ → List StockItem → List ℕ
missing_at b [] is = []
missing_at b (v ∷ vs) is =
    let rest = missing_at b vs is in if is_none (find_item b v is) then v ∷ rest else rest

-- `bulk_create(…, ignore_conflicts=True)` of empty rows.
unfoldable pub create_rows : ℕ → List ℕ → List StockItem → List StockItem
unfolding new_item
create_rows b [] is = is
create_rows b (v ∷ vs) is =
    create_rows b vs (if is_none (find_item b v is) then save_item (new_item b v) is else is)

-- `wanted` are the variants on sale of the products that keep count.
unfoldable pub ensure_stock_items : ℕ → List ℕ → Stock → ℕ × Stock
unfolding missing_at create_rows
ensure_stock_items b wanted s =
    let missing = missing_at b wanted s.items in
    (length missing, record s { items = create_rows b missing s.items })
