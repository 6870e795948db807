-- ===== src/Till/Sold.antt =====
-- What the lines of a sale take out of the stock: `complete_sale` of apps/pos/services.py.
use mathlib.Core.Path.{ap₂}
use retail_system.Prelude.{
  ℕ, suc, ◌≡◌, refl, inl, inr, ◌&&◌, Option, none, some, List, [], ◌∷◌, arith, ◌==◌, if◌then◌else◌,
  Option-cases, ℤ, pos, ◌+ℤ◌, ◌-ℤ◌, +ℤ_zero, -ℤ_zero_right, +ℤ_neg, ok, >>=-eq-ok,
}
use retail_system.Inventory.Adjustment.{get_stock_item_same}
use retail_system.Inventory.Batches.{pick_batch, BatchRow, annotate}
use retail_system.Inventory.Ledger.{change, record_movement_effect}
use retail_system.Inventory.State.{Stock, get_stock_item, quantity_of, ledger_total}
use retail_system.Inventory.Transit.{at_branch, SameRules, fall_twice}
use retail_system.Till.Amounts.{CartLine}
use retail_system.Till.Checkout.{
  Checkout, sale_request, pk_of, write_product_line, write_sale_line, write_sale_lines,
}
use retail_system.Till.State.{SaleLine}

-- What a quantity of a product, or of nothing in the catalogue, is of one tracked product.
unfoldable pub taken : Stock → ℕ → Option ℕ → ℕ → ℤ
taken s v none qty = pos 0
taken s v (some w) qty = if v == w && s.tracked w then pos qty else pos 0

-- What a line takes out of the branch, of one product.
unfoldable pub line_sold : Stock → ℕ → CartLine → ℤ
unfolding taken
line_sold s v l = taken s v l.variant l.qty

unfoldable pub sold : Stock → ℕ → List CartLine → ℤ
sold s v [] = pos 0
sold s v (l ∷ ls) = line_sold s v l +ℤ sold s v ls

pub taken_rules :
    (s s' : Stock) (v : ℕ) (w : Option ℕ) (qty : ℕ)
    → s'.tracked ≡ s.tracked
    → taken s' v w qty ≡ taken s v w qty
unfolding taken
taken_rules s s' v none qty e = refl
taken_rules s s' v (some w) qty e = rw e

pub sold_rules :
    (s s' : Stock) (v : ℕ) (ls : List CartLine)
    → s'.tracked ≡ s.tracked
    → sold s' v ls ≡ sold s v ls
unfolding sold line_sold
sold_rules s s' v [] e = refl
sold_rules s s' v (l ∷ ls) e =
    ap₂ ◌+ℤ◌ (taken_rules s s' v l.variant l.qty e) (sold_rules s s' v ls e)

write_product_line_effect :
    (c : Checkout) (rows : List BatchRow) (k w : ℕ) (l : CartLine) (l' : SaleLine) (s s' : Stock)
    (b v : ℕ)
    → write_product_line c rows k w l s ≡ ok (l', s')
    → let out = at_branch b c.branch (if v == w && s.tracked w then pos l.qty else pos 0) in
      (quantity_of b v s'.items ≡ quantity_of b v s.items -ℤ out)
      × (ledger_total b v s'.ledger ≡ ledger_total b v s.ledger -ℤ out)
      × SameRules s s'
unfolding write_product_line change
write_product_line_effect c rows k w l l' s s' b v h =
    let (item, items) = get_stock_item c.branch w s.items in
    let batch = pk_of (pick_batch w (pos l.qty) (annotate c.branch s.ledger rows)) in
    ground (
      arith,
      get_stock_item_same c.branch w b v s.items,
      record_movement_effect (sale_request c w l batch) (record s { items = items }) s' b v,
      +ℤ_neg (quantity_of b v s.items) (pos l.qty),
      +ℤ_neg (ledger_total b v s.ledger) (pos l.qty),
      +ℤ_zero (quantity_of b v s.items),
      +ℤ_zero (ledger_total b v s.ledger),
      -ℤ_zero_right (quantity_of b v s.items),
      -ℤ_zero_right (ledger_total b v s.ledger),
    )

write_sale_line_effect :
    (c : Checkout) (rows : List BatchRow) (k : ℕ) (l : CartLine) (l' : SaleLine) (s s' : Stock)
    (b v : ℕ)
    → write_sale_line c rows k l s ≡ ok (l', s')
    → let out = at_branch b c.branch (line_sold s v l) in
      (quantity_of b v s'.items ≡ quantity_of b v s.items -ℤ out)
      × (ledger_total b v s'.ledger ≡ ledger_total b v s.ledger -ℤ out)
      × SameRules s s'
unfolding write_sale_line line_sold
write_sale_line_effect c rows k l l' s s' b v h = elim (Option-cases l.variant) [
  | inl e ↦
      ground
        (arith, -ℤ_zero_right (quantity_of b v s.items), -ℤ_zero_right (ledger_total b v s.ledger))
  | inr (w, e) ↦ ground (arith, write_product_line_effect c rows k w l l' s s' b v)
]

pub write_sale_lines_effect :
    (c : Checkout) (rows : List BatchRow) (k : ℕ) (ls : List CartLine) (ls' : List SaleLine)
    (s s' : Stock) (b v : ℕ)
    → write_sale_lines c rows k ls s ≡ ok (ls', s')
    → let out = at_branch b c.branch (sold s v ls) in
      (quantity_of b v s'.items ≡ quantity_of b v s.items -ℤ out)
      × (ledger_total b v s'.ledger ≡ ledger_total b v s.ledger -ℤ out)
      × SameRules s s'
unfolding write_sale_lines sold
write_sale_lines_effect c rows k [] ls' s s' b v h =
    ground
      (arith, -ℤ_zero_right (quantity_of b v s.items), -ℤ_zero_right (ledger_total b v s.ledger))
write_sale_lines_effect c rows k (l ∷ ls) ls' s s' b v h =
    let (p, e, h') = >>=-eq-ok (write_sale_line c rows k l s) _ h in
    let (p', e', h'') = >>=-eq-ok (write_sale_lines c rows (suc k) ls p.1) _ h' in
    ground (
      arith,
      write_sale_line_effect c rows k l p.0 s p.1 b v e,
      write_sale_lines_effect c rows (suc k) ls p'.0 p.1 p'.1 b v e',
      sold_rules s p.1 v ls,
      fall_twice b c.branch (quantity_of b v s.items) (quantity_of b v p.1.items)
          (quantity_of b v s'.items) (line_sold s v l) (sold s v ls),
      fall_twice b c.branch (ledger_total b v s.ledger) (ledger_total b v p.1.ledger)
          (ledger_total b v s'.ledger) (line_sold s v l) (sold s v ls),
    )
