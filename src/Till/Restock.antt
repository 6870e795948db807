-- ===== src/Till/Restock.antt =====
-- What a void puts back into stock.
use mathlib.Core.Path.{ap₂}
use retail_system.Prelude.{
  ℕ, suc, ◌≡◌, refl, ◌≢◌, inl, inr, List, [], ◌∷◌, arith, Option-cases, ℤ, pos, ◌+ℤ◌, +ℤ_zero, err,
  ok, >>=-eq-ok,
}
use retail_system.Inventory.Batches.{BatchRow}
use retail_system.Inventory.Ledger.{change, record_movement_effect}
use retail_system.Inventory.Movement.{may_go_negative, write_movement, record_movement}
use retail_system.Inventory.State.{Stock, StockError, quantity_of, ledger_total}
use retail_system.Inventory.Transit.{at_branch, SameRules, rise_twice}
use retail_system.Till.Amounts.{CartLine}
use retail_system.Till.Checkout.{
  Checkout, sale_line, write_product_line, write_sale_line, write_sale_lines,
}
use retail_system.Till.Sold.{taken, line_sold, sold, taken_rules}
use retail_system.Till.State.{SaleLine, Sale}
use retail_system.Till.Void.{void_request, restock_line, restock_lines}

unfoldable pub line_back : Stock → ℕ → SaleLine → ℤ
unfolding taken
line_back s v l = taken s v l.variant l.qty

unfoldable pub brought_back : Stock → ℕ → List SaleLine → ℤ
brought_back s v [] = pos 0
brought_back s v (l ∷ ls) = line_back s v l +ℤ brought_back s v ls

back_rules :
    (s s' : Stock) (v : ℕ) (ls : List SaleLine)
    → s'.tracked ≡ s.tracked
    → brought_back s' v ls ≡ brought_back s v ls
unfolding brought_back line_back
back_rules s s' v [] e = refl
back_rules s s' v (l ∷ ls) e =
    ap₂ ◌+ℤ◌ (taken_rules s s' v l.variant l.qty e) (back_rules s s' v ls e)

restock_line_effect :
    (sale : Sale) (l : SaleLine) (s s' : Stock) (b v : ℕ)
    → restock_line sale l s ≡ ok s'
    → let d = at_branch b sale.branch (line_back s v l) in
      (quantity_of b v s'.items ≡ quantity_of b v s.items +ℤ d)
      × (ledger_total b v s'.ledger ≡ ledger_total b v s.ledger +ℤ d)
      × SameRules s s'
unfolding restock_line line_back change
restock_line_effect sale l s s' b v h = elim (Option-cases l.variant) [
  | inl e ↦ ground (arith, +ℤ_zero (quantity_of b v s.items), +ℤ_zero (ledger_total b v s.ledger))
  | inr (w, e) ↦ ground (
    arith,
    record_movement_effect (void_request sale l w) s s' b v,
    +ℤ_zero (quantity_of b v s.items),
    +ℤ_zero (ledger_total b v s.ledger),
  )
]

pub restock_lines_effect :
    (sale : Sale) (ls : List SaleLine) (s s' : Stock) (b v : ℕ)
    → restock_lines sale ls s ≡ ok s'
    → let d = at_branch b sale.branch (brought_back s v ls) in
      (quantity_of b v s'.items ≡ quantity_of b v s.items +ℤ d)
      × (ledger_total b v s'.ledger ≡ ledger_total b v s.ledger +ℤ d)
      × SameRules s s'
unfolding restock_lines brought_back
restock_lines_effect sale [] s s' b v h =
    ground (arith, +ℤ_zero (quantity_of b v s.items), +ℤ_zero (ledger_total b v s.ledger))
restock_lines_effect sale (l ∷ ls) s s' b v h =
    let (m, e, h') = >>=-eq-ok (restock_line sale l s) _ h in
    ground (
      arith,
      restock_line_effect sale l s m b v e,
      restock_lines_effect sale ls m s' b v h',
      back_rules s m v ls,
      rise_twice b sale.branch (quantity_of b v s.items) (quantity_of b v m.items)
          (quantity_of b v s'.items) (line_back s v l) (brought_back s v ls),
      rise_twice b sale.branch (ledger_total b v s.ledger) (ledger_total b v m.ledger)
          (ledger_total b v s'.ledger) (line_back s v l) (brought_back s v ls),
    )

restock_line-ne-err :
    (sale : Sale) (l : SaleLine) (s : Stock) (e : StockError) → restock_line sale l s ≢ err e
unfolding restock_line record_movement write_movement may_go_negative
restock_line-ne-err sale l s e = grind arith

pub restock_lines-ne-err :
    (sale : Sale) (ls : List SaleLine) (s : Stock) (e : StockError)
    → restock_lines sale ls s ≢ err e
unfolding restock_lines
restock_lines-ne-err sale [] s e = λ h. cc
restock_lines-ne-err sale (l ∷ ls) s e =
    grind (arith, restock_line-ne-err sale l, restock_lines-ne-err sale ls)

-- The sale lines written at the till bring back just what the basket took out.
write_sale_line_keeps :
    (c : Checkout) (rows : List BatchRow) (k : ℕ) (l : CartLine) (l' : SaleLine) (s s' : Stock)
    → write_sale_line c rows k l s ≡ ok (l', s')
    → (l'.variant ≡ l.variant) × (l'.qty ≡ l.qty)
unfolding write_sale_line write_product_line sale_line
write_sale_line_keeps c rows k l l' s s' h = grind arith

line_back-eq-line_sold :
    (l : CartLine) (l' : SaleLine) (s : Stock) (v : ℕ)
    → (l'.variant ≡ l.variant) × (l'.qty ≡ l.qty)
    → line_back s v l' ≡ line_sold s v l
unfolding line_back line_sold
line_back-eq-line_sold l l' s v e = ap₂ (taken s v) e.0 e.1

pub write_sale_lines-back :
    (c : Checkout) (rows : List BatchRow) (k : ℕ) (ls : List CartLine) (ls' : List SaleLine)
    (s s' s₀ : Stock) (v : ℕ)
    → write_sale_lines c rows k ls s ≡ ok (ls', s')
    → brought_back s₀ v ls' ≡ sold s₀ v ls
unfolding write_sale_lines brought_back sold
write_sale_lines-back c rows k [] ls' s s' s₀ v h = ground arith
write_sale_lines-back c rows k (l ∷ ls) ls' s s' s₀ v h =
    let (p, e, h') = >>=-eq-ok (write_sale_line c rows k l s) _ h in
    let (p', e', h'') = >>=-eq-ok (write_sale_lines c rows (suc k) ls p.1) _ h' in
    ground (
      arith,
      line_back-eq-line_sold l p.0 s₀ v (write_sale_line_keeps c rows k l p.0 s p.1 e),
      write_sale_lines-back c rows (suc k) ls p'.0 p.1 p'.1 s₀ v e',
    )
