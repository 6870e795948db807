-- ===== src/Purchasing/ReceiptLaws.antt =====
-- What putting a delivery into stock does to the quantities and to the lines of its order.
use retail_system.Prelude.{
  ℕ, ◌≡◌, refl, inl, inr, ◌&&◌, List, [], ◌∷◌, arith, ◌==◌, if◌then◌else◌, Option-cases, ℤ, pos,
  ◌+ℤ◌, +ℤ_zero, +ℤ_assoc, ok, >>=-eq-ok,
}
use retail_system.Inventory.Ledger.{change, record_movement_effect}
use retail_system.Inventory.Movement.{record_movement}
use retail_system.Inventory.State.{Stock, quantity_of, ledger_total}
use retail_system.Inventory.Transit.{at_branch, rise_twice}
use retail_system.Purchasing.Orders.{PurchaseOrderLine}
use retail_system.Purchasing.Receipts.{
  GoodsReceiptLine, GoodsReceipt, Receiving, wanted, get_or_create_batch, receipt_request,
  add_received, lines_after, lift_movement, stock_line, stock_lines,
}

-- What a line brings of a product, where the product is tracked.
unfoldable pub line_brought : Stock → ℕ → GoodsReceiptLine → ℤ
line_brought s v l = if v == l.variant && s.tracked l.variant then l.qty else pos 0

unfoldable pub brought : Stock → ℕ → List GoodsReceiptLine → ℤ
unfolding line_brought
brought s v [] = pos 0
brought s v (l ∷ ls) = line_brought s v l +ℤ brought s v ls

brought_rules :
    (s s' : Stock) (v : ℕ) (ls : List GoodsReceiptLine)
    → s'.tracked ≡ s.tracked
    → brought s' v ls ≡ brought s v ls
unfolding brought line_brought
brought_rules s s' v [] e = refl
brought_rules s s' v (l ∷ ls) e = rw (e, brought_rules s s' v ls e)

-- The lines of orders once everything that a delivery brings is received on them.
unfoldable pub with_received :
    List GoodsReceiptLine → List PurchaseOrderLine → List PurchaseOrderLine
unfolding wanted
with_received ls [] = []
with_received ls (o ∷ os) =
    record o { qty_received = o.qty_received +ℤ wanted o.pk ls } ∷ with_received ls os

pub with_received-none : (os : List PurchaseOrderLine) → with_received [] os ≡ os
unfolding with_received wanted
with_received-none [] = refl
with_received-none (o ∷ os) = rw (+ℤ_zero o.qty_received, with_received-none os)

with_received-after :
    (l : GoodsReceiptLine) (ls : List GoodsReceiptLine) (os : List PurchaseOrderLine)
    → with_received ls (lines_after l os) ≡ with_received (l ∷ ls) os
unfolding with_received wanted lines_after add_received
with_received-after l ls [] = elim (Option-cases l.order_line) [
  | inl e ↦ rw e refl
  | inr (k, e) ↦ rw e refl
]
with_received-after l ls (o ∷ os) =
    let rest = with_received-after l ls os in
    elim (Option-cases l.order_line) [
      | inl e ↦ ground (arith, rest)
      | inr (k, e) ↦ ground (arith, rest, +ℤ_assoc o.qty_received l.qty (wanted o.pk ls))
    ]

stock_line_effect :
    (r : GoodsReceipt) (l : GoodsReceiptLine) (w w' : Receiving) (b v : ℕ)
    → stock_line r l w ≡ ok w'
    → let come = at_branch b r.branch (line_brought w.stock v l) in
      (quantity_of b v w'.stock.items ≡ quantity_of b v w.stock.items +ℤ come)
      × (ledger_total b v w'.stock.ledger ≡ ledger_total b v w.stock.ledger +ℤ come)
      × (w'.stock.tracked ≡ w.stock.tracked)
      × (w'.order_lines ≡ lines_after l w.order_lines)
unfolding stock_line line_brought change receipt_request
stock_line_effect r l w w' b v h =
    let got = get_or_create_batch l w.batches in
    let (s, e, h') =
      >>=-eq-ok (lift_movement (record_movement (receipt_request r l got.0) w.stock)) _ h in
    ground (
      arith,
      record_movement_effect (receipt_request r l got.0) w.stock s b v,
      +ℤ_zero (quantity_of b v w.stock.items),
      +ℤ_zero (ledger_total b v w.stock.ledger),
    )

pub stock_lines_effect :
    (r : GoodsReceipt) (ls : List GoodsReceiptLine) (w w' : Receiving) (b v : ℕ)
    → stock_lines r ls w ≡ ok w'
    → let come = at_branch b r.branch (brought w.stock v ls) in
      (quantity_of b v w'.stock.items ≡ quantity_of b v w.stock.items +ℤ come)
      × (ledger_total b v w'.stock.ledger ≡ ledger_total b v w.stock.ledger +ℤ come)
      × (w'.order_lines ≡ with_received ls w.order_lines)
unfolding stock_lines brought
stock_lines_effect r [] w w' b v h = ground (
  arith,
  with_received-none w.order_lines,
  +ℤ_zero (quantity_of b v w.stock.items),
  +ℤ_zero (ledger_total b v w.stock.ledger),
)
stock_lines_effect r (l ∷ ls) w w' b v h =
    let (w₁, e, h') = >>=-eq-ok (stock_line r l w) _ h in
    let one = stock_line_effect r l w w₁ b v e in
    let rest = stock_lines_effect r ls w₁ w' b v h' in
    ground (
      arith,
      one,
      rest,
      brought_rules w.stock w₁.stock v ls,
      with_received-after l ls w.order_lines,
      rise_twice b r.branch (quantity_of b v w.stock.items) (quantity_of b v w₁.stock.items)
          (quantity_of b v w'.stock.items) (line_brought w.stock v l) (brought w.stock v ls),
      rise_twice b r.branch (ledger_total b v w.stock.ledger) (ledger_total b v w₁.stock.ledger)
          (ledger_total b v w'.stock.ledger) (line_brought w.stock v l) (brought w.stock v ls),
    )
