-- ===== src/Till/Refund.antt =====
-- `create_return` and `_allocate_refund` of apps/pos/services.py, with `SaleLine.qty_returned` of
-- apps/pos/models.py.
use retail_system.Prelude.{
  ℕ, ◌+◌, Bool, true, false, ◌&&◌, ◌||◌, Option, none, some, List, [], ◌∷◌, ltb, leb, ◌==◌,
  if◌then◌else◌, ℤ, pos, pos_part, ◌+ℤ◌, ◌-ℤ◌, ◌*ℤ◌, ltb_ℤ, eqb_ℤ, min_ℤ, max_ℤ, Result, ok, ◌>>=◌,
  ◌>>◌, raise_if,
}
use retail_system.Inventory.Movement.{Request, record_movement}
use retail_system.Inventory.State.{MovementReason, Source, Stock, StockError}
use retail_system.Money.{half_up_ℤ}
use retail_system.Till.Amounts.{total}
use retail_system.Till.State.{
  PaymentMethod, SaleLine, SalePayment, ReturnLine, Return, Sale, TillError, too_many_returned,
  lift_stock,
}

unfoldable pub doc_qty : ℕ → List ReturnLine → ℕ
doc_qty pk [] = 0
doc_qty pk (r ∷ rs) = let rest = doc_qty pk rs in if pk == r.sale_line then r.qty + rest else rest

unfoldable pub doc_amount : ℕ → List ReturnLine → ℤ
doc_amount pk [] = pos 0
doc_amount pk (r ∷ rs) =
    let rest = doc_amount pk rs in if pk == r.sale_line then r.amount +ℤ rest else rest

-- `qty_returned`: across every return of the sale.
unfoldable pub qty_returned : ℕ → List Return → ℕ
unfolding doc_qty
qty_returned pk [] = 0
qty_returned pk (d ∷ ds) = doc_qty pk d.lines + qty_returned pk ds

-- `already_paid_back`
unfoldable pub paid_back : ℕ → List Return → ℤ
unfolding doc_amount
paid_back pk [] = pos 0
paid_back pk (d ∷ ds) = doc_amount pk d.lines +ℤ paid_back pk ds

-- `price(line.line_total / line.qty)`, per whole unit.
unfoldable pub unit_price_of : SaleLine → ℤ
unfolding half_up_ℤ
unit_price_of l = if l.qty == 0 then pos 0 else half_up_ℤ (l.line_total *ℤ pos 1000) l.qty

-- What `qty` of a line refunds, where `already` came back before and `back` was paid for it.
unfoldable pub refund_amount : SaleLine → ℕ → ℕ → ℤ → ℤ
unfolding unit_price_of half_up_ℤ min_ℤ
refund_amount l already qty back =
    if leb l.qty (already + qty)
    then l.line_total -ℤ back
    else min_ℤ (half_up_ℤ (unit_price_of l *ℤ pos qty) 1000) (l.line_total -ℤ back)

unfoldable pub return_request : Sale → SaleLine → ℕ → ℕ → Request
return_request sale l v qty = record {
  variant = v;
  qty_delta = pos qty;
  reason = MovementReason.return;
  branch = sale.branch;
  batch = l.batch;
  unit_cost = none;
  source = some (Source.of_return sale.number);
  allow_negative = some true;
}

unfoldable pub return_stock : Sale → Bool → SaleLine → ℕ → Stock → Result StockError Stock
unfolding return_request
return_stock sale restock l qty s = elim l.variant [
  | none ↦ ok s
  | some v ↦ if restock then record_movement (return_request sale l v qty) s else ok s
]

-- One round of the loop: `none` where nothing of the line comes back.
unfoldable pub return_line :
    Sale → Bool → SaleLine → ℕ → Stock → Result TillError (Option ReturnLine × Stock)
unfolding qty_returned paid_back refund_amount return_stock
return_line sale restock l qty s =
    let already = qty_returned l.pk sale.returns in
    let amount = refund_amount l already qty (paid_back l.pk sale.returns) in
    if qty == 0
    then ok (none, s)
    else raise_if (ltb l.qty (already + qty)) (too_many_returned l.pk)
      >> (lift_stock (return_stock sale restock l qty s) >>= λ s'.
          ok (some (record { sale_line = l.pk; qty = qty; amount = amount }), s'))

abbrev pub cons_some : Option ReturnLine → List ReturnLine → List ReturnLine
cons_some none rs = rs
cons_some (some r) rs = r ∷ rs

-- `quantities` gives what comes back of a line; nothing or less is skipped.
unfoldable pub return_lines :
    Sale → Bool → (ℕ → ℤ) → List SaleLine → Stock → Result TillError (List ReturnLine × Stock)
unfolding return_line
return_lines sale restock quantities [] s = ok ([], s)
return_lines sale restock quantities (l ∷ ls) s = do
  (r, s') ← return_line sale restock l (pos_part (quantities l.pk)) s
  (rs, s'') ← return_lines sale restock quantities ls s'
  ok (cons_some r rs, s'')

unfoldable pub amounts : List ReturnLine → ℤ
amounts [] = pos 0
amounts (r ∷ rs) = r.amount +ℤ amounts rs

-- The three routes by which money goes back.
pub data Route : Type 0 where
  by_cash by_credit by_other : Route

abbrev pub route : PaymentMethod → Route
route PaymentMethod.cash = by_cash
route PaymentMethod.credit = by_credit
route _ = by_other

pub record Split : Type 0 where
  pub cash : ℤ
  pub credit : ℤ
  pub other : ℤ

abbrev pub add_to : Route → ℤ → Split → Split
add_to by_cash x p = record p { cash = p.cash +ℤ x }
add_to by_credit x p = record p { credit = p.credit +ℤ x }
add_to by_other x p = record p { other = p.other +ℤ x }

unfoldable pub paid_by_route : List SalePayment → Split
paid_by_route [] = record { cash = pos 0; credit = pos 0; other = pos 0 }
paid_by_route (p ∷ ps) = add_to (route p.method) (pos p.amount) (paid_by_route ps)

unfoldable pub refunded_before : List Return → Split
refunded_before [] = record { cash = pos 0; credit = pos 0; other = pos 0 }
refunded_before (d ∷ ds) =
    let rest = refunded_before ds in
    if eqb_ℤ d.total (pos 0) then rest else record {
      cash = rest.cash +ℤ d.cash_amount;
      credit = rest.credit +ℤ d.credit_amount;
      other = rest.other +ℤ d.other_amount;
    }

-- What each route can still give back.
unfoldable pub left_of : Sale → Split
unfolding paid_by_route refunded_before max_ℤ
left_of sale =
    let paid = paid_by_route sale.payments in
    let earlier = refunded_before sale.returns in
    record {
      cash = max_ℤ (paid.cash -ℤ earlier.cash) (pos 0);
      credit = max_ℤ (paid.credit -ℤ earlier.credit) (pos 0);
      other = max_ℤ (paid.other -ℤ earlier.other) (pos 0);
    }

-- The rounds of the loop in turn: credit, then the preferred way, then the other one.
unfoldable pub share_out : Split → ℤ → Route → Split
unfolding min_ℤ
share_out left total by_other =
    let credit = min_ℤ total left.credit in
    let other = min_ℤ (total -ℤ credit) left.other in
    record { cash = min_ℤ (total -ℤ credit -ℤ other) left.cash; credit = credit; other = other }
share_out left total preferred =
    let credit = min_ℤ total left.credit in
    let cash = min_ℤ (total -ℤ credit) left.cash in
    record { cash = cash; credit = credit; other = min_ℤ (total -ℤ credit -ℤ cash) left.other }

abbrev pub sum_of : Split → ℤ
sum_of p = p.cash +ℤ p.credit +ℤ p.other

-- What no route takes is added to one of them.
unfoldable pub top_up : Route → ℤ → Split → Split
top_up r total split =
    let remaining = total -ℤ sum_of split in
    if ltb_ℤ (pos 0) remaining then add_to r remaining split else split

-- `_allocate_refund`: the rest goes to the drawer if cash was paid, or else the preferred way.
unfoldable pub allocate_refund : Sale → ℤ → PaymentMethod → Split
unfolding left_of share_out top_up
allocate_refund sale total preferred =
    top_up (if eqb_ℤ (paid_by_route sale.payments).cash (pos 0) then route preferred else by_cash)
      total (share_out (left_of sale) total (route preferred))

abbrev pub same_method : PaymentMethod → PaymentMethod → Bool
same_method PaymentMethod.cash PaymentMethod.cash = true
same_method PaymentMethod.mpesa PaymentMethod.mpesa = true
same_method PaymentMethod.tigopesa PaymentMethod.tigopesa = true
same_method PaymentMethod.airtelmoney PaymentMethod.airtelmoney = true
same_method PaymentMethod.card PaymentMethod.card = true
same_method PaymentMethod.credit PaymentMethod.credit = true
same_method PaymentMethod.voucher PaymentMethod.voucher = true
same_method _ _ = false

unfoldable pub was_paid_by : PaymentMethod → List SalePayment → Bool
was_paid_by m [] = false
was_paid_by m (p ∷ ps) = same_method m p.method || was_paid_by m ps

-- `all(line.qty_returned >= line.qty …)`, over the returns with this one among them.
unfoldable pub is_fully_returned : List Return → List SaleLine → Bool
unfolding qty_returned
is_fully_returned ds [] = true
is_fully_returned ds (l ∷ ls) = leb l.qty (qty_returned l.pk ds) && is_fully_returned ds ls
