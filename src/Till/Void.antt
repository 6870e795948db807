-- ===== src/Till/Void.antt =====
-- `void_sale` and `_reverse_credit` of apps/pos/services.py.
use retail_system.Prelude.{
  ℕ, Bool, true, false, not, ◌&&◌, Option, none, some, List, [], ◌∷◌, if◌then◌else◌, is_some, ℤ,
  pos, ◌-ℤ◌, neg, leb_ℤ, min_ℤ, Result, err, ok, raise_if, ◌>>=◌, ◌>>◌,
}
use retail_system.Customers.Account.{
  CreditKind, CreditTransaction, Account, balance, is_charge, is_refund, is_some_of,
}
use retail_system.Inventory.Movement.{Request, record_movement}
use retail_system.Inventory.State.{MovementReason, Source, Stock, StockError}
use retail_system.Till.AmountLaws.{charged}
use retail_system.Till.State.{
  SaleStatus, SaleLine, Sale, sale_voided, Till, TillError, sale_not_found, not_completed,
  invoiced_sale, is_completed, lift_stock, find_sale, save_sale,
}

unfoldable pub void_request : Sale → SaleLine → ℕ → Request
void_request sale l v = record {
  variant = v;
  qty_delta = pos l.qty;
  reason = MovementReason.return;
  branch = sale.branch;
  batch = l.batch;
  unit_cost = none;
  source = some (Source.of_sale sale.number);
  allow_negative = some true;
}

unfoldable pub restock_line : Sale → SaleLine → Stock → Result StockError Stock
unfolding void_request
restock_line sale l s = elim l.variant [
  | none ↦ ok s
  | some v ↦ record_movement (void_request sale l v) s
]

unfoldable pub restock_lines : Sale → List SaleLine → Stock → Result StockError Stock
unfolding restock_line
restock_lines sale [] s = ok s
restock_lines sale (l ∷ ls) s = do s' ← restock_line sale l s; restock_lines sale ls s'

abbrev pub is_of_sale : ℕ → CreditTransaction → Bool
is_of_sale n t = is_some_of t.sale n

-- The charge that the sale made, `credit_transactions.filter(kind=CHARGE).first()`: a sale makes
-- one at most.
unfoldable pub charge_of : ℕ → Account → Option ℤ
charge_of n [] = none
charge_of n (t ∷ ts) = if is_of_sale n t && is_charge t.kind then some t.amount else charge_of n ts

-- `-sum(amount)` of the refunds of the sale.
unfoldable pub reversed_of : ℕ → Account → ℤ
reversed_of n [] = pos 0
reversed_of n (t ∷ ts) =
    let rest = reversed_of n ts in
    if is_of_sale n t && is_refund t.kind then rest -ℤ t.amount else rest

-- `min(amount if amount is not None else charged.amount, remaining)`
unfoldable pub reversal : Option ℤ → ℤ → ℤ → ℤ
unfolding min_ℤ
reversal asked charged reversed =
    min_ℤ (elim asked [ none ↦ charged | some a ↦ a ]) (charged -ℤ reversed)

unfoldable pub reversal_entry : ℕ → ℤ → ℕ → Account → CreditTransaction
unfolding balance
reversal_entry customer value number ts = record {
  customer = customer;
  kind = CreditKind.refund;
  amount = neg value;
  doc_amount = none;
  balance_after = balance customer ts -ℤ value;
  sale = some number;
  invoice = none;
  undoes = false;
}

unfoldable pub post_reversal : ℕ → ℤ → ℕ → Account → Account
unfolding reversal_entry
post_reversal customer value number ts =
    if leb_ℤ value (pos 0) then ts else reversal_entry customer value number ts ∷ ts

-- `_reverse_credit`: never more than was put on account, across every refund of the sale.
unfoldable pub reverse_credit : Sale → Option ℤ → Account → Account
unfolding charge_of reversed_of reversal post_reversal
reverse_credit sale asked ts = elim sale.customer [
  | none ↦ ts
  | some customer ↦ elim (charge_of sale.number ts) [
    | none ↦ ts
    | some charged ↦
        post_reversal customer (reversal asked charged (reversed_of sale.number ts)) sale.number ts
  ]
]

unfoldable pub void_found : Sale → Bool → Till → Result TillError Till
unfolding restock_lines reverse_credit save_sale
void_found sale for_delivery t = do
  raise_if (not (is_completed sale.status)) not_completed
  raise_if (is_some sale.invoice && not for_delivery) invoiced_sale
  stock ← lift_stock (restock_lines sale sale.lines t.stock)
  ok (record t {
    stock = stock;
    sales = save_sale (record sale { status = SaleStatus.voided }) t.sales;
    account = reverse_credit sale none t.account;
    events = sale_voided sale.number ∷ t.events;
  })

unfoldable pub void_sale : ℕ → Bool → Till → Result TillError Till
unfolding void_found find_sale
void_sale number for_delivery t = elim (find_sale number t.sales) [
  | none ↦ err sale_not_found
  | some sale ↦ void_found sale for_delivery t
]
