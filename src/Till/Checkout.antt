-- ===== src/Till/Checkout.antt =====
-- `complete_sale` of apps/pos/services.py, with `_write_sale_line`, `_handle_credit` and
-- `_queue_fiscal_receipt`.
use retail_system.Prelude.{
  ℕ, suc, ◌+◌, Bool, true, false, ◌||◌, Option, none, some, List, [], ◌∷◌, ◌==◌, if◌then◌else◌,
  is_some, pos, ◌+ℤ◌, neg, Result, ok, raise_if, ◌>>=◌, ◌>>◌,
}
use retail_system.Customers.Account.{CreditKind, CreditTransaction, Account, balance}
use retail_system.Inventory.Batches.{Batch, pick_batch, BatchRow, annotate}
use retail_system.Inventory.Movement.{Request, record_movement}
use retail_system.Inventory.State.{MovementReason, Source, Stock, StockError, get_stock_item}
use retail_system.Till.Amounts.{
  CartLine, line_total, tax_for, subtotal, discount_total, tax_total, total,
}
use retail_system.Till.State.{
  SaleStatus, SaleLine, SalePayment, Sale, sale_completed, credit_extended, Till, TillError,
  nothing_to_sell, is_credit, lift_stock, find_uuid,
}

-- The arguments of `complete_sale`. `number` is the one on which `save_with_number` settles.
pub record Checkout : Type 0 where
  pub branch : ℕ
  pub customer : Option ℕ
  pub lines : List CartLine
  pub payments : List SalePayment
  pub shift : Option ℕ
  pub client_uuid : Option ℕ
  pub invoice : Option ℕ
  pub respect_stock_setting : Bool
  pub number : ℕ

unfoldable pub sale_request : Checkout → ℕ → CartLine → Option ℕ → Request
sale_request c v l batch = record {
  variant = v;
  qty_delta = neg (pos l.qty);
  reason = MovementReason.sale;
  branch = c.branch;
  batch = batch;
  unit_cost = none;
  source = some (Source.of_sale c.number);
  allow_negative = if c.respect_stock_setting then none else some true;
}

unfoldable pub sale_line : ℕ → CartLine → Option ℕ → ℕ → SaleLine
unfolding tax_for line_total
sale_line k l batch cost = record {
  pk = k;
  variant = l.variant;
  batch = batch;
  qty = l.qty;
  unit_price = l.unit_price;
  unit_cost = cost;
  discount = l.discount;
  tax_rate = l.tax_rate;
  tax_amount = tax_for l;
  line_total = line_total l;
}

abbrev pub pk_of : Option Batch → Option ℕ
pk_of none = none
pk_of (some b) = some b.pk

-- `_write_sale_line` for a product: its cost is the average of the moment.
unfoldable pub write_product_line :
    Checkout → List BatchRow → ℕ → ℕ → CartLine → Stock → Result StockError (SaleLine × Stock)
unfolding sale_request sale_line get_stock_item pick_batch annotate
write_product_line c rows k v l s = do
  let (item, items) = get_stock_item c.branch v s.items
  let batch = pk_of (pick_batch v (pos l.qty) (annotate c.branch s.ledger rows))
  s' ← record_movement (sale_request c v l batch) (record s { items = items })
  ok (sale_line k l batch item.avg_cost, s')

-- `_write_sale_line`: an open item touches no stock.
unfoldable pub write_sale_line :
    Checkout → List BatchRow → ℕ → CartLine → Stock → Result StockError (SaleLine × Stock)
unfolding write_product_line sale_line
write_sale_line c rows k l s = elim l.variant [
  | none ↦ ok (sale_line k l none 0, s)
  | some v ↦ write_product_line c rows k v l s
]

unfoldable pub write_sale_lines :
    Checkout → List BatchRow → ℕ → List CartLine → Stock → Result StockError (List SaleLine × Stock)
unfolding write_sale_line
write_sale_lines c rows k [] s = ok ([], s)
write_sale_lines c rows k (l ∷ ls) s = do
  (l', s') ← write_sale_line c rows k l s
  (ls', s'') ← write_sale_lines c rows (suc k) ls s'
  ok (l' ∷ ls', s'')

-- What is put on account.
unfoldable pub credit_paid : List SalePayment → ℕ
credit_paid [] = 0
credit_paid (p ∷ ps) =
    let rest = credit_paid ps in if is_credit p.method then p.amount + rest else rest

unfoldable pub credit_entry : ℕ → ℕ → Account → ℕ → CreditTransaction
unfolding balance
credit_entry customer credit ts number = record {
  customer = customer;
  kind = CreditKind.charge;
  amount = pos credit;
  doc_amount = none;
  balance_after = balance customer ts +ℤ pos credit;
  sale = some number;
  invoice = none;
  undoes = false;
}

-- `_handle_credit`: goods against an invoice were charged when it was issued.
unfoldable pub handle_credit : Sale → Till → Till
unfolding credit_paid credit_entry
handle_credit sale t = elim sale.customer [
  | none ↦ t
  | some customer ↦
      let credit = credit_paid sale.payments in
      if credit == 0 || is_some sale.invoice then t else record t {
        account = credit_entry customer credit t.account sale.number ∷ t.account;
        events = credit_extended sale.number customer (pos credit) ∷ t.events;
      }
]

-- `_queue_fiscal_receipt`
unfoldable pub queue_fiscal_receipt : Sale → Till → Till
queue_fiscal_receipt sale t = elim t.fiscal_provider [
  | none ↦ t
  | some provider ↦ record t { fiscal = sale.number ∷ t.fiscal }
]

unfoldable pub new_sale : Checkout → List SaleLine → Sale
unfolding subtotal discount_total tax_total total
new_sale c lines = record {
  number = c.number;
  client_uuid = c.client_uuid;
  branch = c.branch;
  shift = c.shift;
  customer = c.customer;
  invoice = c.invoice;
  subtotal = subtotal c.lines;
  discount_total = discount_total c.lines;
  tax_total = tax_total c.lines;
  total = total c.lines;
  status = SaleStatus.completed;
  lines = lines;
  payments = c.payments;
  returns = [];
}

-- The part of `complete_sale` behind its early returns.
unfoldable pub write_sale : Checkout → Till → Result TillError (Sale × Till)
unfolding write_sale_lines new_sale handle_credit queue_fiscal_receipt
write_sale c t = do
  (lines, stock) ← lift_stock (write_sale_lines c t.batches 0 c.lines t.stock)
  let sale = new_sale c lines
  let written = record t { stock = stock; sales = sale ∷ t.sales }
  let posted = queue_fiscal_receipt sale (handle_credit sale written)
  ok (sale, record posted { events = sale_completed sale.number ∷ posted.events })

-- The sale already stored under the uuid of this one.
unfoldable pub already_stored : Checkout → Till → Option Sale
unfolding find_uuid
already_stored c t = elim c.client_uuid [ none ↦ none | some u ↦ find_uuid u t.sales ]

unfoldable pub is_empty : List CartLine → Bool
is_empty [] = true
is_empty (l ∷ ls) = false

unfoldable pub complete_sale : Checkout → Till → Result TillError (Sale × Till)
unfolding write_sale already_stored is_empty
complete_sale c t =
    raise_if (is_empty c.lines) nothing_to_sell
    >> (elim (already_stored c t) [ none ↦ write_sale c t | some sale ↦ ok (sale, t) ])
