-- ===== src/Till/CheckoutLaws.antt =====
-- What completing a sale does to the stock, the account and the list of sales.
use retail_system.Prelude.{
  ℕ, suc, ◌≡◌, ◌≢◌, ◌↔◌, inl, inr, false, not, ◌&&◌, none, some, List, [], ◌∷◌, arith,
  if◌then◌else◌, Option-cases, is_some, ℤ, pos, ◌+ℤ◌, ◌-ℤ◌, +ℤ_zero, err, ok, >>=-eq-ok,
}
use retail_system.Customers.Account.{balance, is_some_of, balance-cons}
use retail_system.Inventory.Batches.{BatchRow}
use retail_system.Inventory.Ledger.{IsConsistent}
use retail_system.Inventory.Movement.{may_go_negative, write_movement, record_movement}
use retail_system.Inventory.State.{Stock, StockError, quantity_of, ledger_total}
use retail_system.Inventory.Transit.{at_branch}
use retail_system.Till.Amounts.{CartLine, total}
use retail_system.Till.Checkout.{
  Checkout, write_product_line, write_sale_line, write_sale_lines, credit_paid, credit_entry,
  handle_credit, queue_fiscal_receipt, new_sale, write_sale, already_stored, is_empty,
  complete_sale,
}
use retail_system.Till.Sold.{sold, write_sale_lines_effect}
use retail_system.Till.State.{
  SaleLine, Sale, Till, TillError, nothing_to_sell, lift_stock, find_uuid,
}

-- What a sale puts on the account of a customer: nothing for goods against an invoice.
unfoldable pub credit_charged : Checkout → ℕ → ℤ
credit_charged c customer =
    if is_some_of c.customer customer && not (is_some c.invoice)
    then pos (credit_paid c.payments)
    else pos 0

-- What posting a sale leaves alone.
abbrev pub SameStock : Till → Till → Type 0
SameStock t t' = (t'.stock ≡ t.stock) × (t'.sales ≡ t.sales)

pub handle_credit_lem :
    (c : Checkout) (lines : List SaleLine) (t : Till) (customer : ℕ)
    → let t' = handle_credit (new_sale c lines) t in
      (balance customer t'.account ≡ balance customer t.account +ℤ credit_charged c customer)
      × SameStock t t'
unfolding handle_credit credit_charged new_sale
handle_credit_lem c lines t customer = elim (Option-cases c.customer) [
  | inl e ↦ ground (arith, +ℤ_zero (balance customer t.account))
  | inr (k, e) ↦ ground (
    arith,
    +ℤ_zero (balance customer t.account),
    balance-cons customer (credit_entry k (credit_paid c.payments) t.account c.number) t.account,
  )
]

pub queue_fiscal_receipt_lem :
    (sale : Sale) (t : Till)
    → let t' = queue_fiscal_receipt sale t in SameStock t t' × (t'.account ≡ t.account)
unfolding queue_fiscal_receipt
queue_fiscal_receipt_lem sale t = ground arith

pub write_sale_effect :
    (c : Checkout) (t t' : Till) (sale : Sale) (b v customer : ℕ)
    → write_sale c t ≡ ok (sale, t')
    → let out = at_branch b c.branch (sold t.stock v c.lines) in
      (quantity_of b v t'.stock.items ≡ quantity_of b v t.stock.items -ℤ out)
      × (ledger_total b v t'.stock.ledger ≡ ledger_total b v t.stock.ledger -ℤ out)
      × (balance customer t'.account ≡ balance customer t.account +ℤ credit_charged c customer)
      × (t'.sales ≡ sale ∷ t.sales)
      × (sale.client_uuid ≡ c.client_uuid)
      × (sale.total ≡ total c.lines)
      × (sale.payments ≡ c.payments)
unfolding write_sale new_sale
write_sale_effect c t t' sale b v customer h =
    let (p, e, h') = >>=-eq-ok (lift_stock (write_sale_lines c t.batches 0 c.lines t.stock)) _ h in
    let made = new_sale c p.0 in
    let written = record t { stock = p.1; sales = made ∷ t.sales } in
    let posted = handle_credit made written in
    ground (
      arith,
      write_sale_lines_effect c t.batches 0 c.lines p.0 t.stock p.1 b v,
      handle_credit_lem c p.0 written customer,
      queue_fiscal_receipt_lem made posted,
    )

-- The same of a sale that is not stored yet.
pub complete_sale-write :
    (c : Checkout) (t t' : Till) (sale : Sale) (b v customer : ℕ)
    → already_stored c t ≡ none
    → complete_sale c t ≡ ok (sale, t')
    → let out = at_branch b c.branch (sold t.stock v c.lines) in
      (quantity_of b v t'.stock.items ≡ quantity_of b v t.stock.items -ℤ out)
      × (ledger_total b v t'.stock.ledger ≡ ledger_total b v t.stock.ledger -ℤ out)
      × (balance customer t'.account ≡ balance customer t.account +ℤ credit_charged c customer)
      × (t'.sales ≡ sale ∷ t.sales)
      × (sale.client_uuid ≡ c.client_uuid)
      × (sale.total ≡ total c.lines)
      × (sale.payments ≡ c.payments)
unfolding complete_sale
complete_sale-write c t t' sale b v customer n h =
    write_sale_effect c t t' sale b v customer (ground arith)

-- A retried sync stores a sale once: sent again, in whatever state of the basket, a sale with the
-- uuid of one just completed changes nothing and answers with that one.
pub complete_sale_idempotent :
    (c c' : Checkout) (t t' : Till) (sale : Sale) (u : ℕ)
    → c.client_uuid ≡ some u
    → c'.client_uuid ≡ some u
    → is_empty c'.lines ≡ false
    → complete_sale c t ≡ ok (sale, t')
    → complete_sale c' t' ≡ ok (sale, t')
unfolding complete_sale already_stored find_uuid
complete_sale_idempotent c c' t t' sale u e e' n h =
    ground (arith, write_sale_effect c t t' sale 0 0 0)

-- A sale that is stored takes what it sold out of the stock of its branch alone, keeps the cached
-- quantities in step with the ledger, charges what was put on account to its customer alone (and
-- nothing where an invoice did so), and is one new row whose total is that of its lines.
pub complete_sale_effect :
    (c : Checkout) (t t' : Till) (sale : Sale)
    → IsConsistent t.stock
    → already_stored c t ≡ none
    → complete_sale c t ≡ ok (sale, t')
    → ((b v : ℕ)
        → quantity_of b v t'.stock.items
          ≡ quantity_of b v t.stock.items -ℤ at_branch b c.branch (sold t.stock v c.lines))
      × IsConsistent t'.stock
      × ((customer : ℕ)
          → balance customer t'.account ≡ balance customer t.account +ℤ credit_charged c customer)
      × (t'.sales ≡ sale ∷ t.sales)
      × (sale.total ≡ total c.lines)
complete_sale_effect c t t' sale k n h =
    let effect = λ (b v customer : ℕ). complete_sale-write c t t' sale b v customer n h in
    (
      λ b v. (effect b v 0).0,
      λ b v. ground (arith, effect b v 0, k b v),
      λ customer. (effect 0 0 customer).2,
      (effect 0 0 0).3,
      (effect 0 0 0).5,
    )

write_sale_line-ne-err :
    (c : Checkout) (rows : List BatchRow) (k : ℕ) (l : CartLine) (s : Stock) (e : StockError)
    → c.respect_stock_setting ≡ false
    → write_sale_line c rows k l s ≢ err e
unfolding write_sale_line write_product_line record_movement write_movement may_go_negative
write_sale_line-ne-err c rows k l s e f = grind arith

write_sale_lines-ne-err :
    (c : Checkout) (rows : List BatchRow) (k : ℕ) (ls : List CartLine) (s : Stock) (e : StockError)
    → c.respect_stock_setting ≡ false
    → write_sale_lines c rows k ls s ≢ err e
unfolding write_sale_lines
write_sale_lines-ne-err c rows k [] s e f = λ h. cc
write_sale_lines-ne-err c rows k (l ∷ ls) s e f =
    grind (arith, write_sale_line-ne-err c rows k l, write_sale_lines-ne-err c rows (suc k) ls)

-- A counter sale always goes through, stock or no stock: it is refused only with an empty basket.
pub counter_sale_refused :
    (c : Checkout) (t : Till) (e : TillError)
    → c.respect_stock_setting ≡ false
    → (complete_sale c t ≡ err e) ↔ ((c.lines ≡ []) × (e ≡ nothing_to_sell))
unfolding complete_sale write_sale is_empty
counter_sale_refused c t e f = grind (arith, write_sale_lines-ne-err c t.batches 0 c.lines t.stock)
