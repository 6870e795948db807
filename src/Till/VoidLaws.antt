-- ===== src/Till/VoidLaws.antt =====
-- About a sale and its void.
use retail_system.Prelude.{
  ℕ, ◌≡◌, Bool, not, ◌&&◌, none, List, ◌∷◌, arith, is_some, ℤ, ◌+ℤ◌, ◌-ℤ◌, int_laws, err, ok,
  raise_if, >>=-eq-ok,
}
use retail_system.Customers.Account.{balance}
use retail_system.Inventory.Ledger.{IsConsistent}
use retail_system.Inventory.Sample.{stocked}
use retail_system.Inventory.State.{Stock, quantity_of, ledger_total}
use retail_system.Inventory.Transit.{at_branch}
use retail_system.Till.Checkout.{
  Checkout, write_sale_lines, handle_credit, new_sale, write_sale, already_stored, complete_sale,
}
use retail_system.Till.CheckoutLaws.{handle_credit_lem, queue_fiscal_receipt_lem}
use retail_system.Till.Restock.{brought_back, restock_lines_effect, write_sale_lines-back}
use retail_system.Till.Reversal.{IsFresh, credit_undone}
use retail_system.Till.Sold.{sold, sold_rules, write_sale_lines_effect}
use retail_system.Till.State.{
  SaleStatus, SaleLine, Sale, Till, not_completed, invoiced_sale, is_completed, lift_stock,
  find_sale, save_sale,
}
use retail_system.Till.Void.{restock_lines, reverse_credit, void_found, void_sale}

pub void_found_effect :
    (sale : Sale) (fd : Bool) (t t' : Till) (b v : ℕ)
    → void_found sale fd t ≡ ok t'
    → let d = at_branch b sale.branch (brought_back t.stock v sale.lines) in
      (quantity_of b v t'.stock.items ≡ quantity_of b v t.stock.items +ℤ d)
      × (ledger_total b v t'.stock.ledger ≡ ledger_total b v t.stock.ledger +ℤ d)
      × (t'.account ≡ reverse_credit sale none t.account)
      × (t'.sales ≡ save_sale (record sale { status = SaleStatus.voided }) t.sales)
unfolding void_found
void_found_effect sale fd t t' b v h =
    let (u, g, h₁) = >>=-eq-ok (raise_if (not (is_completed sale.status)) not_completed) _ h in
    let (u', g', h₂) = >>=-eq-ok (raise_if (is_some sale.invoice && not fd) invoiced_sale) _ h₁ in
    let (p, e, h₃) = >>=-eq-ok (lift_stock (restock_lines sale sale.lines t.stock)) _ h₂ in
    ground (arith, restock_lines_effect sale sale.lines t.stock p b v)

-- What `write_sale` leaves behind, in terms of its parts.
pub write_sale_parts :
    (c : Checkout) (t t' : Till) (sale : Sale)
    → write_sale c t ≡ ok (sale, t')
    → (lines : List SaleLine) × (stock : Stock) × (write_sale_lines c t.batches 0 c.lines t.stock
        ≡ ok (lines, stock))
      × (sale ≡ new_sale c lines)
      × (t'.stock ≡ stock)
      × (t'.sales ≡ sale ∷ t.sales)
      × (t'.account
          ≡ (handle_credit sale (record t { stock = stock; sales = sale ∷ t.sales })).account)
unfolding write_sale
write_sale_parts c t t' sale h =
    let (p, e, h') = >>=-eq-ok (lift_stock (write_sale_lines c t.batches 0 c.lines t.stock)) _ h in
    let made = new_sale c p.0 in
    let written = record t { stock = p.1; sales = made ∷ t.sales } in
    let queued = queue_fiscal_receipt_lem made (handle_credit made written) in
    let kept = handle_credit_lem c p.0 written 0 in
    (
      p.0,
      p.1,
      ground arith,
      ground arith,
      ground (arith, queued, kept),
      ground (arith, queued, kept),
      ground (arith, queued, kept),
    )

restored : (b f : ℕ) (q x : ℤ) → q -ℤ at_branch b f x +ℤ at_branch b f x ≡ q
restored b f q x = omega int_laws

void_after_sale :
    (c : Checkout) (t t' t'' : Till) (sale : Sale) (fd : Bool) (b v customer : ℕ)
    → IsFresh c.number t.account
    → write_sale c t ≡ ok (sale, t')
    → void_sale c.number fd t' ≡ ok t''
    → (quantity_of b v t''.stock.items ≡ quantity_of b v t.stock.items)
      × (ledger_total b v t''.stock.ledger ≡ ledger_total b v t.stock.ledger)
      × (balance customer t''.account ≡ balance customer t.account)
      × (t''.sales ≡ record sale { status = SaleStatus.voided } ∷ t.sales)
unfolding void_sale find_sale save_sale new_sale
void_after_sale c t t' t'' sale fd b v customer f h k =
    let (lines, stock, written, made, stocked, listed, account) = write_sale_parts c t t' sale h in
    let found : void_found sale fd t' ≡ ok t'' = ground arith in
    let branch : sale.branch ≡ c.branch = ground arith in
    let kept : sale.lines ≡ lines = ground arith in
    let undone =
      credit_undone c lines (record t { stock = stock; sales = sale ∷ t.sales }) customer f in
    ground (
      arith,
      void_found_effect sale fd t' t'' b v found,
      write_sale_lines_effect c t.batches 0 c.lines lines t.stock stock b v written,
      write_sale_lines-back c t.batches 0 c.lines lines t.stock stock t'.stock v written,
      sold_rules t.stock t'.stock v c.lines,
      restored b c.branch (quantity_of b v t.stock.items) (sold t.stock v c.lines),
      restored b c.branch (ledger_total b v t.stock.ledger) (sold t.stock v c.lines),
      undone,
    )

voided_once :
    (c : Checkout) (t t' t'' : Till) (sale : Sale) (fd fd' : Bool)
    → IsFresh c.number t.account
    → write_sale c t ≡ ok (sale, t')
    → void_sale c.number fd t' ≡ ok t''
    → void_sale c.number fd' t'' ≡ err not_completed
unfolding void_sale find_sale void_found new_sale
voided_once c t t' t'' sale fd fd' f h k =
    let (lines, stock, written, made, stocked, listed, account) = write_sale_parts c t t' sale h in
    ground (arith, void_after_sale c t t' t'' sale fd 0 0 0 f h k)

-- A sale that is voided after it was completed has left no trace in what the shop holds and in what
-- its customers owe: every quantity at every branch and every balance is what it was before the
-- sale, the cache is in step with the ledger, the sale stands as voided, and it cannot be voided
-- again. Its number had no entry on an account yet.
pub void_undoes_sale :
    (c : Checkout) (t t' t'' : Till) (sale : Sale) (fd fd' : Bool)
    → IsConsistent t.stock
    → IsFresh c.number t.account
    → already_stored c t ≡ none
    → complete_sale c t ≡ ok (sale, t')
    → void_sale c.number fd t' ≡ ok t''
    → ((b v : ℕ) → quantity_of b v t''.stock.items ≡ quantity_of b v t.stock.items)
      × ((customer : ℕ) → balance customer t''.account ≡ balance customer t.account)
      × IsConsistent t''.stock
      × (t''.sales ≡ record sale { status = SaleStatus.voided } ∷ t.sales)
      × (void_sale c.number fd' t'' ≡ err not_completed)
unfolding complete_sale
void_undoes_sale c t t' t'' sale fd fd' k f n h e =
    let w : write_sale c t ≡ ok (sale, t') = ground arith in
    (
      λ b v. (void_after_sale c t t' t'' sale fd b v 0 f w e).0,
      λ customer. (void_after_sale c t t' t'' sale fd 0 0 customer f w e).2,
      λ b v. ground (arith, void_after_sale c t t' t'' sale fd b v 0 f w e, k b v),
      (void_after_sale c t t' t'' sale fd 0 0 0 f w e).3,
      voided_once c t t' t'' sale fd fd' f w e,
    )
