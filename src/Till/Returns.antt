-- ===== src/Till/Returns.antt =====
-- `create_return` of apps/pos/services.py as a whole.
use retail_system.Prelude.{
  ℕ, Bool, not, ◌&&◌, Option, none, some, List, ◌∷◌, if◌then◌else◌, is_some, ℤ, pos, ltb_ℤ, eqb_ℤ,
  Result, err, ok, raise_if, ◌>>=◌, ◌>>◌,
}
use retail_system.Customers.Account.{Account}
use retail_system.Till.Refund.{
  return_lines, amounts, allocate_refund, was_paid_by, is_fully_returned,
}
use retail_system.Till.State.{
  PaymentMethod, SaleStatus, ReturnLine, Return, Sale, sale_returned, Till, TillError,
  sale_not_found, invoiced_sale, voided_sale, refund_as_paid, nothing_returned, no_drawer,
  is_voided, find_sale, save_sale,
}
use retail_system.Till.Void.{reverse_credit}

-- The keyword arguments of `create_return`.
pub record ReturnRequest : Type 0 where
  pub number : ℕ
  pub quantities : ℕ → ℤ
  pub method : PaymentMethod
  pub restock : Bool
  pub shift : Option ℕ
  pub require_drawer : Bool

unfoldable pub return_doc : Sale → ReturnRequest → List ReturnLine → Return
unfolding amounts allocate_refund
return_doc sale q rs =
    let total = amounts rs in
    let split = allocate_refund sale total q.method in
    record {
      method = q.method;
      shift = q.shift;
      restock = q.restock;
      lines = rs;
      total = total;
      cash_amount = split.cash;
      credit_amount = split.credit;
      other_amount = split.other;
    }

unfoldable pub sale_after_return : Sale → Return → Sale
unfolding is_fully_returned
sale_after_return sale doc =
    let returns = doc ∷ sale.returns in
    record sale {
      returns = returns;
      status =
          if is_fully_returned returns sale.lines
          then SaleStatus.refunded
          else SaleStatus.part_refunded;
    }

unfoldable pub credit_after_return : Sale → Return → Account → Account
unfolding reverse_credit
credit_after_return sale doc ts =
    if ltb_ℤ (pos 0) doc.credit_amount then reverse_credit sale (some doc.credit_amount) ts else ts

unfoldable pub return_found : Sale → ReturnRequest → Till → Result TillError (Return × Till)
unfolding was_paid_by return_lines return_doc sale_after_return credit_after_return save_sale
return_found sale q t = do
  raise_if (is_voided sale.status) voided_sale
  raise_if (is_some sale.invoice) invoiced_sale
  raise_if (not (was_paid_by q.method sale.payments)) refund_as_paid
  (rs, stock) ← return_lines sale q.restock q.quantities sale.lines t.stock
  raise_if (eqb_ℤ (amounts rs) (pos 0)) nothing_returned
  let doc = return_doc sale q rs
  raise_if (q.require_drawer && ltb_ℤ (pos 0) doc.cash_amount && not (is_some q.shift)) no_drawer
  ok (
    doc,
    record t {
      stock = stock;
      sales = save_sale (sale_after_return sale doc) t.sales;
      account = credit_after_return sale doc t.account;
      events = sale_returned sale.number ∷ t.events;
    },
  )

unfoldable pub create_return : ReturnRequest → Till → Result TillError (Return × Till)
unfolding return_found find_sale
create_return q t = elim (find_sale q.number t.sales) [
  | none ↦ err sale_not_found
  | some sale ↦ return_found sale q t
]
