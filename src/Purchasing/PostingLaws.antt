-- ===== src/Purchasing/PostingLaws.antt =====
-- What `post_receipt` of apps/purchasing/services.py does to the stock, the order and itself.
use retail_system.Prelude.{
  ℕ, ◌≡◌, true, false, not, List, arith, ◌==◌, ◌+ℤ◌, length, err, ok, raise_if, >>=-eq-ok,
}
use retail_system.Inventory.Ledger.{IsConsistent}
use retail_system.Inventory.State.{quantity_of}
use retail_system.Inventory.Transit.{at_branch}
use retail_system.Purchasing.Bills.{apply_advances}
use retail_system.Purchasing.OrderLaws.{NoneBeyond, IsOwn, NoneBeyond-received}
use retail_system.Purchasing.Orders.{PurchaseOrder}
use retail_system.Purchasing.PostedLaws.{any_tracked, is_posted-stock_lines, any_tracked-some}
use retail_system.Purchasing.Posting.{Buying, Setting, bill_for, post_receipt}
use retail_system.Purchasing.ReceiptLaws.{brought, stock_lines_effect}
use retail_system.Purchasing.Receipts.{
  GoodsReceipt, nothing_to_receive, qty_not_positive, already_received, Receiving, all_positive,
  is_posted, stock_lines, check_order, refresh_order, put_into_stock,
}

pub put_into_stock_runs :
    (r : GoodsReceipt) (orders orders' : List PurchaseOrder) (w w' : Receiving)
    → put_into_stock r orders w ≡ ok (orders', w')
    → (all_positive r.lines ≡ true)
      × (is_posted r.pk w.stock.ledger ≡ false)
      × (check_order r orders w.order_lines ≡ ok tt)
      × (stock_lines r r.lines w ≡ ok w')
      × (orders' ≡ refresh_order r w'.order_lines orders)
unfolding put_into_stock
put_into_stock_runs r orders orders' w w' h =
    let (u, e, h₁) = >>=-eq-ok (raise_if (length r.lines == 0) nothing_to_receive) _ h in
    let (u', e', h₂) = >>=-eq-ok (raise_if (not (all_positive r.lines)) qty_not_positive) _ h₁ in
    let (u₂, e₂, h₃) = >>=-eq-ok (raise_if (is_posted r.pk w.stock.ledger) already_received) _ h₂ in
    let (u₃, e₃, h₄) = >>=-eq-ok (check_order r orders w.order_lines) _ h₃ in
    let (w₁, e₄, h₅) = >>=-eq-ok (stock_lines r r.lines w) _ h₄ in
    (ground arith, ground arith, e₃, ground arith, ground arith)

pub post_receipt_runs :
    (env : Setting) (r : GoodsReceipt) (w w' : Buying)
    → post_receipt env r w ≡ ok w'
    → (put_into_stock r w.orders w.goods ≡ ok (w'.orders, w'.goods))
      × (bill_for env r w.bills ≡ ok w'.bills)
      × (w'.payments ≡ apply_advances env.new_payment r.supplier w'.bills w.payments)
unfolding post_receipt
post_receipt_runs env r w w' h =
    let (p, e, h₁) = >>=-eq-ok (put_into_stock r w.orders w.goods) _ h in
    let (bills, f, h₂) = >>=-eq-ok (bill_for env r w.bills) _ h₁ in ground arith

-- A delivery that is put into stock raises the quantities at its own branch by what its lines
-- bring of tracked products, and no others; the cache stays in step with the ledger; and where the
-- lines name lines of the delivery's own order, nothing has come in beyond what was ordered if
-- that held before.
pub post_receipt_effect :
    (env : Setting) (r : GoodsReceipt) (w w' : Buying)
    → IsConsistent w.goods.stock
    → IsOwn r w.goods.order_lines
    → NoneBeyond w.goods.order_lines
    → post_receipt env r w ≡ ok w'
    → ((b v : ℕ)
        → quantity_of b v w'.goods.stock.items
          ≡ quantity_of b v w.goods.stock.items
            +ℤ at_branch b r.branch (brought w.goods.stock v r.lines))
      × IsConsistent w'.goods.stock
      × NoneBeyond w'.goods.order_lines
post_receipt_effect env r w w' c own n h =
    let (p, f, g) = post_receipt_runs env r w w' h in
    let (positive, fresh, checked, ran, refreshed) =
      put_into_stock_runs r w.orders w'.orders w.goods w'.goods p in
    let lines = (stock_lines_effect r r.lines w.goods w'.goods 0 0 ran).2 in
    (
      λ b v. (stock_lines_effect r r.lines w.goods w'.goods b v ran).0,
      λ b v. ground (arith, stock_lines_effect r r.lines w.goods w'.goods b v ran, c b v),
      rw lines (NoneBeyond-received r w.orders w.goods.order_lines own n checked),
    )

-- A delivery with a product whose stock is kept is posted once: posting it again is refused,
-- whatever was typed and whatever the day.
pub post_receipt_once :
    (env later : Setting) (r : GoodsReceipt) (w w' : Buying)
    → any_tracked w.goods.stock r.lines ≡ true
    → post_receipt env r w ≡ ok w'
    → post_receipt later r w' ≡ err already_received
unfolding post_receipt put_into_stock
post_receipt_once env later r w w' t h =
    let (p, f, g) = post_receipt_runs env r w w' h in
    let (positive, fresh, checked, ran, refreshed) =
      put_into_stock_runs r w.orders w'.orders w.goods w'.goods p in
    ground (
      arith,
      is_posted-stock_lines r r.lines w.goods w'.goods positive ran,
      any_tracked-some w.goods.stock r.lines t,
    )
