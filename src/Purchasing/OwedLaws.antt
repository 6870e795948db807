-- ===== src/Purchasing/OwedLaws.antt =====
-- What a delivery makes the shop owe, and what it makes of its order.
use retail_system.Prelude.{
  ℕ, ◌≡◌, refl, ◌↔◌, inl, inr, Bool, true, not, ◌&&◌, none, some, List, [], ◌∷◌, arith, ◌==◌,
  if◌then◌else◌, Option-cases, is_some, ℤ, pos, ◌+ℤ◌, ◌-ℤ◌, int_laws, +ℤ_zero, ok,
}
use retail_system.Customers.Account.{is_some_of}
use retail_system.Purchasing.AppliedLaws.{apply_advances-total}
use retail_system.Purchasing.Bills.{SupplierInvoice, invoiced, paid_to, supplier_balance}
use retail_system.Purchasing.Orders.{
  PoStatus, PurchaseOrderLine, PurchaseOrder, is_fully_received, is_settled_by_hand, is_expected,
  refresh_status,
}
use retail_system.Purchasing.Posting.{
  Buying, Setting, has_bill, find_typed, link_bill, bill_amount, delivery_number, free_number,
  new_bill_of, create_bill, bill_for, post_receipt,
}
use retail_system.Purchasing.PostingLaws.{put_into_stock_runs, post_receipt_runs}
use retail_system.Purchasing.Receipts.{GoodsReceipt, find_order, check_order, refresh_order}

-- The delivery gets a bill of its own: it has none, and none of its number stands ready.
unfoldable pub is_new_debt : Setting → GoodsReceipt → List SupplierInvoice → Bool
is_new_debt env r bs =
    not (has_bill r.pk bs) && not (is_some (find_typed env r.supplier (delivery_number r) bs))

invoiced-link_bill :
    (x k pk : ℕ) (bs : List SupplierInvoice) → invoiced x (link_bill k pk bs) ≡ invoiced x bs
unfolding invoiced link_bill
invoiced-link_bill x k pk [] = refl
invoiced-link_bill x k pk (b ∷ bs) = ground (arith, invoiced-link_bill x k pk bs)

has_bill-link_bill :
    (env : Setting) (x : ℕ) (number : List ℕ) (k : ℕ) (b : SupplierInvoice)
    → (bs : List SupplierInvoice) → find_typed env x number bs ≡ some b
    → has_bill k (link_bill k b.pk bs) ≡ true
unfolding find_typed has_bill link_bill
has_bill-link_bill env x number k b [] h = cc
has_bill-link_bill env x number k b (c ∷ cs) h =
    ground (arith, has_bill-link_bill env x number k b cs)

create_bill_effect :
    (env : Setting) (r : GoodsReceipt) (number : List ℕ) (bs bs' : List SupplierInvoice) (x : ℕ)
    → create_bill env r number bs ≡ ok bs'
    → (has_bill r.pk bs' ≡ true)
      × (invoiced x bs'
          ≡ (if r.supplier == x then bill_amount r +ℤ invoiced x bs else invoiced x bs))
unfolding create_bill new_bill_of has_bill invoiced
create_bill_effect env r number bs bs' x h = ground arith

bill_for_effect :
    (env : Setting) (r : GoodsReceipt) (bs bs' : List SupplierInvoice) (x : ℕ)
    → bill_for env r bs ≡ ok bs'
    → (has_bill r.pk bs' ≡ true)
      × (invoiced x bs' ≡ (
          if r.supplier == x && is_new_debt env r bs
          then bill_amount r +ℤ invoiced x bs
          else invoiced x bs))
unfolding bill_for is_new_debt
bill_for_effect env r bs bs' x h =
    elim (Option-cases (find_typed env r.supplier (delivery_number r) bs)) [
      | inl e ↦ ground (arith, create_bill_effect env r (free_number env r bs) bs bs' x)
      | inr (b, e) ↦ ground (
        arith,
        invoiced-link_bill x r.pk b.pk bs,
        has_bill-link_bill env r.supplier (delivery_number r) r.pk b bs e,
      )
    ]

apart : (a b c : ℤ) → a +ℤ b -ℤ c ≡ b -ℤ c +ℤ a
apart a b c = omega int_laws

-- A posted delivery has a bill, and what the shop owes to its supplier, and to no other, has grown
-- by the worth of the goods; but by nothing where the delivery had a bill already or a bill typed
-- in by hand with its number was linked to it. Advances that settle the bill change no balance.
pub post_receipt_owed :
    (env : Setting) (r : GoodsReceipt) (w w' : Buying) (x : ℕ)
    → post_receipt env r w ≡ ok w'
    → (has_bill r.pk w'.bills ≡ true)
      × (supplier_balance x w'.bills w'.payments
          ≡ supplier_balance x w.bills w.payments
            +ℤ (if r.supplier == x && is_new_debt env r w.bills then bill_amount r else pos 0))
unfolding supplier_balance
post_receipt_owed env r w w' x h =
    let (p, f, g) = post_receipt_runs env r w w' h in
    let after = bill_for_effect env r w.bills w'.bills x f in
    let total = apply_advances-total env.new_payment r.supplier w'.bills w.payments x in
    (
      after.0,
      ground (
        arith,
        after.1,
        g,
        total,
        apart (bill_amount r) (invoiced x w.bills) (paid_to x w.payments),
        +ℤ_zero (invoiced x w.bills -ℤ paid_to x w.payments),
      ),
    )

find_order-refresh_order :
    (r : GoodsReceipt) (os : List PurchaseOrderLine) (k : ℕ) (orders : List PurchaseOrder)
    → find_order k (refresh_order r os orders) ≡ elim (find_order k orders) [
      | none ↦ none
      | some o ↦ some (if is_some_of r.order k then refresh_status o os else o)
    ]
unfolding find_order refresh_order refresh_status
find_order-refresh_order r os k [] = refl
find_order-refresh_order r os k (o ∷ rest) = ground (arith, find_order-refresh_order r os k rest)

find_order_at :
    (k : ℕ) (orders : List PurchaseOrder) (o : PurchaseOrder)
    → find_order k orders ≡ some o
    → o.pk ≡ k
unfolding find_order
find_order_at k [] o h = cc
find_order_at k (p ∷ ps) o h = ground (arith, find_order_at k ps o)

-- The order of a delivery that is posted stood open, and it is marked received exactly when
-- nothing of it is outstanding any more.
pub post_receipt_completes :
    (env : Setting) (r : GoodsReceipt) (w w' : Buying) (k : ℕ) (o : PurchaseOrder)
    → r.order ≡ some k
    → find_order k w.orders ≡ some o
    → post_receipt env r w ≡ ok w'
    → (is_expected o.status ≡ true)
      × (o' : PurchaseOrder) × (find_order k w'.orders ≡ some o')
      × ((o'.status ≡ PoStatus.received) ↔ (is_fully_received k w'.goods.order_lines ≡ true))
unfolding check_order refresh_status is_expected is_settled_by_hand
post_receipt_completes env r w w' k o e f h =
    let (p, _, _) = post_receipt_runs env r w w' h in
    let (positive, fresh, checked, ran, refreshed) =
      put_into_stock_runs r w.orders w'.orders w.goods w'.goods p in
    let at_ = find_order-refresh_order r w'.goods.order_lines k w.orders in
    (
      ground arith,
      refresh_status o w'.goods.order_lines,
      ground (arith, at_),
      ground (arith, find_order_at k w.orders o f),
    )
