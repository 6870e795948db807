-- ===== src/Purchasing/Posting.antt =====
-- The whole of `post_receipt` of apps/purchasing/services.py, with `_bill_for`. A text is the list
-- of its characters; `iexact`, the database's comparison without case, is an argument. The bills
-- stand in the order in which `first()` reads them.
use retail_system.Prelude.{
  ℕ, ◌+◌, Bool, true, false, not, ◌&&◌, ◌||◌, Option, none, some, List, [], ◌∷◌, ◌++◌, ◌==◌,
  if◌then◌else◌, is_some, ℤ, pos, pos_part, ◌+ℤ◌, ◌*ℤ◌, take, Result, ok, raise_if, ◌>>=◌, ◌>>◌,
}
use retail_system.Customers.Account.{is_some_of}
use retail_system.Money.{half_up}
use retail_system.Purchasing.Bills.{SupplierInvoice, SupplierPayment, apply_advances}
use retail_system.Purchasing.Orders.{PurchaseOrder}
use retail_system.Purchasing.Receipts.{
  GoodsReceiptLine, GoodsReceipt, ReceiptError, number_taken, Receiving, put_into_stock,
}

-- The tables that a delivery changes. `received` is the GOODS_RECEIVED events, newest first.
pub record Buying : Type 0 where
  pub goods : Receiving
  pub orders : List PurchaseOrder
  pub bills : List SupplierInvoice
  pub payments : List SupplierPayment
  pub received : List ℕ

-- What the database brings: the comparison of texts, today, the terms of the supplier, and the
-- keys of new rows.
pub record Setting : Type 0 where
  pub iexact : List ℕ → List ℕ → Bool
  pub today : ℕ
  pub payment_terms_days : ℕ
  pub new_bill : ℕ
  pub new_payment : ℕ → ℕ

-- `receipt.invoices.exists()`
unfoldable pub has_bill : ℕ → List SupplierInvoice → Bool
has_bill k [] = false
has_bill k (b ∷ bs) = is_some_of b.receipt k || has_bill k bs

-- `filter(supplier=…, number__iexact=…)`
unfoldable pub is_numbered : Setting → ℕ → List ℕ → SupplierInvoice → Bool
is_numbered env k number b = b.supplier == k && env.iexact b.number number

unfoldable pub number_exists : Setting → ℕ → List ℕ → List SupplierInvoice → Bool
unfolding is_numbered
number_exists env k number [] = false
number_exists env k number (b ∷ bs) = is_numbered env k number b || number_exists env k number bs

-- `typed`: the bill of that number that stands for no delivery yet.
unfoldable pub find_typed : Setting → ℕ → List ℕ → List SupplierInvoice → Option SupplierInvoice
unfolding is_numbered
find_typed env k number [] = none
find_typed env k number (b ∷ bs) =
    if is_numbered env k number b && not (is_some b.receipt)
    then some b
    else find_typed env k number bs

unfoldable pub link_bill : ℕ → ℕ → List SupplierInvoice → List SupplierInvoice
link_bill receipt pk [] = []
link_bill receipt pk (b ∷ bs) =
    (if b.pk == pk then record b { receipt = some receipt } else b) ∷ link_bill receipt pk bs

-- `GoodsReceiptLine.line_total` and `GoodsReceipt.total`, in thousandths of a cent.
unfoldable pub receipt_value : List GoodsReceiptLine → ℤ
receipt_value [] = pos 0
receipt_value (l ∷ ls) = l.qty *ℤ pos l.unit_cost +ℤ receipt_value ls

-- `amount=receipt.total`, in the column of two decimals, where the database (PostgreSQL) rounds a tie
-- away from zero. A delivery that is posted is worth no less than nothing.
unfoldable pub bill_amount : GoodsReceipt → ℤ
unfolding half_up receipt_value
bill_amount r = pos (half_up (pos_part (receipt_value r.lines)) 1_000)

unfoldable pub is_blank : List ℕ → Bool
is_blank [] = true
is_blank (c ∷ cs) = false

unfoldable pub delivery_number : GoodsReceipt → List ℕ
unfolding is_blank
delivery_number r = take 40 (if is_blank r.supplier_note then r.reference else r.supplier_note)

-- The number with the delivery's reference behind a dash.
unfoldable pub suffixed_number : GoodsReceipt → List ℕ
unfolding delivery_number
suffixed_number r = take 40 (take 28 (delivery_number r) ++ 45 ∷ r.reference)

unfoldable pub free_number : Setting → GoodsReceipt → List SupplierInvoice → List ℕ
unfolding number_exists delivery_number suffixed_number
free_number env r bs =
    if number_exists env r.supplier (delivery_number r) bs
    then suffixed_number r
    else delivery_number r

unfoldable pub new_bill_of : Setting → GoodsReceipt → List ℕ → SupplierInvoice
unfolding bill_amount
new_bill_of env r number = record {
  pk = env.new_bill;
  supplier = r.supplier;
  receipt = some r.pk;
  number = number;
  invoice_date = env.today;
  due_date = some (env.today + env.payment_terms_days);
  amount = bill_amount r;
}

abbrev pub eqb_text : List ℕ → List ℕ → Bool
eqb_text [] [] = true
eqb_text [] (d ∷ ds) = false
eqb_text (c ∷ cs) [] = false
eqb_text (c ∷ cs) (d ∷ ds) = c == d && eqb_text cs ds

-- `unique_together = [("tenant", "supplier", "number")]`
unfoldable pub is_taken : ℕ → List ℕ → List SupplierInvoice → Bool
is_taken k number [] = false
is_taken k number (b ∷ bs) = (b.supplier == k && eqb_text b.number number) || is_taken k number bs

unfoldable pub create_bill :
    Setting
    → GoodsReceipt
    → List ℕ
    → List SupplierInvoice
    → Result ReceiptError (List SupplierInvoice)
unfolding is_taken new_bill_of
create_bill env r number bs =
    raise_if (is_taken r.supplier number bs) number_taken >> ok (new_bill_of env r number ∷ bs)

unfoldable pub bill_for :
    Setting → GoodsReceipt → List SupplierInvoice → Result ReceiptError (List SupplierInvoice)
unfolding has_bill find_typed link_bill free_number create_bill
bill_for env r bs =
    if has_bill r.pk bs then ok bs else elim (find_typed env r.supplier (delivery_number r) bs) [
      | some typed ↦ ok (link_bill r.pk typed.pk bs)
      | none ↦ create_bill env r (free_number env r bs) bs
    ]

unfoldable pub post_receipt : Setting → GoodsReceipt → Buying → Result ReceiptError Buying
unfolding put_into_stock bill_for apply_advances
post_receipt env r w = do
  p ← put_into_stock r w.orders w.goods
  bills ← bill_for env r w.bills
  ok (record {
    goods = p.1;
    orders = p.0;
    bills = bills;
    payments = apply_advances env.new_payment r.supplier bills w.payments;
    received = r.pk ∷ w.received;
  })
