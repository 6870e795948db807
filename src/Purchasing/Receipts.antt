-- ===== src/Purchasing/Receipts.antt =====
-- `post_receipt` of apps/purchasing/services.py: goods that come in. The delivery's order is found
-- by its key; what is typed on the delivery is kept as the number of the supplier's bill.
use retail_system.Prelude.{
  ℕ, suc, Bool, true, false, not, ◌&&◌, ◌||◌, Option, none, some, List, [], ◌∷◌, ltb, ◌==◌,
  if◌then◌else◌, is_some, ℤ, pos, ◌+ℤ◌, ltb_ℤ, length, Result, err, ok, raise_if, ◌>>=◌, ◌>>◌,
}
use retail_system.Customers.Account.{is_some_of}
use retail_system.Inventory.Movement.{Request, record_movement}
use retail_system.Inventory.State.{MovementReason, Source, StockMovement, Stock, StockError}
use retail_system.Purchasing.Orders.{
  PurchaseOrderLine, PurchaseOrder, qty_outstanding, is_expected, refresh_status,
}

pub record GoodsReceiptLine : Type 0 where
  pub variant : ℕ
  pub order_line : Option ℕ
  pub qty : ℤ
  pub unit_cost : ℕ
  pub batch_no : Option ℕ
  pub expiry_date : Option ℕ

-- `supplier_note` is empty where nothing was typed.
pub record GoodsReceipt : Type 0 where
  pub pk : ℕ
  pub branch : ℕ
  pub supplier : ℕ
  pub order : Option ℕ
  pub reference : List ℕ
  pub supplier_note : List ℕ
  pub lines : List GoodsReceiptLine

-- A batch as it is received.
pub record ReceivedBatch : Type 0 where
  pub pk : ℕ
  pub variant : ℕ
  pub batch_no : Option ℕ
  pub expiry_date : Option ℕ
  pub received_cost : ℕ

pub data ReceiptError : Type 0 where
  nothing_to_receive qty_not_positive already_received no_such_order not_expected : ReceiptError
  -- The outstanding quantity is less than what comes in on the line of the order.
  more_than_outstanding : ℕ → ReceiptError
  -- The bill's number is taken, even with the reference behind it.
  number_taken : ReceiptError
  stock_error : StockError → ReceiptError

-- What is written while goods are put into stock.
pub record Receiving : Type 0 where
  pub stock : Stock
  pub batches : List ReceivedBatch
  pub order_lines : List PurchaseOrderLine

unfoldable pub all_positive : List GoodsReceiptLine → Bool
all_positive [] = true
all_positive (l ∷ ls) = ltb_ℤ (pos 0) l.qty && all_positive ls

unfoldable pub is_receipt : Option Source → ℕ → Bool
is_receipt (some (Source.of_receipt n)) k = n == k
is_receipt _ k = false

-- `already`: a movement that points at the delivery.
unfoldable pub is_posted : ℕ → List StockMovement → Bool
unfolding is_receipt
is_posted k [] = false
is_posted k (m ∷ ms) = is_receipt m.source k || is_posted k ms

-- `wanted`: what the delivery brings for a line of an order.
unfoldable pub wanted : ℕ → List GoodsReceiptLine → ℤ
wanted k [] = pos 0
wanted k (l ∷ ls) =
    let rest = wanted k ls in if is_some_of l.order_line k then l.qty +ℤ rest else rest

unfoldable pub is_wanted : ℕ → List GoodsReceiptLine → Bool
is_wanted k [] = false
is_wanted k (l ∷ ls) = is_some_of l.order_line k || is_wanted k ls

-- The loop over the lines of the order that the delivery names.
unfoldable pub check_outstanding :
    ℕ → List GoodsReceiptLine → List PurchaseOrderLine → Result ReceiptError (Unit {0})
unfolding wanted is_wanted qty_outstanding
check_outstanding order ls [] = ok tt
check_outstanding order ls (o ∷ os) =
    raise_if (o.order == order && is_wanted o.pk ls && ltb_ℤ (qty_outstanding o) (wanted o.pk ls))
      (more_than_outstanding o.pk)
    >> check_outstanding order ls os

abbrev pub eqb_option : Option ℕ → Option ℕ → Bool
eqb_option none none = true
eqb_option (some a) (some b) = a == b
eqb_option _ _ = false

unfoldable pub is_same_batch : GoodsReceiptLine → ReceivedBatch → Bool
is_same_batch l b =
    b.variant == l.variant
    && eqb_option b.batch_no l.batch_no
    && eqb_option b.expiry_date l.expiry_date

unfoldable pub find_batch : GoodsReceiptLine → List ReceivedBatch → Option ReceivedBatch
unfolding is_same_batch
find_batch l [] = none
find_batch l (b ∷ bs) = if is_same_batch l b then some b else find_batch l bs

-- A key that no batch has yet.
unfoldable pub next_pk : List ReceivedBatch → ℕ
next_pk [] = 1
next_pk (b ∷ bs) = let rest = next_pk bs in if ltb b.pk rest then rest else suc b.pk

unfoldable pub new_batch : GoodsReceiptLine → List ReceivedBatch → ReceivedBatch
unfolding next_pk
new_batch l bs = record {
  pk = next_pk bs;
  variant = l.variant;
  batch_no = l.batch_no;
  expiry_date = l.expiry_date;
  received_cost = l.unit_cost;
}

-- `Batch.objects.get_or_create`, where the line has a number or a date.
unfoldable pub get_or_create_batch :
    GoodsReceiptLine → List ReceivedBatch → Option ℕ × List ReceivedBatch
unfolding find_batch new_batch
get_or_create_batch l bs =
    if is_some l.batch_no || is_some l.expiry_date
    then elim (find_batch l bs) [
      | none ↦ (some (new_batch l bs).pk, new_batch l bs ∷ bs)
      | some b ↦ (some b.pk, bs)
    ]
    else (none, bs)

unfoldable pub receipt_request : GoodsReceipt → GoodsReceiptLine → Option ℕ → Request
receipt_request r l batch = record {
  variant = l.variant;
  qty_delta = l.qty;
  reason = MovementReason.purchase;
  branch = r.branch;
  batch = batch;
  unit_cost = some l.unit_cost;
  source = some (Source.of_receipt r.pk);
  allow_negative = none;
}

-- `line.order_line.qty_received += line.qty`, on the row of that key.
unfoldable pub add_received : ℕ → ℤ → List PurchaseOrderLine → List PurchaseOrderLine
add_received k qty [] = []
add_received k qty (o ∷ os) =
    (if o.pk == k then record o { qty_received = o.qty_received +ℤ qty } else o)
    ∷ add_received k qty os

unfoldable pub lines_after : GoodsReceiptLine → List PurchaseOrderLine → List PurchaseOrderLine
unfolding add_received
lines_after l os = elim l.order_line [ none ↦ os | some k ↦ add_received k l.qty os ]

abbrev pub lift_movement : Result StockError Stock → Result ReceiptError Stock
lift_movement (err e) = err (stock_error e)
lift_movement (ok s) = ok s

unfoldable pub stock_line :
    GoodsReceipt → GoodsReceiptLine → Receiving → Result ReceiptError Receiving
unfolding get_or_create_batch receipt_request lines_after
stock_line r l w = do
  let got = get_or_create_batch l w.batches
  stock ← lift_movement (record_movement (receipt_request r l got.0) w.stock)
  ok (record { stock = stock; batches = got.1; order_lines = lines_after l w.order_lines })

unfoldable pub stock_lines :
    GoodsReceipt → List GoodsReceiptLine → Receiving → Result ReceiptError Receiving
unfolding stock_line
stock_lines r [] w = ok w
stock_lines r (l ∷ ls) w = stock_line r l w >>= stock_lines r ls

unfoldable pub find_order : ℕ → List PurchaseOrder → Option PurchaseOrder
find_order k [] = none
find_order k (o ∷ os) = if o.pk == k then some o else find_order k os

-- The checks on the order, on the row of its key.
unfoldable pub check_order :
    GoodsReceipt → List PurchaseOrder → List PurchaseOrderLine → Result ReceiptError (Unit {0})
unfolding find_order check_outstanding is_expected
check_order r orders os = elim r.order [
  | none ↦ ok tt
  | some k ↦ elim (find_order k orders) [
    | none ↦ err no_such_order
    | some o ↦ raise_if (not (is_expected o.status)) not_expected >> check_outstanding k r.lines os
  ]
]

unfoldable pub refresh_order :
    GoodsReceipt → List PurchaseOrderLine → List PurchaseOrder → List PurchaseOrder
unfolding refresh_status
refresh_order r os [] = []
refresh_order r os (o ∷ rest) =
    (if is_some_of r.order o.pk then refresh_status o os else o) ∷ refresh_order r os rest

-- `post_receipt` up to the bill: the guards, the lines, and the status of the order.
unfoldable pub put_into_stock :
    GoodsReceipt
    → List PurchaseOrder
    → Receiving
    → Result ReceiptError (List PurchaseOrder × Receiving)
unfolding all_positive is_posted check_order stock_lines refresh_order
put_into_stock r orders w = do
  raise_if (length r.lines == 0) nothing_to_receive
  raise_if (not (all_positive r.lines)) qty_not_positive
  raise_if (is_posted r.pk w.stock.ledger) already_received
  check_order r orders w.order_lines
  w' ← stock_lines r r.lines w
  ok (refresh_order r w'.order_lines orders, w')
