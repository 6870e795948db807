-- ===== src/Purchasing/Tests.antt =====
-- Runs of the buying services, and their theorems at a concrete delivery.
use retail_system.Prelude.{
  ℕ, ◌+◌, ◌≡◌, refl, ◌⊎◌, true, not, ◌&&◌, none, some, List, [], ◌∷◌, arith, ◌==◌, if◌then◌else◌,
  pos, ◌+ℤ◌, ◌-ℤ◌, ◌*ℤ◌, ◌≤ℤ◌, err, ok, get_ok,
}
use retail_system.Inventory.Ledger.{IsConsistent}
use retail_system.Inventory.Movement.{record_movement}
use retail_system.Inventory.State.{Stock, find_item, item_or_new, quantity_of, ledger_total}
use retail_system.Inventory.Transit.{at_branch}
use retail_system.Money.{half_up}
use retail_system.Purchasing.AppliedLaws.{apply_advances_effect}
use retail_system.Purchasing.Bills.{
  SupplierInvoice, SupplierPayment, total_of, paid_on, bill_outstanding, supplier_balance,
  find_advances, open_bills, apply_advances,
}
use retail_system.Purchasing.OrderLaws.{NoneBeyond, IsOwn}
use retail_system.Purchasing.Orders.{PoStatus, PurchaseOrderLine, PurchaseOrder}
use retail_system.Purchasing.OwedLaws.{is_new_debt, post_receipt_owed}
use retail_system.Purchasing.PostedLaws.{any_tracked}
use retail_system.Purchasing.Posting.{
  Buying, Setting, has_bill, bill_amount, eqb_text, post_receipt,
}
use retail_system.Purchasing.PostingLaws.{post_receipt_effect, post_receipt_once}
use retail_system.Purchasing.ReceiptLaws.{brought}
use retail_system.Purchasing.Receipts.{GoodsReceipt, already_received, is_wanted, find_order}

abbrev empty : Stock
empty = record {
  items = [];
  ledger = [];
  events = [];
  settings = none;
  tracked = λ v. not (v == 9);
}

-- Twelve units ordered, of which four have come.
abbrev crates : PurchaseOrderLine
crates = record {
  pk = 7;
  order = 2;
  variant = 5;
  qty_ordered = pos 12_000;
  qty_received = pos 4000;
  unit_cost = 250;
}

abbrev order : PurchaseOrder
order = record { pk = 2; supplier = 3; status = PoStatus.partial }

-- The other eight units, at 2.50 each.
abbrev delivery : GoodsReceipt
delivery = record {
  pk = 4;
  branch = 1;
  supplier = 3;
  order = some 2;
  reference = 71 ∷ 82 ∷ 49 ∷ [];
  supplier_note = [];
  lines =
      record {
        variant = 5;
        order_line = some 7;
        qty = pos 8000;
        unit_cost = 250;
        batch_no = none;
        expiry_date = none;
      }
      ∷ [];
}

-- Thirty paid ahead.
abbrev first_advance : SupplierPayment
first_advance = record {
  pk = 11;
  supplier = 3;
  invoice = none;
  amount = pos 3000;
  paid_at = 90;
  batch = some 1;
  cash_movement = none;
}

abbrev shop : Buying
shop = record {
  goods = record { stock = empty; batches = []; order_lines = crates ∷ [] };
  orders = order ∷ [];
  bills = [];
  payments = first_advance ∷ [];
  received = [];
}

abbrev env : Setting
env = record {
  iexact = eqb_text;
  today = 100;
  payment_terms_days = 30;
  new_bill = 20;
  new_payment = λ b. b + 1_000;
}

abbrev after : Buying
after = get_ok shop (post_receipt env delivery shop)

delivery_run : post_receipt env delivery shop ≡ ok after
unfolding post_receipt ◌-ℤ◌ ◌+ℤ◌ ◌*ℤ◌ half_up record_movement item_or_new find_item
delivery_run = refl

-- The bill comes to twenty, all of it settled, and ten are still paid ahead.
payments_run :
    after.payments
    ≡ record {
      pk = 1_020;
      supplier = 3;
      invoice = some 20;
      amount = pos 2000;
      paid_at = 90;
      batch = some 1;
      cash_movement = none;
    }
      ∷ record first_advance { amount = pos 1000 }
      ∷ []
unfolding post_receipt ◌-ℤ◌ ◌+ℤ◌ ◌*ℤ◌ half_up record_movement item_or_new find_item
payments_run = refl

-- The rest of the delivery after the order is complete.
status_run : after.orders ≡ record order { status = PoStatus.received } ∷ []
unfolding post_receipt ◌-ℤ◌ ◌+ℤ◌ ◌*ℤ◌ half_up record_movement item_or_new find_item
status_run = refl

empty-IsConsistent : IsConsistent empty
unfolding quantity_of find_item ledger_total
empty-IsConsistent b v = refl

delivery-IsOwn : IsOwn delivery (crates ∷ [])
unfolding is_wanted
delivery-IsOwn = (λ e. cc, tt)

post_receipt_effect_example :
    ((b v : ℕ)
      → quantity_of b v after.goods.stock.items
        ≡ quantity_of b v [] +ℤ at_branch b 1 (brought empty v delivery.lines))
    × IsConsistent after.goods.stock
    × NoneBeyond after.goods.order_lines
post_receipt_effect_example =
    post_receipt_effect env delivery shop after empty-IsConsistent delivery-IsOwn (omega arith, tt)
      delivery_run

tracked_run : any_tracked empty delivery.lines ≡ true
unfolding any_tracked
tracked_run = refl

abbrev tomorrow : Setting
tomorrow = record env { today = 101 }

post_receipt_once_example : post_receipt tomorrow delivery after ≡ err already_received
post_receipt_once_example =
    post_receipt_once env tomorrow delivery shop after tracked_run delivery_run

post_receipt_owed_example :
    (has_bill 4 after.bills ≡ true)
    × (supplier_balance 3 after.bills after.payments
        ≡ supplier_balance 3 [] (first_advance ∷ [])
          +ℤ (if 3 == 3 && is_new_debt env delivery [] then bill_amount delivery else pos 0))
post_receipt_owed_example = post_receipt_owed env delivery shop after 3 delivery_run

order_run : find_order 2 shop.orders ≡ some order
unfolding find_order
order_run = refl

-- A bill of twenty, of which five are paid, and two advances.
abbrev bill : SupplierInvoice
bill = record {
  pk = 20;
  supplier = 3;
  receipt = none;
  number = 49 ∷ [];
  invoice_date = 80;
  due_date = none;
  amount = pos 2000;
}

abbrev paid : List SupplierPayment
paid =
    record first_advance { pk = 12; invoice = some 20; amount = pos 500 }
    ∷ record first_advance { amount = pos 900 }
    ∷ first_advance
    ∷ []

abbrev applied : List SupplierPayment
applied = apply_advances (λ b. b + 1_000) 3 (bill ∷ []) paid

outstanding_run : bill_outstanding bill paid ≡ pos 1500
unfolding bill_outstanding paid_on total_of ◌+ℤ◌ ◌-ℤ◌
outstanding_run = refl

apply_advances_effect_example :
    ((x : ℕ) → supplier_balance x (bill ∷ []) applied ≡ supplier_balance x (bill ∷ []) paid)
    × (bill_outstanding bill applied ≤ℤ bill_outstanding bill paid)
    × (pos 0 ≤ℤ bill_outstanding bill applied)
    × (((find_advances 3 applied).advances ≡ []) ⊎ (open_bills 3 applied (bill ∷ []) ≡ []))
apply_advances_effect_example =
    apply_advances_effect (λ b. b + 1_000) 3 (bill ∷ []) paid bill (λ e. refl, tt)
      (rw outstanding_run (omega arith))
