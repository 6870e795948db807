-- ===== src/Till/ReturnTests.antt =====
-- Runs of returns and refunds, and their theorems at a concrete sale.
use retail_system.Prelude.{
  ◌≡◌, refl, true, false, none, some, [], arith, ◌==◌, if◌then◌else◌, pos, ◌+ℤ◌, ◌-ℤ◌, ◌*ℤ◌, neg,
  ◌≤ℤ◌, min_ℤ, ok, get_ok,
}
use retail_system.Customers.Account.{balance}
use retail_system.Inventory.Ledger.{IsConsistent}
use retail_system.Inventory.Movement.{record_movement}
use retail_system.Inventory.State.{find_item, item_or_new, save_item}
use retail_system.Till.Checkout.{complete_sale}
use retail_system.Till.FreshSales.{complete_sale-IsRefundable}
use retail_system.Till.LineRefunds.{IsRefundable}
use retail_system.Till.Refund.{amounts, left_of, sum_of, allocate_refund}
use retail_system.Till.RefundLaws.{allocate_refund_lem}
use retail_system.Till.ReturnLaws.{create_return-IsRefundable}
use retail_system.Till.Returns.{ReturnRequest, sale_after_return, create_return}
use retail_system.Till.Sample.{
  morning, basket-IsCovered, checkout, done, sale_run, not_stored, done-IsConsistent,
}
use retail_system.Till.State.{PaymentMethod, Return, Till, find_sale}

-- One of the three units comes back.
abbrev one_back : ReturnRequest
one_back = record {
  number = 1;
  quantities = λ pk. if pk == 0 then pos 1000 else pos 0;
  method = PaymentMethod.cash;
  restock = true;
  shift = some 2;
  require_drawer = true;
}

abbrev no_doc : Return
no_doc = record {
  method = PaymentMethod.cash;
  shift = none;
  restock = false;
  lines = [];
  total = pos 0;
  cash_amount = pos 0;
  credit_amount = pos 0;
  other_amount = pos 0;
}

abbrev returned : Return × Till
returned = get_ok (no_doc, done.1) (create_return one_back done.1)

return_run : create_return one_back done.1 ≡ ok (returned.0, returned.1)
unfolding complete_sale create_return record_movement item_or_new find_item save_item ◌+ℤ◌ ◌-ℤ◌ ◌*ℤ◌
    neg
return_run = refl

-- A third of 34.40, all of it off the customer's debt.
return_figures :
    (returned.0.total ≡ pos 1147)
    × (returned.0.credit_amount ≡ pos 1147)
    × (balance 7 returned.1.account ≡ pos 853)
unfolding complete_sale create_return record_movement item_or_new find_item save_item balance ◌+ℤ◌
    ◌-ℤ◌ ◌*ℤ◌ neg
return_figures = (refl, refl, refl)

done-IsRefundable : IsRefundable done.0
done-IsRefundable =
    complete_sale-IsRefundable checkout morning done.1 done.0 basket-IsCovered not_stored sale_run

found_done : find_sale 1 done.1.sales ≡ some done.0
unfolding complete_sale find_sale record_movement item_or_new find_item save_item ◌+ℤ◌ ◌*ℤ◌ neg
found_done = refl

create_return-IsRefundable_example :
    let after = sale_after_return done.0 returned.0 in
    (find_sale 1 returned.1.sales ≡ some after)
    × IsRefundable after
    × ((returned.0.total ≡ amounts returned.0.lines)
        × (pos 0 ≤ℤ returned.0.total
            → returned.0.cash_amount +ℤ returned.0.credit_amount +ℤ returned.0.other_amount
              ≡ returned.0.total))
    × IsConsistent returned.1.stock
create_return-IsRefundable_example =
    create_return-IsRefundable one_back done.1 returned.1 done.0 returned.0 done-IsConsistent
      found_done done-IsRefundable return_run

allocate_refund_lem_example :
    let p = allocate_refund done.0 (pos 1147) PaymentMethod.cash in
    let left = left_of done.0 in
    (sum_of p ≡ pos 1147)
    × (pos 1147 ≤ℤ sum_of left
        → (p.credit ≡ min_ℤ (pos 1147) left.credit)
          × (pos 0 ≤ℤ p.cash)
          × (p.cash ≤ℤ left.cash)
          × (pos 0 ≤ℤ p.other)
          × (p.other ≤ℤ left.other))
allocate_refund_lem_example = allocate_refund_lem done.0 (pos 1147) PaymentMethod.cash (omega arith)
