-- ===== src/Selling/InvoiceTests.antt =====
-- An invoice issued, paid, delivered and cancelled, in the sample shop.
use retail_system.Prelude.{
  ℕ, ◌+◌, ◌*◌, ◌≤◌, ◌≡◌, refl, true, false, none, some, [], ◌∷◌, arith, ◌==◌, if◌then◌else◌, pos,
  ◌+ℤ◌, ◌-ℤ◌, ◌*ℤ◌, neg, ◌≤ℤ◌, ◌<ℤ◌, length, ok, get_ok,
}
use retail_system.Customers.Account.{balance}
use retail_system.Inventory.Ledger.{IsConsistent}
use retail_system.Inventory.Movement.{record_movement}
use retail_system.Inventory.State.{find_item, item_or_new, save_item, quantity_of}
use retail_system.Inventory.Transit.{at_branch}
use retail_system.Selling.Cancelling.{live_notes, void_invoice}
use retail_system.Selling.Deliveries.{delivery_cart, delivery_total, delivery_checkout}
use retail_system.Selling.DeliveryAmounts.{exact_shares, delivery_sale_total}
use retail_system.Selling.Discounts.{check_document_discounts}
use retail_system.Selling.Documents.{Document}
use retail_system.Selling.Invoices.{
  invoice_paid, paid_main, charged_main, invoice_balance, invoice_charge, issue, payment_main,
  take_payment,
}
use retail_system.Selling.IssueLaws.{owed_by, sent_by, issue_effect}
use retail_system.Selling.PaymentLaws.{paid_or_part, take_payment_effect}
use retail_system.Selling.Quotations.{new_invoice}
use retail_system.Selling.Sample.{
  store, store-IsConsistent, counter, shop_rules, bags, proforma, billed,
}
use retail_system.Selling.State.{
  InvoiceStatus, Invoice, DeliveryLine, DeliveryNote, Office, is_proforma, find_invoice,
}
use retail_system.Selling.VoidInvoiceLaws.{IsUndone, void_undoes_issue}
use retail_system.Till.Amounts.{total}
use retail_system.Till.Checkout.{credit_paid, complete_sale}
use retail_system.Till.Reversal.{IsFresh}
use retail_system.Till.Void.{void_sale}

abbrev issued : Invoice × Office
issued = get_ok (proforma, billed) (issue 4 20 30 billed)

issue_run : issue 4 20 30 billed ≡ ok (issued.0, issued.1)
unfolding issue complete_sale record_movement item_or_new find_item save_item new_invoice balance
    ◌+ℤ◌ ◌-ℤ◌ ◌*ℤ◌ neg
issue_run = refl

issue_figures :
    (balance 7 issued.1.till.account ≡ pos 3027)
    × (quantity_of 1 5 issued.1.till.stock.items ≡ pos 7000)
unfolding issue complete_sale record_movement item_or_new find_item save_item new_invoice balance
    quantity_of ◌+ℤ◌ ◌-ℤ◌ ◌*ℤ◌ neg
issue_figures = (refl, refl)

proforma_found : find_invoice 4 billed.invoices ≡ some proforma
unfolding find_invoice new_invoice
proforma_found = refl

proforma_is_proforma : is_proforma proforma.status ≡ true
unfolding new_invoice
proforma_is_proforma = refl

issue_effect_example :
    (issued.0 ≡ record proforma { status = InvoiceStatus.owed })
    × (find_invoice 4 issued.1.invoices ≡ some issued.0)
    × (check_document_discounts shop_rules proforma.doc ≡ ok tt)
    × (pos 0 <ℤ pos 5000 → balance proforma.customer issued.1.till.account ≤ℤ pos 5000)
    × ((customer : ℕ)
        → balance customer issued.1.till.account ≡ balance customer [] +ℤ owed_by proforma customer)
    × ((b v : ℕ)
        → quantity_of b v issued.1.till.stock.items
          ≡ quantity_of b v store.items -ℤ at_branch b proforma.branch (sent_by billed proforma v))
    × IsConsistent issued.1.till.stock
    × (issue 4 21 31 issued.1 ≡ ok (issued.0, issued.1))
issue_effect_example =
    issue_effect 4 20 21 30 31 billed issued.1 proforma issued.0 proforma_found proforma_is_proforma
      store-IsConsistent issue_run

abbrev owing : Invoice
owing = record proforma { status = InvoiceStatus.owed }

abbrev waiting : Office
waiting = record billed {
  invoices = owing ∷ [];
  till = record counter { account = invoice_charge owing [] ∷ [] };
}

abbrev paid_half : Office
paid_half = get_ok waiting (take_payment 4 (pos 1500) true none waiting)

payment_run : take_payment 4 (pos 1500) true none waiting ≡ ok paid_half
unfolding take_payment new_invoice invoice_charge ◌+ℤ◌ ◌-ℤ◌ ◌*ℤ◌
payment_run = refl

owing_found : find_invoice 4 waiting.invoices ≡ some owing
unfolding find_invoice new_invoice
owing_found = refl

unpaid : pos 0 ≤ℤ invoice_paid 4 waiting.till.account
unfolding invoice_paid invoice_charge new_invoice
unpaid = omega arith

take_payment_effect_example :
    let ts = waiting.till.account in
    let ts' = paid_half.till.account in
    (pos 0 <ℤ pos 1500)
    × (pos 1500 ≤ℤ invoice_balance owing ts)
    × (invoice_balance owing ts' ≡ invoice_balance owing ts -ℤ pos 1500)
    × ((customer : ℕ)
        → balance customer ts' ≡ (
            if customer == owing.customer
            then balance customer ts -ℤ payment_main owing (pos 1500) ts
            else balance customer ts))
    × (find_invoice 4 paid_half.invoices
        ≡ some (record owing { status = paid_or_part owing (pos 1500) ts }))
    × (owing.doc.is_foreign ≡ true
        → pos 1500 ≡ invoice_balance owing ts
        → paid_main 4 ts' ≡ charged_main owing ts')
take_payment_effect_example =
    take_payment_effect 4 (pos 1500) true none waiting paid_half owing owing_found unpaid
      payment_run

abbrev trip : DeliveryNote
trip = record {
  pk = 40;
  branch = 1;
  invoice = 4;
  auto_sent = false;
  sale = none;
  voided = false;
  lines = record { invoice_line = bags; qty = 2000 } ∷ [];
}

proforma-home : proforma.doc.is_foreign ≡ false
unfolding new_invoice
proforma-home = refl

delivery_sale_total_example :
    let c = delivery_checkout proforma trip 31 in
    let charged = credit_paid c.payments in
    let half_cents = length trip.lines * 1_000_000_000_000_000 in
    (total c.lines ≡ pos charged)
    × (2 * (charged * 1_000_000_000_000_000)
        ≤ 2 * exact_shares proforma.doc trip.lines + half_cents)
    × (2 * exact_shares proforma.doc trip.lines
        ≤ 2 * (charged * 1_000_000_000_000_000) + half_cents)
delivery_sale_total_example = delivery_sale_total proforma trip 31 proforma-home

-- A thousand at 1.00 in a currency worth 2,500.123456: the till sells each at 2,500.12, and the
-- invoice charges 3.46 more than the sale comes to.
abbrev abroad : Document
abroad = record {
  lines = [];
  discount_percent = 0;
  adds_vat = false;
  is_foreign = true;
  exchange_rate = 2_500_123_456;
}

abbrev crates : DeliveryLine
crates = record {
  invoice_line = record {
    pk = 8;
    variant = none;
    qty = 1_000_000;
    unit_price = 100;
    tax_rate = 0;
    discount_percent = 0;
  };
  qty = 1_000_000;
}

abroad_run :
    (total (delivery_cart abroad (crates ∷ [])) ≡ pos 250_012_000)
    × (delivery_total abroad (crates ∷ []) ≡ 250_012_346)
unfolding total delivery_cart delivery_total
abroad_run = (refl, refl)

no_one : IsFresh 30 billed.till.account
no_one = tt

undelivered_yet : live_notes proforma.pk billed.notes ≡ []
unfolding live_notes new_invoice
undelivered_yet = refl

abbrev cancelled_invoice : Invoice × Office
cancelled_invoice = get_ok (proforma, billed) (void_invoice 4 issued.1)

cancelled_run : void_invoice 4 issued.1 ≡ ok (cancelled_invoice.0, cancelled_invoice.1)
unfolding void_invoice issue complete_sale void_sale record_movement item_or_new find_item save_item
    new_invoice balance ◌+ℤ◌ ◌-ℤ◌ ◌*ℤ◌ neg
cancelled_run = refl

void_undoes_issue_example : IsUndone 4 proforma billed cancelled_invoice.1
void_undoes_issue_example =
    void_undoes_issue 4 20 30 billed issued.1 cancelled_invoice.1 proforma issued.0
      cancelled_invoice.0 proforma_found proforma_is_proforma store-IsConsistent no_one
      undelivered_yet issue_run cancelled_run
