-- ===== src/Selling/Deliveries.antt =====
-- Goods out and back: `deliver`, `send_everything` and `cancel_delivery` of
-- apps/selling/services.py, with the money of a delivery line in apps/selling/models.py.
use retail_system.Prelude.{
  ℕ, ◌+◌, ◌-◌, ◌*◌, ◌/◌, Bool, true, false, Option, none, some, List, [], ◌∷◌, ltb, ◌==◌,
  if◌then◌else◌, ℤ, pos, pos_part, sub_ℕ, ltb_ℤ, Result, err, ok, raise_if, ◌>>=◌, ◌>>◌,
}
use retail_system.Money.{half_up}
use retail_system.Selling.Discounts.{share_left}
use retail_system.Selling.Documents.{DocLine, Document}
use retail_system.Selling.State.{
  Invoice, DeliveryLine, DeliveryNote, Office, SellingError, invoice_not_found, note_not_found,
  already_cancelled, nothing_on_note, only_left, lift_till, find_invoice, find_note, save_note,
}
use retail_system.Till.Amounts.{CartLine}
use retail_system.Till.Checkout.{Checkout, complete_sale}
use retail_system.Till.State.{PaymentMethod, Till, TillError}
use retail_system.Till.Void.{void_sale}

-- `InvoiceLine.qty_delivered`: a cancelled note does not count.
unfoldable pub rows_delivered : ℕ → List DeliveryLine → ℕ
rows_delivered line [] = 0
rows_delivered line (r ∷ rs) =
    let rest = rows_delivered line rs in if line == r.invoice_line.pk then r.qty + rest else rest

unfoldable pub qty_delivered : ℕ → List DeliveryNote → ℕ
unfolding rows_delivered
qty_delivered line [] = 0
qty_delivered line (n ∷ ns) =
    let rest = qty_delivered line ns in
    if n.voided then rest else rows_delivered line n.lines + rest

unfoldable pub qty_outstanding : DocLine → List DeliveryNote → ℤ
unfolding qty_delivered
qty_outstanding l ns = sub_ℕ l.qty (qty_delivered l.pk ns)

-- `charged_share`, of 100% of 100%: in units of a hundred millionth.
unfoldable pub charged_share : Document → DocLine → ℕ
charged_share d l = share_left l.discount_percent d.discount_percent

-- `DeliveryLine.line_total`
unfoldable pub delivery_line_total : Document → DeliveryLine → ℕ
unfolding charged_share half_up
delivery_line_total d r =
    let l = r.invoice_line in
    let value = r.qty * l.unit_price * charged_share d l in
    if d.adds_vat
    then half_up (value * (10_000 + l.tax_rate)) 1_000_000_000_000_000
    else half_up value 100_000_000_000

unfoldable pub line_total_main : Document → DeliveryLine → ℕ
unfolding delivery_line_total half_up
line_total_main d r =
    if d.is_foreign
    then half_up (delivery_line_total d r * d.exchange_rate) 1_000_000
    else delivery_line_total d r

-- The price at which the till sells it: rounded up where VAT goes on top.
unfoldable pub sold_price : Document → DocLine → ℕ
unfolding half_up
sold_price d l =
    let each =
      if d.is_foreign then half_up (l.unit_price * d.exchange_rate) 1_000_000 else l.unit_price in
    if d.adds_vat then (each * (10_000 + l.tax_rate) + 9999) / 10_000 else each

-- `max(gross - row.line_total_main, 0)` comes off.
unfoldable pub delivery_cart_line : Document → DeliveryLine → CartLine
unfolding sold_price line_total_main half_up
delivery_cart_line d r = record {
  variant = r.invoice_line.variant;
  qty = r.qty;
  unit_price = sold_price d r.invoice_line;
  discount = half_up (r.qty * sold_price d r.invoice_line) 1000 - line_total_main d r;
  tax_rate = r.invoice_line.tax_rate;
}

unfoldable pub delivery_cart : Document → List DeliveryLine → List CartLine
unfolding delivery_cart_line
delivery_cart d [] = []
delivery_cart d (r ∷ rs) = delivery_cart_line d r ∷ delivery_cart d rs

unfoldable pub delivery_total : Document → List DeliveryLine → ℕ
unfolding line_total_main
delivery_total d [] = 0
delivery_total d (r ∷ rs) = line_total_main d r + delivery_total d rs

unfoldable pub delivery_checkout : Invoice → DeliveryNote → ℕ → Checkout
unfolding delivery_cart delivery_total
delivery_checkout i n number = record {
  branch = n.branch;
  customer = some i.customer;
  lines = delivery_cart i.doc n.lines;
  payments =
      record {
        method = PaymentMethod.credit;
        amount = delivery_total i.doc n.lines;
        change_given = 0;
      }
      ∷ [];
  shift = none;
  client_uuid = none;
  invoice = some i.pk;
  respect_stock_setting = true;
  number = number;
}

-- The rows of the note count as delivered already.
unfoldable pub check_left : List DeliveryNote → List DeliveryLine → Result SellingError (Unit {0})
unfolding qty_delivered
check_left ns [] = ok tt
check_left ns (r ∷ rs) =
    raise_if (ltb r.invoice_line.qty (qty_delivered r.invoice_line.pk ns)) only_left
    >> check_left ns rs

abbrev pub is_empty_note : List DeliveryLine → Bool
is_empty_note [] = true
is_empty_note (r ∷ rs) = false

-- `deliver`, the invoice read: the note stands among the notes.
unfoldable pub deliver_for : Invoice → DeliveryNote → ℕ → Office → Result SellingError Office
unfolding check_left delivery_checkout complete_sale save_note
deliver_for i n number o = do
  raise_if (is_empty_note n.lines) nothing_on_note
  check_left o.notes n.lines
  (sale, till) ← lift_till (complete_sale (delivery_checkout i n number) o.till)
  ok (record o { till = till; notes = save_note (record n { sale = some sale.number }) o.notes })

unfoldable pub deliver : DeliveryNote → ℕ → Office → Result SellingError Office
unfolding find_invoice deliver_for
deliver n number o = elim (find_invoice n.invoice o.invoices) [
  | none ↦ err invoice_not_found
  | some i ↦ deliver_for i n number o
]

-- A row for every line that has something left to go out.
unfoldable pub wanted_rows : List DeliveryNote → List DocLine → List DeliveryLine
unfolding qty_outstanding
wanted_rows ns [] = []
wanted_rows ns (l ∷ ls) =
    let rest = wanted_rows ns ls in
    let left = qty_outstanding l ns in
    if ltb_ℤ (pos 0) left then record { invoice_line = l; qty = pos_part left } ∷ rest else rest

unfoldable pub full_note : Invoice → ℕ → List DeliveryNote → DeliveryNote
unfolding wanted_rows
full_note i pk ns = record {
  pk = pk;
  branch = i.branch;
  invoice = i.pk;
  auto_sent = true;
  sale = none;
  voided = false;
  lines = wanted_rows ns i.doc.lines;
}

unfoldable pub send_everything : Invoice → ℕ → ℕ → Office → Result SellingError Office
unfolding full_note deliver
send_everything i pk number o =
    let n = full_note i pk o.notes in
    elim (is_empty_note n.lines) [
      | true ↦ ok o
      | false ↦ deliver n number (record o { notes = n ∷ o.notes })
    ]

unfoldable pub void_its_sale : Option ℕ → Till → Result TillError Till
unfolding void_sale
void_its_sale none t = ok t
void_its_sale (some number) t = void_sale number true t

unfoldable pub cancel_found : DeliveryNote → Office → Result SellingError Office
unfolding save_note void_its_sale
cancel_found n o = do
  raise_if n.voided already_cancelled
  till ← lift_till (void_its_sale n.sale o.till)
  ok (record o { till = till; notes = save_note (record n { voided = true }) o.notes })

unfoldable pub cancel_delivery : ℕ → Office → Result SellingError Office
unfolding find_note cancel_found
cancel_delivery pk o = elim (find_note pk o.notes) [
  | none ↦ err note_not_found
  | some n ↦ cancel_found n o
]
