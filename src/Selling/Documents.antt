-- ===== src/Selling/Documents.antt =====
-- The money of a quotation and of an invoice: the properties of `Quotation` and `Invoice` and of
-- their lines in apps/selling/models.py. Amounts are cents of the document's currency.
use retail_system.Prelude.{
  ℕ, ◌+◌, ◌*◌, Bool, ◌||◌, Option, List, [], ◌∷◌, ◌==◌, if◌then◌else◌, ℤ, pos, pos_part, sub_ℕ,
  ◌+ℤ◌, ◌-ℤ◌, ◌*ℤ◌, leb_ℤ,
}
use retail_system.Money.{half_up, half_up_ℤ}
use retail_system.Till.Amounts.{CartLine, tax_for}

-- A discount is in hundredths of a per cent, from nothing to 100%: the forms take no other.
pub record DocLine : Type 0 where
  pub pk : ℕ
  pub variant : Option ℕ
  pub qty : ℕ
  pub unit_price : ℕ
  pub tax_rate : ℕ
  pub discount_percent : ℕ

-- What a quotation and an invoice have in common.
pub record Document : Type 0 where
  pub lines : List DocLine
  pub discount_percent : ℕ
  pub adds_vat : Bool
  pub is_foreign : Bool
  pub exchange_rate : ℕ

-- `self.qty * self.unit_price`, in thousandths of a cent.
abbrev pub doc_exact : DocLine → ℕ
doc_exact l = l.qty * l.unit_price

unfoldable pub doc_gross_total : DocLine → ℕ
unfolding half_up
doc_gross_total l = half_up (doc_exact l) 1000

unfoldable pub doc_discount : DocLine → ℕ
unfolding half_up
doc_discount l =
    if l.discount_percent == 0 then 0 else half_up (doc_exact l * l.discount_percent) 10_000_000

-- The line as `_tax_for` reads it.
unfoldable pub as_charged : DocLine → CartLine
unfolding doc_discount
as_charged l = record {
  variant = l.variant;
  qty = l.qty;
  unit_price = l.unit_price;
  discount = doc_discount l;
  tax_rate = l.tax_rate;
}

unfoldable pub doc_line_total : DocLine → ℤ
unfolding doc_discount half_up_ℤ
doc_line_total l = half_up_ℤ (sub_ℕ (doc_exact l) (1000 * doc_discount l)) 1000

unfoldable pub doc_tax_amount : Document → DocLine → ℤ
unfolding doc_line_total as_charged tax_for half_up_ℤ
doc_tax_amount d l =
    if l.tax_rate == 0
    then pos 0
    else if d.adds_vat
    then half_up_ℤ (doc_line_total l *ℤ pos l.tax_rate) 10_000
    else tax_for (as_charged l)

unfoldable pub sum_gross : List DocLine → ℕ
unfolding doc_gross_total
sum_gross [] = 0
sum_gross (l ∷ ls) = doc_gross_total l + sum_gross ls

unfoldable pub before_discount : Document → ℕ
unfolding sum_gross
before_discount d = sum_gross d.lines

unfoldable pub sum_lines : List DocLine → ℤ
unfolding doc_line_total
sum_lines [] = pos 0
sum_lines (l ∷ ls) = doc_line_total l +ℤ sum_lines ls

unfoldable pub lines_total : Document → ℤ
unfolding sum_lines
lines_total d = sum_lines d.lines

unfoldable pub order_discount : Document → ℤ
unfolding lines_total half_up_ℤ
order_discount d =
    if d.discount_percent == 0
    then pos 0
    else half_up_ℤ (lines_total d *ℤ pos d.discount_percent) 10_000

unfoldable pub net : Document → ℤ
unfolding lines_total order_discount
net d = lines_total d -ℤ order_discount d

-- `Quotation.discount_total`
unfoldable pub doc_discount_total : Document → ℤ
unfolding before_discount net
doc_discount_total d = pos (before_discount d) -ℤ net d

unfoldable pub raw_tax : Document → List DocLine → ℤ
unfolding doc_tax_amount
raw_tax d [] = pos 0
raw_tax d (l ∷ ls) = doc_tax_amount d l +ℤ raw_tax d ls

unfoldable pub doc_tax : Document → ℤ
unfolding raw_tax lines_total net half_up_ℤ
doc_tax d =
    if d.discount_percent == 0 || leb_ℤ (lines_total d) (pos 0)
    then raw_tax d d.lines
    else half_up_ℤ (raw_tax d d.lines *ℤ net d) (pos_part (lines_total d))

-- The net and the VAT are whole cents, which `_money` leaves as they are.
unfoldable pub doc_total : Document → ℤ
unfolding net doc_tax
doc_total d = if d.adds_vat then net d +ℤ doc_tax d else net d

unfoldable pub net_of_tax : Document → ℤ
unfolding doc_total doc_tax
net_of_tax d = doc_total d -ℤ doc_tax d

-- `to_main`: the shop's own currency, at the frozen rate.
unfoldable pub to_main : Document → ℤ → ℤ
unfolding half_up_ℤ
to_main d amount =
    if d.is_foreign then half_up_ℤ (amount *ℤ pos d.exchange_rate) 1_000_000 else amount

unfoldable pub total_main : Document → ℤ
unfolding to_main doc_total
total_main d = to_main d (doc_total d)
