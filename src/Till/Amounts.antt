-- ===== src/Till/Amounts.antt =====
-- What a line of a basket comes to, in cents: `CartLine.line_total` of apps/pos/models.py, `money`
-- and `_tax_for` of apps/pos/services.py.
use retail_system.Prelude.{
  ℕ, ◌+◌, ◌*◌, ◌≤◌, Option, List, [], ◌∷◌, ◌==◌, if◌then◌else◌, ℤ, pos, sub_ℕ, ◌+ℤ◌, ◌*ℤ◌,
}
use retail_system.Money.{half_up, half_up_ℤ}

pub record CartLine : Type 0 where
  pub variant : Option ℕ
  pub qty : ℕ
  pub unit_price : ℕ
  pub discount : ℕ
  pub tax_rate : ℕ

-- `qty * unit_price`, exactly: in thousandths of a cent.
abbrev pub exact : CartLine → ℕ
exact l = l.qty * l.unit_price

-- `CartLine.line_total`, exactly.
abbrev pub exact_total : CartLine → ℤ
exact_total l = sub_ℕ (exact l) (1000 * l.discount)

-- `money(line.qty * line.unit_price)`
unfoldable pub gross : CartLine → ℕ
unfolding half_up
gross l = half_up (exact l) 1000

-- `money(line.line_total)`
unfoldable pub line_total : CartLine → ℤ
unfolding half_up_ℤ
line_total l = half_up_ℤ (exact_total l) 1000

-- `_tax_for`: the VAT inside what is charged.
unfoldable pub tax_for : CartLine → ℤ
unfolding line_total half_up_ℤ
tax_for l =
    if l.tax_rate == 0
    then pos 0
    else half_up_ℤ (line_total l *ℤ pos l.tax_rate) (10_000 + l.tax_rate)

unfoldable pub subtotal : List CartLine → ℕ
unfolding gross
subtotal [] = 0
subtotal (l ∷ ls) = gross l + subtotal ls

unfoldable pub discount_total : List CartLine → ℕ
discount_total [] = 0
discount_total (l ∷ ls) = l.discount + discount_total ls

unfoldable pub tax_total : List CartLine → ℤ
unfolding tax_for
tax_total [] = pos 0
tax_total (l ∷ ls) = tax_for l +ℤ tax_total ls

-- `money(subtotal - discount_total)`: both are whole cents.
unfoldable pub total : List CartLine → ℤ
unfolding subtotal discount_total
total ls = sub_ℕ (subtotal ls) (discount_total ls)

-- What `check_sale` holds a line to: nothing comes off beyond what it costs.
abbrev pub IsCovered : CartLine → Type 0
IsCovered l = 1000 * l.discount ≤ exact l
