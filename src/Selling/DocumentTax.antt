-- ===== src/Selling/DocumentTax.antt =====
-- The VAT inside a document.
use mathlib.Core.Path.{ap₂}
use native.Mathlib.Nat.{mul-le-mul_left}
use retail_system.Prelude.{
  ℕ, ◌+◌, ◌*◌, ◌≤◌, ◌<◌, ◌≡◌, false, List, [], ◌∷◌, arith, ℤ, pos, negsuc, pos_part, sub_ℕ, ◌*ℤ◌,
  ◌≤ℤ◌, ◌<ℤ◌, -ℤ_parts, int_laws, -ℤ_zero_right, pos-*ℤ, All,
}
use retail_system.Money.{half_up_ℤ}
use retail_system.Money.Rounding.{half_up_between}
use retail_system.Selling.Documents.{
  DocLine, Document, as_charged, doc_line_total, doc_tax_amount, sum_lines, lines_total,
  order_discount, net, raw_tax, doc_tax, doc_total,
}
use retail_system.Till.Amounts.{line_total, tax_for}

-- A share of a sum of money, to the nearest cent, is between nothing and the sum.
share_bounds :
    (a : ℤ) (n d : ℕ)
    → pos 0 ≤ℤ a
    → 0 < d
    → n ≤ d
    → (pos 0 ≤ℤ half_up_ℤ (a *ℤ pos n) d) × (half_up_ℤ (a *ℤ pos n) d ≤ℤ a)
unfolding half_up_ℤ
share_bounds (pos m) n d h p k =
    rw (pos-*ℤ m n)
      (grind (arith, half_up_between 0 m (m * n) d p (omega arith) (mul-le-mul_left m k)))
share_bounds (negsuc m) n d h p k = absurd (omega arith)

line_tax_bounds :
    (d : Document) (l : DocLine)
    → d.adds_vat ≡ false
    → pos 0 ≤ℤ doc_line_total l
    → (pos 0 ≤ℤ doc_tax_amount d l) × (doc_tax_amount d l ≤ℤ doc_line_total l)
unfolding doc_tax_amount tax_for doc_line_total line_total as_charged
line_tax_bounds d l h k = ground (
  arith,
  share_bounds (doc_line_total l) l.tax_rate (10_000 + l.tax_rate) k (omega arith) (omega arith),
)

sum_nonneg : (ls : List DocLine) → All (λ l. pos 0 ≤ℤ doc_line_total l) ls → pos 0 ≤ℤ sum_lines ls
unfolding sum_lines
sum_nonneg [] h = omega arith
sum_nonneg (l ∷ ls) h = omega (int_laws, h.0, sum_nonneg ls h.1)

raw_tax_bounds :
    (d : Document) (ls : List DocLine)
    → d.adds_vat ≡ false
    → All (λ l. pos 0 ≤ℤ doc_line_total l) ls
    → (pos 0 ≤ℤ raw_tax d ls) × (raw_tax d ls ≤ℤ sum_lines ls)
unfolding raw_tax sum_lines
raw_tax_bounds d [] h k = omega arith
raw_tax_bounds d (l ∷ ls) h k =
    omega (int_laws, line_tax_bounds d l h k.0, raw_tax_bounds d ls h k.1)

net_bounds :
    (d : Document)
    → d.discount_percent ≤ 10_000
    → pos 0 ≤ℤ lines_total d
    → (pos 0 ≤ℤ net d) × (net d ≤ℤ lines_total d)
unfolding net order_discount
net_bounds d h k = ground (
  arith,
  share_bounds (lines_total d) d.discount_percent 10_000 k (omega arith) h,
  -ℤ_parts (lines_total d) (order_discount d),
  -ℤ_zero_right (lines_total d),
)

*ℤ_swap : (a b : ℤ) → pos 0 ≤ℤ a → a *ℤ b ≡ b *ℤ pos (pos_part a)
unfolding ◌*ℤ◌
*ℤ_swap (pos m) b h = ap₂ sub_ℕ (omega arith) (omega arith)
*ℤ_swap (negsuc m) b h = absurd (omega arith)

scaled_bounds :
    (raw paid whole : ℤ)
    → pos 0 ≤ℤ raw
    → raw ≤ℤ whole
    → pos 0 ≤ℤ paid
    → pos 0 <ℤ whole
    → let tax = half_up_ℤ (raw *ℤ paid) (pos_part whole) in (pos 0 ≤ℤ tax) × (tax ≤ℤ paid)
scaled_bounds raw paid whole h k p q =
    rw (*ℤ_swap raw paid h)
      (share_bounds paid (pos_part raw) (pos_part whole) p (ground arith) (ground arith))

lines_nonneg :
    (d : Document) → All (λ l. pos 0 ≤ℤ doc_line_total l) d.lines → pos 0 ≤ℤ lines_total d
unfolding lines_total
lines_nonneg d h = sum_nonneg d.lines h

raw_tax-le-lines :
    (d : Document)
    → d.adds_vat ≡ false
    → All (λ l. pos 0 ≤ℤ doc_line_total l) d.lines
    → raw_tax d d.lines ≤ℤ lines_total d
unfolding lines_total
raw_tax-le-lines d h k = (raw_tax_bounds d d.lines h k).1

net-whole : (d : Document) → d.discount_percent ≡ 0 → net d ≡ lines_total d
unfolding net order_discount
net-whole d h = ground (arith, -ℤ_zero_right (lines_total d))

-- The VAT that a document declares is between nothing and what the customer pays, whatever is taken
-- off the whole of it, where its prices include VAT and no line comes to less than nothing.
pub doc_tax_bounds :
    (d : Document)
    → d.adds_vat ≡ false
    → d.discount_percent ≤ 10_000
    → All (λ l. pos 0 ≤ℤ doc_line_total l) d.lines
    → (pos 0 ≤ℤ doc_tax d) × (doc_tax d ≤ℤ doc_total d) × (doc_total d ≤ℤ lines_total d)
unfolding doc_tax doc_total
doc_tax_bounds d h k p =
    let raw = raw_tax_bounds d d.lines h p in
    let lines = lines_nonneg d p in
    let left = net_bounds d k lines in
    ground (
      arith,
      raw,
      left,
      scaled_bounds (raw_tax d d.lines) (net d) (lines_total d),
      raw_tax-le-lines d h p,
      net-whole d,
    )
