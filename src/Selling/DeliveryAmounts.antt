-- ===== src/Selling/DeliveryAmounts.antt =====
-- About the amounts of the sale that `deliver` of apps/selling/services.py makes.
use native.Mathlib.Nat.{mul-le-mul_left, mul-le-mul_right}
use retail_system.Prelude.{
  ℕ, ◌+◌, ◌-◌, ◌*◌, ◌/◌, ◌≤◌, ◌≡◌, refl, inl, inr, false, List, [], ◌∷◌, arith, if◌then◌else◌,
  Bool-cases, pos, length,
}
use retail_system.Money.{half_up}
use retail_system.Money.Rounding.{half_up_bounds}
use retail_system.Selling.Deliveries.{
  charged_share, delivery_line_total, line_total_main, sold_price, delivery_cart_line,
  delivery_cart, delivery_total, delivery_checkout,
}
use retail_system.Selling.Documents.{DocLine, Document}
use retail_system.Selling.State.{Invoice, DeliveryLine, DeliveryNote}
use retail_system.Till.Amounts.{gross, subtotal, discount_total, total}
use retail_system.Till.Checkout.{credit_paid}

-- Rounding a smaller share of the same amount, in finer units.
share-le : (n m : ℕ) → n ≤ m * 100_000_000 → half_up n 100_000_000_000 ≤ half_up m 1000
share-le n m h =
    grind
      (arith, half_up_bounds n 100_000_000_000 (omega arith), half_up_bounds m 1000 (omega arith))

share-le_vat :
    (n m : ℕ) → n ≤ m * 1_000_000_000_000 → half_up n 1_000_000_000_000_000 ≤ half_up m 1000
share-le_vat n m h = grind (
  arith,
  half_up_bounds n 1_000_000_000_000_000 (omega arith),
  half_up_bounds m 1000 (omega arith),
)

charged_share-le : (d : Document) (l : DocLine) → charged_share d l ≤ 100_000_000
unfolding charged_share
charged_share-le d l =
    let a : 10_000 - l.discount_percent ≤ 10_000 = omega arith in
    let b : 10_000 - d.discount_percent ≤ 10_000 = omega arith in
    omega (arith, mul-le-mul_right (10_000 - d.discount_percent) a)

rounded_up : (x y : ℕ) → x * y ≤ (x * y + 9999) / 10_000 * 10_000
rounded_up x y = omega arith

plain_value : (qty u share : ℕ) → share ≤ 100_000_000 → qty * u * share ≤ qty * u * 100_000_000
plain_value qty u share h = mul-le-mul_left (qty * u) h

vat_value :
    (qty u u' share rate : ℕ)
    → share ≤ 100_000_000
    → u * rate ≤ u' * 10_000
    → qty * u * share * rate ≤ qty * u' * 1_000_000_000_000
vat_value qty u u' share rate h k =
    omega (arith, mul-le-mul_left (qty * share) k, mul-le-mul_left (qty * u' * 10_000) h)

-- The price at the till covers what is charged, where the invoice is in the shop's own currency.
line_total_main-le :
    (d : Document) (r : DeliveryLine)
    → d.is_foreign ≡ false
    → line_total_main d r ≤ half_up (r.qty * sold_price d r.invoice_line) 1000
unfolding line_total_main delivery_line_total sold_price
line_total_main-le d r h =
    let l = r.invoice_line in
    let share = charged_share-le d l in
    let each = (l.unit_price * (10_000 + l.tax_rate) + 9999) / 10_000 in
    elim (Bool-cases d.adds_vat) [
      | inl e ↦
          rw (h, e)
            (share-le_vat (r.qty * l.unit_price * charged_share d l * (10_000 + l.tax_rate))
              (r.qty * each)
              (vat_value r.qty l.unit_price each (charged_share d l) (10_000 + l.tax_rate) share
                (rounded_up l.unit_price (10_000 + l.tax_rate))))
      | inr e ↦
          rw (h, e)
            (share-le (r.qty * l.unit_price * charged_share d l) (r.qty * l.unit_price)
              (plain_value r.qty l.unit_price (charged_share d l) share))
    ]

rows_agree :
    (d : Document) (rs : List DeliveryLine)
    → d.is_foreign ≡ false
    → subtotal (delivery_cart d rs) ≡ discount_total (delivery_cart d rs) + delivery_total d rs
unfolding subtotal discount_total delivery_cart delivery_total delivery_cart_line gross
rows_agree d [] h = refl
rows_agree d (r ∷ rs) h = omega (arith, line_total_main-le d r h, rows_agree d rs h)

-- What the goods of a row are worth on the invoice, its discounts and VAT on top included, before
-- anything is rounded: in units of which a cent has 10 ^ 15.
unfoldable pub exact_share : Document → DeliveryLine → ℕ
unfolding charged_share
exact_share d r =
    let l = r.invoice_line in
    let value = r.qty * l.unit_price * charged_share d l in
    if d.adds_vat then value * (10_000 + l.tax_rate) else value * 10_000

unfoldable pub exact_shares : Document → List DeliveryLine → ℕ
unfolding exact_share
exact_shares d [] = 0
exact_shares d (r ∷ rs) = exact_share d r + exact_shares d rs

line_total_main-bounds :
    (d : Document) (r : DeliveryLine)
    → d.is_foreign ≡ false
    → (2 * (line_total_main d r * 1_000_000_000_000_000)
        ≤ 2 * exact_share d r + 1_000_000_000_000_000)
      × (2 * exact_share d r
          ≤ 2 * (line_total_main d r * 1_000_000_000_000_000) + 1_000_000_000_000_000)
unfolding line_total_main delivery_line_total exact_share
line_total_main-bounds d r h =
    let l = r.invoice_line in
    let value = r.qty * l.unit_price * charged_share d l in
    elim (Bool-cases d.adds_vat) [
      | inl e ↦
          rw (h, e)
            (omega (
              arith,
              half_up_bounds (value * (10_000 + l.tax_rate)) 1_000_000_000_000_000 (omega arith),
            ))
      | inr e ↦ rw (h, e) (omega (arith, half_up_bounds value 100_000_000_000 (omega arith)))
    ]

delivery_total-bounds :
    (d : Document) (rs : List DeliveryLine)
    → d.is_foreign ≡ false
    → let half_cents = length rs * 1_000_000_000_000_000 in
      (2 * (delivery_total d rs * 1_000_000_000_000_000) ≤ 2 * exact_shares d rs + half_cents)
      × (2 * exact_shares d rs ≤ 2 * (delivery_total d rs * 1_000_000_000_000_000) + half_cents)
unfolding delivery_total exact_shares
delivery_total-bounds d [] h = omega arith
delivery_total-bounds d (r ∷ rs) h =
    omega (arith, line_total_main-bounds d r h, delivery_total-bounds d rs h)

-- Where the invoice is in the shop's own currency, the sale that a delivery makes comes to exactly what
-- is put on account for it, and that is within half a cent a row of what the goods that left are worth
-- on the invoice, the discounts of the line and of the document taken off and VAT put on top.
pub delivery_sale_total :
    (i : Invoice) (n : DeliveryNote) (number : ℕ)
    → i.doc.is_foreign ≡ false
    → let c = delivery_checkout i n number in
      let charged = credit_paid c.payments in
      let half_cents = length n.lines * 1_000_000_000_000_000 in
      (total c.lines ≡ pos charged)
      × (2 * (charged * 1_000_000_000_000_000) ≤ 2 * exact_shares i.doc n.lines + half_cents)
      × (2 * exact_shares i.doc n.lines ≤ 2 * (charged * 1_000_000_000_000_000) + half_cents)
unfolding total delivery_checkout credit_paid
delivery_sale_total i n number h =
    ground (arith, rows_agree i.doc n.lines h, delivery_total-bounds i.doc n.lines h)
