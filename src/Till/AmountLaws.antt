-- ===== src/Till/AmountLaws.antt =====
-- About the lines of a sale and its totals.
use native.Mathlib.Nat.{mul-le-mul_left}
use retail_system.Prelude.{
  ℕ, ◌+◌, ◌-◌, ◌*◌, ◌≤◌, ◌<◌, ◌≡◌, refl, ap, List, [], ◌∷◌, arith, ◌==◌, if◌then◌else◌, ℤ, pos,
  pos_part, neg_part, sub_ℕ, ◌+ℤ◌, +ℤ_parts, eq_of_parts, pos-*ℤ, pos-+ℤ, All,
}
use retail_system.Money.{half_up, half_up_ℤ}
use retail_system.Money.Rounding.{half_up_bounds, half_up_between}
use retail_system.Till.Amounts.{
  CartLine, exact, gross, line_total, tax_for, subtotal, discount_total, total, IsCovered,
}

-- Taking whole cents off commutes with rounding to the cent.
pub half_up_sub : (n k : ℕ) → 1000 * k ≤ n → half_up (n - 1000 * k) 1000 + k ≡ half_up n 1000
unfolding half_up
half_up_sub n k h = omega arith

-- What is charged for a covered line.
unfoldable pub charged : CartLine → ℕ
unfolding half_up
charged l = half_up (exact l - 1000 * l.discount) 1000

pub line_total-eq-charged : (l : CartLine) → IsCovered l → line_total l ≡ pos (charged l)
unfolding line_total half_up_ℤ charged
line_total-eq-charged l h = ground arith

pub line_total-eq-gross :
    (l : CartLine) → IsCovered l → line_total l +ℤ pos l.discount ≡ pos (gross l)
unfolding gross charged
line_total-eq-gross l h =
    rw (line_total-eq-charged l h, pos-+ℤ) (ap pos (half_up_sub (exact l) l.discount h))

unfoldable pub line_totals : List CartLine → ℤ
line_totals [] = pos 0
line_totals (l ∷ ls) = line_total l +ℤ line_totals ls

regroup_totals :
    (g d s t : ℕ) (x y : ℤ) → x +ℤ pos d ≡ pos g → sub_ℕ s t ≡ y → sub_ℕ (g + s) (d + t) ≡ x +ℤ y
regroup_totals g d s t x y e f = rw (← f) (
    ground (
      arith,
      +ℤ_parts x (pos d),
      +ℤ_parts x (sub_ℕ s t),
      ap pos_part e,
      ap neg_part e,
      eq_of_parts (sub_ℕ (g + s) (d + t)) (x +ℤ sub_ℕ s t),
    ))

-- What the customer is asked for is what the lines on the receipt add up to, to the cent, where no
-- line is discounted by more than it costs.
pub total-eq-line_totals : (ls : List CartLine) → All IsCovered ls → total ls ≡ line_totals ls
unfolding total subtotal discount_total line_totals
total-eq-line_totals [] h = refl
total-eq-line_totals (l ∷ ls) h =
    regroup_totals (gross l) l.discount (subtotal ls) (discount_total ls) (line_total l)
      (line_totals ls) (line_total-eq-gross l h.0) (total-eq-line_totals ls h.1)

-- The VAT of a covered line.
unfoldable pub vat : CartLine → ℕ
unfolding half_up charged
vat l = if l.tax_rate == 0 then 0 else half_up (charged l * l.tax_rate) (10_000 + l.tax_rate)

pub tax_for-eq-vat : (l : CartLine) → IsCovered l → tax_for l ≡ pos (vat l)
unfolding tax_for vat half_up_ℤ
tax_for-eq-vat l h = ground (arith, line_total-eq-charged l h, pos-*ℤ (charged l) l.tax_rate)

vat_bounds :
    (l : CartLine)
    → let whole = 10_000 + l.tax_rate in
      (vat l ≤ charged l)
      × (2 * (vat l * whole) ≤ 2 * (charged l * l.tax_rate) + whole)
      × (2 * (charged l * l.tax_rate) < 2 * (vat l * whole) + whole)
unfolding vat
vat_bounds l =
    let whole = 10_000 + l.tax_rate in
    grind (
      arith,
      half_up_bounds (charged l * l.tax_rate) whole (omega arith),
      half_up_between 0 (charged l) (charged l * l.tax_rate) whole (omega arith) (omega arith)
          (mul-le-mul_left (charged l) (omega arith)),
    )

-- The VAT taken out of a line is a whole number of cents from nothing up to the charge, and the
-- nearest one to the rate's share of the charge: at 18%, 18 parts of 118.
pub tax_for_bounds :
    (l : CartLine)
    → IsCovered l
    → let whole = 10_000 + l.tax_rate in
      (charge vat : ℕ) × (line_total l ≡ pos charge)
      × (tax_for l ≡ pos vat)
      × (vat ≤ charge)
      × (2 * (vat * whole) ≤ 2 * (charge * l.tax_rate) + whole)
      × (2 * (charge * l.tax_rate) < 2 * (vat * whole) + whole)
tax_for_bounds l h = (
  charged l,
  vat l,
  line_total-eq-charged l h,
  tax_for-eq-vat l h,
  (vat_bounds l).0,
  (vat_bounds l).1,
  (vat_bounds l).2,
)
