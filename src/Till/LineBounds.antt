-- ===== src/Till/LineBounds.antt =====
-- The bounds of what is refunded of one line: `refund_amount` of apps/pos/services.py.
use mathlib.Core.Path.{subst₂}
use retail_system.Prelude.{
  ℕ, ◌+◌, ◌≤◌, ◌<◌, ◌≡◌, inl, inr, arith, leb, ◌==◌, Bool-cases, ℤ, pos, ◌+ℤ◌, ◌*ℤ◌, ◌≤ℤ◌,
  int_order, *ℤ_nonneg,
}
use retail_system.Money.{half_up_ℤ}
use retail_system.Money.Rounding.{half_up_ℤ_nonneg}
use retail_system.Till.Refund.{unit_price_of, refund_amount}
use retail_system.Till.State.{SaleLine}

-- `returned` of a line came back so far, and `back` was paid for it: never more than the line, and
-- exactly its price once it is all back.
abbrev pub IsWithin : SaleLine → ℕ → ℤ → Type 0
IsWithin l returned back =
    (returned ≤ l.qty)
    × (pos 0 ≤ℤ back)
    × (back ≤ℤ l.line_total)
    × (l.qty ≤ returned → 0 < returned → l.line_total ≤ℤ back)

unit_price_of_nonneg : (l : SaleLine) → pos 0 ≤ℤ l.line_total → pos 0 ≤ℤ unit_price_of l
unfolding unit_price_of
unit_price_of_nonneg l h = elim (Bool-cases (l.qty == 0)) [
  | inl e ↦ rw e (omega arith)
  | inr e ↦ rw e (half_up_ℤ_nonneg (l.line_total *ℤ pos 1000) l.qty (*ℤ_nonneg l.line_total 1000 h))
]

pub refund_amount-IsWithin :
    (l : SaleLine) (returned qty : ℕ) (back : ℤ)
    → pos 0 ≤ℤ l.line_total
    → IsWithin l returned back
    → returned + qty ≤ l.qty
    → (pos 0 ≤ℤ refund_amount l returned qty back)
      × IsWithin l (qty + returned) (refund_amount l returned qty back +ℤ back)
unfolding refund_amount
refund_amount-IsWithin l returned qty back h w q =
    let unit : pos 0 ≤ℤ half_up_ℤ (unit_price_of l *ℤ pos qty) 1000 =
      half_up_ℤ_nonneg (unit_price_of l *ℤ pos qty) 1000
        (*ℤ_nonneg (unit_price_of l) qty (unit_price_of_nonneg l h)) in
    elim (Bool-cases (leb l.qty (returned + qty))) [
      | inl e ↦ rw e (
        omega int_order,
        (omega int_order, omega int_order, omega int_order, λ _ _. omega int_order),
      )
      | inr e ↦ rw e (
        omega int_order,
        (omega int_order, omega int_order, omega int_order, λ k _. absurd (ground arith)),
      )
    ]

-- The same facts of a line, with its figures written another way.
pub IsWithin-congr :
    (l : SaleLine) {m n : ℕ} {x y : ℤ} → m ≡ n → x ≡ y → IsWithin l m x → IsWithin l n y
IsWithin-congr l e f w = subst₂ (IsWithin l) e f w
