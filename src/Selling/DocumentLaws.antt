-- ===== src/Selling/DocumentLaws.antt =====
-- About the amounts of a document line.
use native.Mathlib.Nat.{mul-le-mul_left}
use retail_system.Prelude.{
  ℕ, ◌+◌, ◌-◌, ◌*◌, ◌≤◌, ◌<◌, ◌≡◌, ◌⊎◌, inl, inr, arith, ltb, leb, Bool-cases, pos, negsuc, sub_ℕ,
  ◌+ℤ◌, neg, ◌≤ℤ◌, +ℤ_zero, +ℤ_comm,
}
use retail_system.Money.{half_up, half_up_ℤ}
use retail_system.Money.Rounding.{half_up_bounds}
use retail_system.Selling.Documents.{
  DocLine, doc_exact, doc_gross_total, doc_discount, doc_line_total,
}
use retail_system.Till.AmountLaws.{half_up_sub}

-- A discount within 100% is at most the line rounded to the cent.
doc_discount-le-gross :
    (l : DocLine) → l.discount_percent ≤ 10_000 → doc_discount l ≤ doc_gross_total l
unfolding doc_discount doc_gross_total
doc_discount-le-gross l h =
    let off = mul-le-mul_left (doc_exact l) h in
    grind (
      arith,
      half_up_bounds (doc_exact l) 1000 (omega arith),
      half_up_bounds (doc_exact l * l.discount_percent) 10_000_000 (omega arith),
    )

covered_off :
    (e d : ℕ)
    → 1000 * d ≤ e
    → let left = half_up_ℤ (sub_ℕ e (1000 * d)) 1000 in
      (left +ℤ pos d ≡ pos (half_up e 1000)) × (pos 0 ≤ℤ left)
unfolding half_up_ℤ half_up ◌+ℤ◌
covered_off e d h =
    let apart : half_up (e - 1000 * d) 1000 + d ≡ half_up e 1000 = half_up_sub e d h in
    ground (arith, apart)

uncovered_off :
    (e d : ℕ)
    → e < 1000 * d
    → d ≤ half_up e 1000
    → let left = half_up_ℤ (sub_ℕ e (1000 * d)) 1000 in
      ((left ≡ pos 0) × (half_up e 1000 ≡ d)) ⊎ ((left ≡ negsuc 0) × (e + 500 ≡ 1000 * d))
unfolding half_up_ℤ half_up neg
uncovered_off e d h k = ground arith

-- Whole cents taken off an amount, no more of them than its nearest cent.
whole_cents_off :
    (e d : ℕ)
    → d ≤ half_up e 1000
    → let left = half_up_ℤ (sub_ℕ e (1000 * d)) 1000 in
      ((left +ℤ pos d ≡ pos (half_up e 1000)) × (pos 0 ≤ℤ left))
      ⊎ ((left ≡ negsuc 0) × (e + 500 ≡ 1000 * d))
whole_cents_off e d h = elim (Bool-cases (leb (1000 * d) e)) [
  | inl covered ↦ inl (covered_off e d (ground arith))
  | inr uncovered ↦ grind (arith, uncovered_off e d, +ℤ_comm (pos 0) (pos d), +ℤ_zero (pos d))
]

all_off :
    (l : DocLine)
    → l.discount_percent ≤ 10_000
    → doc_exact l + 500 ≡ 1000 * doc_discount l
    → l.discount_percent ≡ 10_000
unfolding doc_discount
all_off l h e = elim (Bool-cases (ltb l.discount_percent 10_000)) [
  | inl below ↦
      let less : l.discount_percent ≤ 9999 = ground arith in
      absurd (
        grind (
          arith,
          mul-le-mul_left (doc_exact l) less,
          half_up_bounds (doc_exact l * l.discount_percent) 10_000_000 (omega arith),
        ))
  | inr above ↦ ground arith
]

-- A line comes to its full price less its discount, to the cent and never below nothing, but for
-- one case: a line given away whole, whose exact price has half a cent, comes to one cent less than
-- nothing.
pub doc_line_total_cases :
    (l : DocLine)
    → l.discount_percent ≤ 10_000
    → ((doc_line_total l +ℤ pos (doc_discount l) ≡ pos (doc_gross_total l))
        × (pos 0 ≤ℤ doc_line_total l))
      ⊎ ((doc_line_total l ≡ negsuc 0)
          × (doc_exact l + 500 ≡ 1000 * doc_discount l)
          × (l.discount_percent ≡ 10_000))
unfolding doc_line_total doc_gross_total
doc_line_total_cases l h =
    ground (
      arith,
      whole_cents_off (doc_exact l) (doc_discount l) (doc_discount-le-gross l h),
      all_off l h,
    )
