-- ===== src/Selling/DiscountLaws.antt =====
-- About the check of a document's discounts, line by line.
use native.Mathlib.Nat.{mul-le-mul_right}
use retail_system.Prelude.{
  ℕ, ◌+◌, ◌-◌, ◌*◌, ◌≤◌, ◌≡◌, refl, ap, ◌↔◌, List, [], ◌∷◌, arith, All, ok, >>=-eq-ok,
}
use retail_system.Money.Rounding.{half_even_between, half_even_mono}
use retail_system.Selling.Discounts.{
  Rules, share_left, combined_discount, check_discount, check_product_rules, deepest, check_lines,
  check_document_discounts,
}
use retail_system.Selling.Documents.{DocLine, Document}

-- The shop's limit and the product's own rules, for one line of a document.
abbrev pub IsAllowed : Rules → Document → DocLine → Type 0
IsAllowed r d l =
    (combined_discount l.discount_percent d.discount_percent ≤ r.max_document_discount)
    × (check_product_rules r l.variant l.unit_price l.discount_percent d.discount_percent
          d.exchange_rate
        ≡ ok tt)

share_left_mono : (p q document : ℕ) → p ≤ q → share_left q document ≤ share_left p document
share_left_mono p q document h =
    let less : 10_000 - q ≤ 10_000 - p = omega arith in mul-le-mul_right (10_000 - document) less

pub combined_discount_mono :
    (p q document : ℕ) → p ≤ q → combined_discount p document ≤ combined_discount q document
unfolding combined_discount
combined_discount_mono p q document h =
    let more : 100_000_000 - share_left p document ≤ 100_000_000 - share_left q document =
      omega (arith, share_left_mono p q document h) in
    half_even_mono (100_000_000 - share_left p document) (100_000_000 - share_left q document)
      10_000 (omega arith) more

-- What is taken off by one discount, and by the other of what is left.
share_left_parts :
    (p q : ℕ)
    → p ≤ 10_000
    → q ≤ 10_000
    → let a = 10_000 - p in
      (share_left p q + a * q ≡ a * 10_000) × (a + p ≡ 10_000) × (a * q ≤ 10_000 * q)
share_left_parts p q h k =
    let whole : 10_000 - q + q ≡ 10_000 = omega arith in
    let less : 10_000 - p ≤ 10_000 = omega arith in
    (omega (arith, ap (λ x. (10_000 - p) * x) whole), omega arith, mul-le-mul_right q less)

-- Two discounts together are never less than either and never more than both added up, nor more
-- than the whole price.
pub combined_discount_bounds :
    (p q : ℕ)
    → p ≤ 10_000
    → q ≤ 10_000
    → let c = combined_discount p q in (p ≤ c) × (q ≤ c) × (c ≤ p + q) × (c ≤ 10_000)
unfolding combined_discount
combined_discount_bounds p q h k =
    let off = 100_000_000 - share_left p q in
    let parts = share_left_parts p q h k in
    let less : 10_000 - p ≤ 10_000 = omega arith in
    let left = mul-le-mul_right (10_000 - q) less in
    let low =
      half_even_between p 10_000 off 10_000 (omega arith) (omega (arith, parts)) (omega arith) in
    let high =
      half_even_between q (p + q) off 10_000 (omega arith) (omega (arith, left))
        (omega (arith, parts)) in
    (low.0, high.0, high.1, low.1)

-- One line allowed by the limit and by its product, the limit taken at the deepest discount.
lines-IsAllowed :
    (r : Rules) (d : Document) (p : ℕ) (ls : List DocLine)
    → check_lines r d ls ≡ ok tt
    → combined_discount p d.discount_percent ≤ r.max_document_discount
    → deepest ls ≤ p
    → All (IsAllowed r d) ls
unfolding check_lines deepest
lines-IsAllowed r d p [] h a b = tt
lines-IsAllowed r d p (l ∷ ls) h a b =
    let (u, e, h') =
      >>=-eq-ok
        (check_product_rules r l.variant l.unit_price l.discount_percent d.discount_percent
          d.exchange_rate)
        _ h in
    let within : l.discount_percent ≤ p = ground arith in
    let rest : deepest ls ≤ p = ground arith in
    (
      (
        omega (arith, combined_discount_mono l.discount_percent p d.discount_percent within),
        ground arith,
      ),
      lines-IsAllowed r d p ls h' a rest,
    )

lines_pass :
    (r : Rules) (d : Document) (ls : List DocLine)
    → All (IsAllowed r d) ls
    → combined_discount 0 d.discount_percent ≤ r.max_document_discount
    → (check_lines r d ls ≡ ok tt)
      × (combined_discount (deepest ls) d.discount_percent ≤ r.max_document_discount)
unfolding check_lines deepest
lines_pass r d [] h a = (refl, a)
lines_pass r d (l ∷ ls) h a = let rest = lines_pass r d ls h.1 a in ground (arith, rest, h.0)

-- A document passes exactly when every line of it is allowed: looking at the deepest discount alone
-- misses none. A document with no lines is held to the limit for its own discount.
pub check_document_discounts_iff :
    (r : Rules) (d : Document)
    → (check_document_discounts r d ≡ ok tt) ↔ (
        (combined_discount 0 d.discount_percent ≤ r.max_document_discount)
        × All (IsAllowed r d) d.lines)
unfolding check_document_discounts check_discount
check_document_discounts_iff r d = (
  λ h.
      (let (u, e, h') = >>=-eq-ok (check_discount r (deepest d.lines) d.discount_percent) _ h in
        let within : combined_discount (deepest d.lines) d.discount_percent
            ≤ r.max_document_discount =
          ground arith in
        (
          omega
              (arith, combined_discount_mono 0 (deepest d.lines) d.discount_percent (omega arith)),
          lines-IsAllowed r d (deepest d.lines) d.lines h' within (omega arith),
        )),
  λ h. let rest = lines_pass r d d.lines h.1 h.0 in ground (arith, rest),
)
