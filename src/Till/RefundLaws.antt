-- ===== src/Till/RefundLaws.antt =====
-- Where the money of a refund comes from.
use retail_system.Prelude.{
  ◌≡◌, refl, ◌∙◌, inl, inr, arith, if◌then◌else◌, Bool-cases, ℤ, pos, ◌+ℤ◌, ◌-ℤ◌, ◌≤ℤ◌, ltb_ℤ,
  eqb_ℤ, min_ℤ, -ℤ_parts, eq_of_parts, int_laws, +ℤ_sub, int_order,
}
use retail_system.Till.Amounts.{total}
use retail_system.Till.Refund.{
  Route, by_cash, by_credit, by_other, route, Split, add_to, paid_by_route, left_of, share_out,
  sum_of, top_up, allocate_refund,
}
use retail_system.Till.State.{PaymentMethod, Sale}

-- Three takings from one amount, each up to what is left there.
takings :
    (t a b c : ℤ)
    → pos 0 ≤ℤ t
    → pos 0 ≤ℤ a
    → pos 0 ≤ℤ b
    → pos 0 ≤ℤ c
    → let x = min_ℤ t a in
      let y = min_ℤ (t -ℤ x) b in
      let z = min_ℤ (t -ℤ x -ℤ y) c in
      (pos 0 ≤ℤ x)
      × (pos 0 ≤ℤ y)
      × (y ≤ℤ b)
      × (pos 0 ≤ℤ z)
      × (z ≤ℤ c)
      × (x +ℤ y +ℤ z ≤ℤ t)
      × (t ≤ℤ a +ℤ b +ℤ c → t ≤ℤ x +ℤ y +ℤ z)
takings t a b c h ha hb hc = (
  omega int_order,
  omega int_order,
  omega int_order,
  omega int_order,
  omega int_order,
  omega int_order,
  λ k. omega int_order,
)

abbrev pub IsSharedOut : Split → ℤ → Split → Type 0
IsSharedOut left total p =
    (p.credit ≡ min_ℤ total left.credit)
    × (pos 0 ≤ℤ p.credit)
    × (pos 0 ≤ℤ p.cash)
    × (p.cash ≤ℤ left.cash)
    × (pos 0 ≤ℤ p.other)
    × (p.other ≤ℤ left.other)
    × (sum_of p ≤ℤ total)
    × (total ≤ℤ sum_of left → total ≤ℤ sum_of p)

share_out-IsSharedOut :
    (left : Split) (total : ℤ) (r : Route)
    → pos 0 ≤ℤ total
    → pos 0 ≤ℤ left.cash
    → pos 0 ≤ℤ left.credit
    → pos 0 ≤ℤ left.other
    → IsSharedOut left total (share_out left total r)
unfolding share_out
share_out-IsSharedOut left total by_cash h a b c =
    let (x, y, y', z, z', s, f) = takings total left.credit left.cash left.other h b a c in
    (refl, x, y, y', z, z', omega (int_laws, s), λ k. omega (int_laws, f (omega int_laws)))
share_out-IsSharedOut left total by_credit h a b c =
    let (x, y, y', z, z', s, f) = takings total left.credit left.cash left.other h b a c in
    (refl, x, y, y', z, z', omega (int_laws, s), λ k. omega (int_laws, f (omega int_laws)))
share_out-IsSharedOut left total by_other h a b c =
    let (x, y, y', z, z', s, f) = takings total left.credit left.other left.cash h b c a in
    (refl, x, z, z', y, y', omega (int_laws, s), λ k. omega (int_laws, f (omega int_laws)))

left_of_nonneg :
    (sale : Sale)
    → (pos 0 ≤ℤ (left_of sale).cash)
      × (pos 0 ≤ℤ (left_of sale).credit)
      × (pos 0 ≤ℤ (left_of sale).other)
unfolding left_of
left_of_nonneg sale = (omega int_order, omega int_order, omega int_order)

sum_of-add_to : (r : Route) (x : ℤ) (p : Split) → sum_of (add_to r x p) ≡ sum_of p +ℤ x
sum_of-add_to by_cash x p = omega int_laws
sum_of-add_to by_credit x p = omega int_laws
sum_of-add_to by_other x p = omega int_laws

top_up-sum_of :
    (r : Route) (total : ℤ) (p : Split) → sum_of p ≤ℤ total → sum_of (top_up r total p) ≡ total
unfolding top_up
top_up-sum_of r total p h = elim (Bool-cases (ltb_ℤ (pos 0) (total -ℤ sum_of p))) [
  | inl e ↦ rw e (sum_of-add_to r (total -ℤ sum_of p) p ∙ +ℤ_sub total (sum_of p))
  | inr e ↦ rw e (ground (arith, eq_of_parts (sum_of p) total, -ℤ_parts total (sum_of p)))
]

top_up_covered : (r : Route) (total : ℤ) (p : Split) → total ≤ℤ sum_of p → top_up r total p ≡ p
unfolding top_up
top_up_covered r total p h = ground (arith, -ℤ_parts total (sum_of p))

-- However a sale was paid, the three parts of its refund add up to the whole refund. As long as the
-- refund is covered by what the sale took less what it gave back before, no part is negative, the
-- debt is cleared first, and no route gives back more than it took.
pub allocate_refund_lem :
    (sale : Sale) (total : ℤ) (preferred : PaymentMethod)
    → pos 0 ≤ℤ total
    → let p = allocate_refund sale total preferred in
      let left = left_of sale in
      (sum_of p ≡ total)
      × (total ≤ℤ sum_of left
          → (p.credit ≡ min_ℤ total left.credit)
            × (pos 0 ≤ℤ p.cash)
            × (p.cash ≤ℤ left.cash)
            × (pos 0 ≤ℤ p.other)
            × (p.other ≤ℤ left.other))
unfolding allocate_refund
allocate_refund_lem sale total preferred h =
    let left = left_of sale in
    let r : Route =
      if eqb_ℤ (paid_by_route sale.payments).cash (pos 0) then route preferred else by_cash in
    let p = share_out left total (route preferred) in
    let (a, b, c) = left_of_nonneg sale in
    let (e, x, y, y', z, z', s, f) = share_out-IsSharedOut left total (route preferred) h a b c in
    (top_up-sum_of r total p s, λ k. rw (top_up_covered r total p (f k)) (e, y, y', z, z'))
