-- ===== src/Customers/LoyaltyLaws.antt =====
-- About the points of apps/customers/services.py: sequences of operations, and refunds.
use retail_system.Prelude.{
  ℕ, ◌≡◌, ◌∙◌, inl, inr, Bool, Option, some, List, [], arith, Option-cases, ℤ, pos, negsuc, ◌+ℤ◌,
  ◌-ℤ◌, ◌*ℤ◌, neg, ◌≤ℤ◌, ◌<ℤ◌, min_ℤ, max_ℤ, +ℤ_parts, -ℤ_parts, neg_parts, eq_of_parts, int_laws,
  +ℤ_sub, -ℤ_zero_right, min_ℤ_cases, max_ℤ_cases, int_order, ok,
}
use retail_system.Customers.Loyalty.{
  LoyaltyTransaction, loyalty_points, cut, points_for, earned_by, award, redeem, earned_on,
  taken_back, take_back, take_back_on_void, refunded_of, should_have, take_back_on_return,
}
use retail_system.Till.State.{Sale}

-- What a customer has is never below nothing.
abbrev pub NoneOverdrawn : List LoyaltyTransaction → Type 0
NoneOverdrawn ts = (customer : ℕ) → pos 0 ≤ℤ loyalty_points customer ts

-- One operation on the points, in any order and any number of times.
pub data LoyaltyStep (ts : List LoyaltyTransaction) : List LoyaltyTransaction → Type 0 where
  awarded : (has_loyalty : Bool) (sale : Sale) → LoyaltyStep ts (award has_loyalty sale ts)
  spent :
      (customer : ℕ) (points : ℤ) (sale : Option ℕ) (ts' : List LoyaltyTransaction)
      → redeem customer points sale ts ≡ ok ts'
      → LoyaltyStep ts ts'
  voided_sale_of : (sale : Sale) → LoyaltyStep ts (take_back_on_void sale ts)
  returned_sale_of : (sale : Sale) → LoyaltyStep ts (take_back_on_return sale ts)

award-NoneOverdrawn :
    (has_loyalty : Bool) (sale : Sale) (ts : List LoyaltyTransaction)
    → NoneOverdrawn ts
    → NoneOverdrawn (award has_loyalty sale ts)
unfolding award earned_by loyalty_points
award-NoneOverdrawn has_loyalty sale ts h c = elim (Option-cases sale.customer) [
  | inl e ↦ ground (arith, h c)
  | inr (k, e) ↦ ground (arith, h c, +ℤ_parts (points_for sale.total) (loyalty_points c ts))
]

redeem-NoneOverdrawn :
    (customer : ℕ) (points : ℤ) (sale : Option ℕ) (ts ts' : List LoyaltyTransaction)
    → NoneOverdrawn ts
    → redeem customer points sale ts ≡ ok ts'
    → NoneOverdrawn ts'
unfolding redeem loyalty_points
redeem-NoneOverdrawn customer points sale ts ts' h e c =
    ground (arith, h c, h customer, neg_parts points, +ℤ_parts (neg points) (loyalty_points c ts))

take_back-NoneOverdrawn :
    (customer number : ℕ) (points : ℤ) (ts : List LoyaltyTransaction)
    → NoneOverdrawn ts
    → NoneOverdrawn (take_back customer number points ts)
unfolding take_back loyalty_points
take_back-NoneOverdrawn customer number points ts h c =
    let limit = max_ℤ (loyalty_points customer ts) (pos 0) in
    let taken = min_ℤ points limit in
    ground (
      arith,
      h c,
      h customer,
      min_ℤ_cases points limit,
      max_ℤ_cases (loyalty_points customer ts) (pos 0),
      neg_parts taken,
      +ℤ_parts (neg taken) (loyalty_points c ts),
    )

voided-NoneOverdrawn :
    (sale : Sale) (ts : List LoyaltyTransaction)
    → NoneOverdrawn ts
    → NoneOverdrawn (take_back_on_void sale ts)
unfolding take_back_on_void
voided-NoneOverdrawn sale ts h c = elim (Option-cases sale.customer) [
  | inl e ↦ ground (arith, h c)
  | inr (k, e) ↦ elim (Option-cases (earned_on sale.number ts)) [
    | inl n ↦ ground (arith, h c)
    | inr (earned, n) ↦ ground (arith, take_back-NoneOverdrawn k sale.number earned ts h c)
  ]
]

returned-NoneOverdrawn :
    (sale : Sale) (ts : List LoyaltyTransaction)
    → NoneOverdrawn ts
    → NoneOverdrawn (take_back_on_return sale ts)
unfolding take_back_on_return
returned-NoneOverdrawn sale ts h c = elim (Option-cases sale.customer) [
  | inl e ↦ ground (arith, h c)
  | inr (k, e) ↦ elim (Option-cases (earned_on sale.number ts)) [
    | inl n ↦ ground (arith, h c)
    | inr (earned, n) ↦
        let due = earned -ℤ taken_back sale.number ts -ℤ should_have sale earned in
        ground (arith, h c, take_back-NoneOverdrawn k sale.number due ts h c)
  ]
]

points-NoneOverdrawn :
    (ts ts' : List LoyaltyTransaction) → NoneOverdrawn ts → LoyaltyStep ts ts' → NoneOverdrawn ts'
points-NoneOverdrawn ts _ h (awarded f sale) = award-NoneOverdrawn f sale ts h
points-NoneOverdrawn ts ts' h (spent customer points sale _ e) =
    redeem-NoneOverdrawn customer points sale ts ts' h e
points-NoneOverdrawn ts _ h (voided_sale_of sale) = voided-NoneOverdrawn sale ts h
points-NoneOverdrawn ts _ h (returned_sale_of sale) = returned-NoneOverdrawn sale ts h

cut_zero : (b : ℤ) → pos 0 <ℤ b → cut (pos 0) b ≡ pos 0
unfolding cut
cut_zero (pos b) h = ground arith
cut_zero (negsuc b) h = absurd (omega arith)

*ℤ_zero : (a : ℤ) → a *ℤ pos 0 ≡ pos 0
unfolding ◌*ℤ◌
*ℤ_zero a = ground arith

kept_nothing : (a b : ℤ) → a ≤ℤ b → max_ℤ (a -ℤ b) (pos 0) ≡ pos 0
unfolding max_ℤ
kept_nothing a b h = ground (arith, -ℤ_parts a b, eq_of_parts (a -ℤ b) (pos 0))

should_have-nothing :
    (sale : Sale) (earned : ℤ)
    → pos 0 <ℤ sale.total
    → sale.total ≤ℤ refunded_of sale.returns
    → should_have sale earned ≡ pos 0
unfolding should_have
should_have-nothing sale earned p r =
    rw (kept_nothing sale.total (refunded_of sale.returns) r, *ℤ_zero earned)
      (cut_zero sale.total p)

taken_back-take_back :
    (customer number : ℕ) (due : ℤ) (ts : List LoyaltyTransaction)
    → pos 0 ≤ℤ due
    → due ≤ℤ loyalty_points customer ts
    → taken_back number (take_back customer number due ts) ≡ taken_back number ts +ℤ due
unfolding take_back taken_back
taken_back-take_back customer number due ts p b =
    let limit = max_ℤ (loyalty_points customer ts) (pos 0) in
    let taken = min_ℤ due limit in
    let whole : taken ≡ due =
      omega (int_order, min_ℤ_cases due limit, max_ℤ_cases (loyalty_points customer ts) (pos 0)) in
    ground (
      arith,
      whole,
      -ℤ_parts (taken_back number ts) (neg due),
      +ℤ_parts (taken_back number ts) due,
      neg_parts due,
      eq_of_parts (taken_back number ts -ℤ neg due) (taken_back number ts +ℤ due),
      eq_of_parts (taken_back number ts) (taken_back number ts +ℤ due),
    )

-- Refunded whole, a sale has nothing more to keep points for.
take_back_on_return-due :
    (sale : Sale) (ts : List LoyaltyTransaction) (customer : ℕ) (earned : ℤ)
    → sale.customer ≡ some customer
    → pos 0 <ℤ sale.total
    → sale.total ≤ℤ refunded_of sale.returns
    → earned_on sale.number ts ≡ some earned
    → take_back_on_return sale ts
      ≡ take_back customer sale.number (earned -ℤ taken_back sale.number ts) ts
unfolding take_back_on_return
take_back_on_return-due sale ts customer earned e p r f =
    let due = earned -ℤ taken_back sale.number ts in
    ground (arith, should_have-nothing sale earned p r, -ℤ_zero_right due)

-- Once a sale is refunded whole, in one return or in many, exactly the points that it earned have
-- been taken back, whatever was rounded on the way, where its customer still has them.
pub full_refund_takes_all :
    (sale : Sale) (ts : List LoyaltyTransaction) (customer : ℕ) (earned : ℤ)
    → sale.customer ≡ some customer
    → pos 0 <ℤ sale.total
    → sale.total ≤ℤ refunded_of sale.returns
    → earned_on sale.number ts ≡ some earned
    → taken_back sale.number ts ≤ℤ earned
    → earned -ℤ taken_back sale.number ts ≤ℤ loyalty_points customer ts
    → taken_back sale.number (take_back_on_return sale ts) ≡ earned
full_refund_takes_all sale ts customer earned e p r f t b =
    let tb = taken_back sale.number ts in
    let some_due : pos 0 ≤ℤ earned -ℤ tb = omega (int_laws) in
    rw (take_back_on_return-due sale ts customer earned e p r f)
      (taken_back-take_back customer sale.number (earned -ℤ tb) ts some_due b ∙ +ℤ_sub earned tb)

nothing_yet : NoneOverdrawn []
unfolding loyalty_points
nothing_yet c = omega arith

-- Any number of operations, one after the other.
pub data LoyaltySteps : List LoyaltyTransaction → List LoyaltyTransaction → Type 0 where
  no_more : (ts : List LoyaltyTransaction) → LoyaltySteps ts ts
  and_then :
      (ts ts' ts'' : List LoyaltyTransaction)
      → LoyaltyStep ts ts'
      → LoyaltySteps ts' ts''
      → LoyaltySteps ts ts''

kept_up :
    (ts ts' : List LoyaltyTransaction) → NoneOverdrawn ts → LoyaltySteps ts ts' → NoneOverdrawn ts'
kept_up ts _ h (no_more _) = h
kept_up ts ts' h (and_then _ m _ s ss) = kept_up m ts' (points-NoneOverdrawn ts m h s) ss

-- Whatever is earned, spent and taken back, in any order, nobody ever has fewer points than none.
pub points_never_overdrawn : (ts : List LoyaltyTransaction) → LoyaltySteps [] ts → NoneOverdrawn ts
points_never_overdrawn ts s = kept_up [] ts nothing_yet s
