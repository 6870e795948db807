-- ===== src/Customers/Tests.antt =====
-- Points at a concrete sale.
use retail_system.Prelude.{
  ◌≡◌, refl, true, none, some, List, [], ◌∷◌, arith, pos, ◌+ℤ◌, ◌-ℤ◌, ◌*ℤ◌, neg, ◌≤ℤ◌,
}
use retail_system.Customers.Loyalty.{
  LoyaltyTransaction, loyalty_points, award, earned_on, taken_back, refunded_of,
  take_back_on_return,
}
use retail_system.Customers.LoyaltyLaws.{
  NoneOverdrawn, awarded, returned_sale_of, full_refund_takes_all, LoyaltySteps, no_more, and_then,
  points_never_overdrawn,
}
use retail_system.Till.State.{PaymentMethod, SaleStatus, Sale}

-- 25,000 sold to customer 7, and 24,999.50 and then the rest given back.
abbrev big_sale : Sale
big_sale = record {
  number = 3;
  client_uuid = none;
  branch = 1;
  shift = none;
  customer = some 7;
  invoice = none;
  subtotal = 2_500_000;
  discount_total = 0;
  tax_total = pos 0;
  total = pos 2_500_000;
  status = SaleStatus.refunded;
  lines = [];
  payments = [];
  returns =
      record {
        method = PaymentMethod.cash;
        shift = none;
        restock = true;
        lines = [];
        total = pos 2_500_000;
        cash_amount = pos 2_500_000;
        credit_amount = pos 0;
        other_amount = pos 0;
      }
      ∷ [];
}

abbrev after_award : List LoyaltyTransaction
after_award = award true big_sale []

award_run :
    (loyalty_points 7 after_award ≡ pos 25)
    × (loyalty_points 7 (take_back_on_return big_sale after_award) ≡ pos 0)
unfolding award loyalty_points take_back_on_return ◌+ℤ◌ ◌-ℤ◌ ◌*ℤ◌ neg
award_run = (refl, refl)

steps : LoyaltySteps [] (take_back_on_return big_sale after_award)
steps = and_then [] after_award (take_back_on_return big_sale after_award) (awarded true big_sale) (
    and_then after_award (take_back_on_return big_sale after_award)
      (take_back_on_return big_sale after_award) (returned_sale_of big_sale)
      (no_more (take_back_on_return big_sale after_award)))

points_never_overdrawn_example : NoneOverdrawn (take_back_on_return big_sale after_award)
points_never_overdrawn_example =
    points_never_overdrawn (take_back_on_return big_sale after_award) steps

earned_run : earned_on 3 after_award ≡ some (pos 25)
unfolding award earned_on
earned_run = refl

refunded_run : pos 2_500_000 ≤ℤ refunded_of big_sale.returns
unfolding refunded_of ◌+ℤ◌
refunded_run = omega arith

taken_run : taken_back 3 after_award ≤ℤ pos 25
unfolding award taken_back
taken_run = omega arith

left_run : pos 25 -ℤ taken_back 3 after_award ≤ℤ loyalty_points 7 after_award
unfolding award taken_back loyalty_points ◌+ℤ◌ ◌-ℤ◌
left_run = omega arith

full_refund_takes_all_example : taken_back 3 (take_back_on_return big_sale after_award) ≡ pos 25
full_refund_takes_all_example =
    full_refund_takes_all big_sale after_award 7 (pos 25) refl (omega arith) refunded_run earned_run
      taken_run left_run
