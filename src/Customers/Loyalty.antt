-- ===== src/Customers/Loyalty.antt =====
-- Points: apps/customers/services.py and `LoyaltyTransaction` of apps/customers/models.py.
use retail_system.Prelude.{
  ℕ, suc, ◌/◌, Bool, true, false, not, ◌&&◌, ◌||◌, Option, none, some, List, [], ◌∷◌, ◌==◌,
  if◌then◌else◌, ℤ, pos, negsuc, ◌+ℤ◌, ◌-ℤ◌, ◌*ℤ◌, neg, ltb_ℤ, leb_ℤ, eqb_ℤ, min_ℤ, max_ℤ, Result,
  ok, raise_if, ◌>>◌,
}
use retail_system.Customers.Account.{is_some_of}
use retail_system.Till.State.{Return, Sale}

-- The kinds EARN, REDEEM, EXPIRE and ADJUST.
pub data LoyaltyKind : Type 0 where
  earn redeemed expired adjusted : LoyaltyKind

pub record LoyaltyTransaction : Type 0 where
  pub customer : ℕ
  pub kind : LoyaltyKind
  pub points : ℤ
  pub sale : Option ℕ

pub data LoyaltyError : Type 0 where
  nothing_to_redeem too_many_points : LoyaltyError

-- `Customer.loyalty_points`
unfoldable pub loyalty_points : ℕ → List LoyaltyTransaction → ℤ
loyalty_points c [] = pos 0
loyalty_points c (t ∷ ts) =
    let rest = loyalty_points c ts in if c == t.customer then t.points +ℤ rest else rest

-- `//` and `int` of a quotient both cut towards zero.
unfoldable pub cut : ℤ → ℤ → ℤ
cut (pos a) (pos b) = pos (a / b)
cut (pos a) (negsuc b) = neg (pos (a / suc b))
cut (negsuc a) (pos b) = neg (pos (suc a / b))
cut (negsuc a) (negsuc b) = pos (suc a / suc b)

-- One point for 1,000, in cents.
unfoldable pub points_for : ℤ → ℤ
unfolding cut
points_for amount = cut amount (pos 100_000)

unfoldable pub earned_by : ℕ → Sale → LoyaltyTransaction
unfolding points_for
earned_by customer sale = record {
  customer = customer;
  kind = LoyaltyKind.earn;
  points = points_for sale.total;
  sale = some sale.number;
}

unfoldable pub award : Bool → Sale → List LoyaltyTransaction → List LoyaltyTransaction
unfolding points_for earned_by
award has_loyalty sale ts = elim sale.customer [
  | none ↦ ts
  | some customer ↦
      if not has_loyalty || leb_ℤ (points_for sale.total) (pos 0)
      then ts
      else earned_by customer sale ∷ ts
]

unfoldable pub redeem :
    ℕ → ℤ → Option ℕ → List LoyaltyTransaction → Result LoyaltyError (List LoyaltyTransaction)
unfolding loyalty_points
redeem customer points sale ts = do
  raise_if (leb_ℤ points (pos 0)) nothing_to_redeem
  raise_if (ltb_ℤ (loyalty_points customer ts) points) too_many_points
  ok (
      record { customer = customer; kind = LoyaltyKind.redeemed; points = neg points; sale = sale }
      ∷ ts)

abbrev pub is_earn : LoyaltyKind → Bool
is_earn LoyaltyKind.earn = true
is_earn _ = false

abbrev pub is_adjust : LoyaltyKind → Bool
is_adjust LoyaltyKind.adjusted = true
is_adjust _ = false

-- `filter(sale=sale, kind=EARN).first()`
unfoldable pub earned_on : ℕ → List LoyaltyTransaction → Option ℤ
earned_on number [] = none
earned_on number (t ∷ ts) =
    let rest = earned_on number ts in
    if is_some_of t.sale number && is_earn t.kind then some t.points else rest

-- `-sum(points)` of the adjustments of the sale.
unfoldable pub taken_back : ℕ → List LoyaltyTransaction → ℤ
taken_back number [] = pos 0
taken_back number (t ∷ ts) =
    let rest = taken_back number ts in
    if is_some_of t.sale number && is_adjust t.kind then rest -ℤ t.points else rest

-- Never below zero: points already spent cannot be taken back.
unfoldable pub take_back : ℕ → ℕ → ℤ → List LoyaltyTransaction → List LoyaltyTransaction
unfolding loyalty_points min_ℤ max_ℤ
take_back customer number points ts =
    let taken = min_ℤ points (max_ℤ (loyalty_points customer ts) (pos 0)) in
    if leb_ℤ taken (pos 0)
    then ts
    else record {
      customer = customer;
      kind = LoyaltyKind.adjusted;
      points = neg taken;
      sale = some number;
    }
      ∷ ts

unfoldable pub take_back_on_void : Sale → List LoyaltyTransaction → List LoyaltyTransaction
unfolding earned_on take_back
take_back_on_void sale ts = elim sale.customer [
  | none ↦ ts
  | some customer ↦ elim (earned_on sale.number ts) [
    | none ↦ ts
    | some earned ↦ take_back customer sale.number earned ts
  ]
]

unfoldable pub refunded_of : List Return → ℤ
refunded_of [] = pos 0
refunded_of (r ∷ rs) = r.total +ℤ refunded_of rs

-- What the sale should have earned, by what is kept of it.
unfoldable pub should_have : Sale → ℤ → ℤ
unfolding cut refunded_of max_ℤ
should_have sale earned =
    cut (earned *ℤ max_ℤ (sale.total -ℤ refunded_of sale.returns) (pos 0)) sale.total

unfoldable pub take_back_on_return : Sale → List LoyaltyTransaction → List LoyaltyTransaction
unfolding earned_on taken_back should_have take_back
take_back_on_return sale ts = elim sale.customer [
  | none ↦ ts
  | some customer ↦ if eqb_ℤ sale.total (pos 0) then ts else elim (earned_on sale.number ts) [
    | none ↦ ts
    | some earned ↦
        take_back customer sale.number
          (earned -ℤ taken_back sale.number ts -ℤ should_have sale earned) ts
  ]
]
