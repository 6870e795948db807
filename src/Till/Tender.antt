-- ===== src/Till/Tender.antt =====
-- What the server takes as the payments of a sale: the part of `check_sale` in
-- apps/pos/validation.py that reads them. Amounts come in whole cents, and a sum that is not a number
-- or a method that is not known has been refused when it was read.
use retail_system.Prelude.{
  ℕ, ◌+◌, ◌-◌, ◌*◌, Bool, not, ◌&&◌, ◌||◌, List, [], ◌∷◌, ltb, ◌==◌, if◌then◌else◌, ℤ, pos,
  pos_part, ltb_ℤ, Result, ok, raise_if, ◌>>=◌, ◌>>◌,
}
use retail_system.Till.Amounts.{total}
use retail_system.Till.State.{PaymentMethod, SalePayment, is_cash}

pub record RawPayment : Type 0 where
  pub method : PaymentMethod
  pub amount : ℤ
  pub change_given : ℤ

pub data SaleRejected : Type 0 where
  bad_payment underpaid overpaid : SaleRejected

-- MAX_MONEY
abbrev pub max_money : ℕ
max_money = 999_999_999_900

-- TOLERANCE, one cent
abbrev pub tolerance : ℕ
tolerance = 1

abbrev pub is_impossible : ℤ → Bool
is_impossible a = ltb_ℤ a (pos 0) || ltb_ℤ (pos max_money) a

-- A free item needs no payment line.
unfoldable pub read_payments : List RawPayment → Result SaleRejected (List SalePayment)
read_payments [] = ok []
read_payments (r ∷ rs) = do
  raise_if (is_impossible r.amount || is_impossible r.change_given) bad_payment
  ps ← read_payments rs
  ok (
      if pos_part r.amount == 0
      then ps
      else record {
        method = r.method;
        amount = pos_part r.amount;
        change_given = pos_part r.change_given;
      }
        ∷ ps)

unfoldable pub paid_of : List SalePayment → ℕ
paid_of [] = 0
paid_of (p ∷ ps) = p.amount + paid_of ps

unfoldable pub not_cash_of : List SalePayment → ℕ
not_cash_of [] = 0
not_cash_of (p ∷ ps) =
    let rest = not_cash_of ps in if is_cash p.method then rest else p.amount + rest

-- Half a unit a line, in cents, for a till that still rounds every line.
unfoldable pub slack : ℕ → ℕ
slack lines = if lines == 0 then 50 else 50 * lines

-- Cash beyond the total is change.
unfoldable pub move_change : ℕ → List SalePayment → List SalePayment
move_change excess [] = []
move_change excess (p ∷ ps) =
    let moved = if ltb excess p.amount then excess else p.amount in
    let by_cash = move_change (excess - moved) ps in
    let by_other = move_change excess ps in
    if is_cash p.method && not (excess == 0)
    then record p { amount = p.amount - moved; change_given = p.change_given + moved } ∷ by_cash
    else p ∷ by_other

unfoldable pub drop_empty : List SalePayment → List SalePayment
drop_empty [] = []
drop_empty (p ∷ ps) = let rest = drop_empty ps in if p.amount == 0 then rest else p ∷ rest

unfoldable pub give_change : ℕ → List SalePayment → List SalePayment
unfolding move_change drop_empty paid_of
give_change total ps =
    if ltb (total + tolerance) (paid_of ps)
    then drop_empty (move_change (paid_of ps - total) ps)
    else ps

-- The payments of a sale of so many lines that comes to the total.
unfoldable pub check_payments : ℕ → ℕ → List RawPayment → Result SaleRejected (List SalePayment)
unfolding read_payments paid_of not_cash_of slack give_change
check_payments lines total rs = do
  ps ← read_payments rs
  raise_if (ltb (paid_of ps + tolerance) total && ltb (paid_of ps + slack lines) total) underpaid
  raise_if (ltb (total + tolerance) (not_cash_of ps) && ltb (total + slack lines) (not_cash_of ps))
      overpaid
  ok (give_change total ps)
