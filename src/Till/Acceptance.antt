-- ===== src/Till/Acceptance.antt =====
-- `check_sale` of apps/pos/validation.py: its loop over the lines, and the sale as a whole.
use retail_system.Prelude.{
  ℕ, ◌+◌, ◌-◌, ◌*◌, ◌%◌, Bool, true, false, not, ◌&&◌, ◌||◌, Option, none, some, List, [], ◌∷◌,
  ◌++◌, ltb, ◌==◌, if◌then◌else◌, is_some, ℤ, pos, pos_part, ltb_ℤ, length, Result, err, ok,
  raise_if, ◌>>=◌, ◌>>◌,
}
use retail_system.Catalogue.{Product, Catalogue}
use retail_system.Customers.Account.{Account, can_take_credit}
use retail_system.Money.{half_up}
use retail_system.Till.Amounts.{exact}
use retail_system.Till.State.{SalePayment, is_credit}
use retail_system.Till.Tender.{
  RawPayment, SaleRejected, max_money, tolerance, read_payments, paid_of, not_cash_of,
  check_payments,
}
use retail_system.Till.Validation.{
  RawLine, CheckedLine, Cashier, PhoneLine, Buyer, Review, customer_removed, list_prices_used,
  clock_ahead, went_over_credit, rounded_total, rounded_other, LineRejected, bad_qty, bad_price,
  line_too_large, bad_discount, keeps_its_price, discount_too_deep, whole_units_only, Rejected,
  no_lines, no_such_customer, credit_without_customer, credit_refused, too_old, of_line,
  of_payments, max_qty, read_within, need, find_product, is_too_deep, forbids_discount, needs_whole,
  line_reviews,
}

-- `decimal_or_none(…) or Decimal("0")`, at most the line.
unfoldable pub read_discount : ℕ → ℕ → Option ℤ → Option ℕ
read_discount f exact none = some 0
read_discount f exact (some d) =
    if ltb_ℤ d (pos 0) || ltb exact (1000 * (f * pos_part d)) then none else some (pos_part d)

-- `if line_discount > 0`
unfoldable pub check_rights : ℕ → Cashier → Option Product → ℕ → ℕ → Result LineRejected (Unit {0})
unfolding is_too_deep
check_rights f who p exact discount =
    if discount == 0
    then ok tt
    else raise_if (forbids_discount p) keeps_its_price
      >> raise_if (is_too_deep who.discount exact (f * discount)) discount_too_deep

-- One round of the loop: the line, the basket lines that have vouched, and what product it is.
unfoldable pub check_line :
    ℕ
    → Catalogue
    → Cashier
    → List PhoneLine
    → List ℕ
    → RawLine
    → Result LineRejected (CheckedLine × List ℕ × Option Product)
unfolding read_within read_discount find_product check_rights
check_line f c who phone used r = do
  qty ← need (read_within (pos 1) (pos (f * max_qty)) r.qty) bad_qty
  price ← need (read_within (pos 0) (pos (f * max_money)) r.unit_price) bad_price
  raise_if (ltb (1000 * max_money * (f * f)) (qty * price)) line_too_large
  discount ← need (read_discount f (qty * price) r.discount) bad_discount
  (product, used') ← find_product f c who phone used r qty price
  check_rights f who product (qty * price) discount
  raise_if (needs_whole product && not (qty % (1000 * f) == 0)) whole_units_only
  ok (
    record { variant = r.variant; qty = qty; unit_price = price; discount = discount },
    used',
    product,
  )

-- `money(gross - line_discount, currency)`
unfoldable pub line_charge : ℕ → CheckedLine → ℕ
unfolding half_up
line_charge f l = half_up (l.qty * l.unit_price - 1000 * (f * l.discount)) (1000 * (f * f))

unfoldable pub line_charges : ℕ → List CheckedLine → ℕ
unfolding line_charge
line_charges f [] = 0
line_charges f (l ∷ ls) = line_charge f l + line_charges f ls

unfoldable pub check_sale_lines :
    ℕ
    → Catalogue
    → Cashier
    → List PhoneLine
    → Option ℕ
    → Option ℕ
    → List ℕ
    → List RawLine
    → Result LineRejected (List CheckedLine × List Review)
unfolding check_line line_reviews
check_sale_lines f c who phone own usual used [] = ok ([], [])
check_sale_lines f c who phone own usual used (r ∷ rs) = do
  (l, used', product) ← check_line f c who phone used r
  (ls, notes) ← check_sale_lines f c who phone own usual used' rs
  ok (l ∷ ls, line_reviews f c who own usual product l ++ notes)

-- What is noted of the payments within the slack.
unfoldable pub sums_reviews : ℕ → List SalePayment → List Review
unfolding paid_of not_cash_of
sums_reviews total ps =
    (if ltb (paid_of ps + tolerance) total then rounded_total ∷ [] else [])
    ++ (if ltb (total + tolerance) (not_cash_of ps) then rounded_other ∷ [] else [])

unfoldable pub payment_reviews : ℕ → List RawPayment → List Review
unfolding sums_reviews read_payments
payment_reviews total rs = elim (read_payments rs) [ err e ↦ [] | ok ps ↦ sums_reviews total ps ]

unfoldable pub on_account : List SalePayment → ℕ
on_account [] = 0
on_account (p ∷ ps) =
    let rest = on_account ps in if is_credit p.method then p.amount + rest else rest

-- Credit is judged on the whole amount put on account.
unfoldable pub check_credit : Cashier → Option Buyer → ℕ → Account → Result Rejected (List Review)
unfolding can_take_credit
check_credit who buyer credit ts =
    if credit == 0
    then ok []
    else need buyer credit_without_customer >>= λ b.
        raise_if (not (who.grant_credit credit)) credit_refused
        >> ok (
            if can_take_credit b.credit_limit b.pk (pos credit) ts
            then []
            else went_over_credit ∷ [])

-- Five minutes and OLDEST_SALE, in seconds.
abbrev pub clock_slack : ℕ
clock_slack = 300

abbrev pub oldest_sale : ℕ
oldest_sale = 1_209_600

unfoldable pub check_time : ℕ → Option ℕ → Result Rejected (ℕ × List Review)
check_time now none = ok (now, [])
check_time now (some t) =
    if ltb (now + clock_slack) t
    then ok (now, clock_ahead ∷ [])
    else raise_if (ltb (t + oldest_sale) now) too_old >> ok (t, [])

unfoldable pub buyer_reviews : Cashier → Option ℕ → Buyer → List Review
buyer_reviews who own b =
    (if b.is_active then [] else customer_removed ∷ [])
    ++ (if is_some own && not who.price_override then list_prices_used ∷ [] else [])

-- The customer's list, where it is in use.
unfoldable pub own_list : Catalogue → Option Buyer → Option ℕ
own_list c none = none
own_list c (some b) = elim b.price_list [
  | none ↦ none
  | some l ↦ if c.is_active_list l then some l else none
]

-- What a device sends, in so many parts of a thousandth and of a cent; the payments are in cents. The
-- customer is its key, looked up among the customers of the shop.
pub record SaleEntry : Type 0 where
  pub parts : ℕ
  pub client_uuid : ℕ
  pub customer : Option ℕ
  pub lines : List RawLine
  pub payments : List RawPayment
  pub sold_at : Option ℕ

pub record CheckedSale : Type 0 where
  pub client_uuid : ℕ
  pub lines : List CheckedLine
  pub payments : List SalePayment
  pub customer : Option Buyer
  pub sold_at : ℕ
  pub review : List Review
  pub total : ℕ

-- The shop as `check_sale` reads it.
pub record ShopTables : Type 0 where
  pub catalogue : Catalogue
  pub usual_list : Option ℕ
  pub buyers : ℕ → Option Buyer
  pub phone_lines : List PhoneLine
  pub now : ℕ

unfoldable pub find_buyer : ShopTables → Option ℕ → Result Rejected (Option Buyer)
find_buyer s none = ok none
find_buyer s (some k) = need (s.buyers k) no_such_customer >>= λ b. ok (some b)

abbrev pub lift_line {ℓ} : {A : Type ℓ} → Result LineRejected A → Result Rejected A
lift_line (ok a) = ok a
lift_line (err e) = err (of_line e)

abbrev pub lift_payments {ℓ} : {A : Type ℓ} → Result SaleRejected A → Result Rejected A
lift_payments (ok a) = ok a
lift_payments (err e) = err (of_payments e)

abbrev pub has_no_lines : List RawLine → Bool
has_no_lines [] = true
has_no_lines (r ∷ rs) = false

unfoldable pub notes_on_buyer : Cashier → Option ℕ → Option Buyer → List Review
unfolding buyer_reviews
notes_on_buyer who own none = []
notes_on_buyer who own (some b) = buyer_reviews who own b

unfoldable pub check_sale : Cashier → ShopTables → Account → SaleEntry → Result Rejected CheckedSale
unfolding find_buyer own_list check_sale_lines check_payments payment_reviews on_account
    check_credit check_time notes_on_buyer line_charges
check_sale who s ts entry = do
  raise_if (has_no_lines entry.lines) no_lines
  buyer ← find_buyer s entry.customer
  let own = own_list s.catalogue buyer
  (lines, notes) ←
      lift_line
        (check_sale_lines entry.parts s.catalogue who s.phone_lines own s.usual_list [] entry.lines)
  let total = line_charges entry.parts lines
  payments ← lift_payments (check_payments (length lines) total entry.payments)
  credit ← check_credit who buyer (on_account payments) ts
  (sold_at, clock) ← check_time s.now entry.sold_at
  ok (record {
    client_uuid = entry.client_uuid;
    lines = lines;
    payments = payments;
    customer = buyer;
    sold_at = sold_at;
    review =
        notes_on_buyer who own buyer
        ++ notes
        ++ payment_reviews total entry.payments
        ++ credit
        ++ clock;
    total = total;
  })
