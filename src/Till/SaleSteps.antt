-- ===== src/Till/SaleSteps.antt =====
-- The steps through which `check_sale` of apps/pos/validation.py accepts a sale.
use mathlib.Core.Path.{subst}
use retail_system.Prelude.{
  ◌≡◌, refl, false, List, [], ◌++◌, arith, length, Result, err, ok, raise_if, >>=-eq-ok,
  ok-injective,
}
use retail_system.Customers.Account.{Account}
use retail_system.Till.Acceptance.{
  line_charges, check_sale_lines, payment_reviews, on_account, check_credit, check_time, own_list,
  SaleEntry, CheckedSale, ShopTables, find_buyer, lift_line, lift_payments, has_no_lines,
  notes_on_buyer, check_sale,
}
use retail_system.Till.Tender.{SaleRejected, check_payments}
use retail_system.Till.Validation.{Cashier, Review, LineRejected, no_lines}

lift_line-ok {ℓ} : {A : Type ℓ} (r : Result LineRejected A) {a : A} → lift_line r ≡ ok a → r ≡ ok a
lift_line-ok (ok b) h = cc
lift_line-ok (err e) h = cc

lift_payments-ok {ℓ} :
    {A : Type ℓ} (r : Result SaleRejected A) {a : A} → lift_payments r ≡ ok a → r ≡ ok a
lift_payments-ok (ok b) h = cc
lift_payments-ok (err e) h = cc

-- The steps through which a sale was accepted.
abbrev pub Steps : Cashier → ShopTables → Account → SaleEntry → CheckedSale → Type 0
Steps who s ts entry k =
    (notes : List Review) × (credit : List Review) × (clock : List Review) × (check_sale_lines
        entry.parts s.catalogue who s.phone_lines (own_list s.catalogue k.customer) s.usual_list []
        entry.lines
      ≡ ok (k.lines, notes))
    × (has_no_lines entry.lines ≡ false)
    × (k.total ≡ line_charges entry.parts k.lines)
    × (check_payments (length k.lines) k.total entry.payments ≡ ok k.payments)
    × (check_credit who k.customer (on_account k.payments) ts ≡ ok credit)
    × (check_time s.now entry.sold_at ≡ ok (k.sold_at, clock))
    × (notes_on_buyer who (own_list s.catalogue k.customer) k.customer
          ++ notes
          ++ payment_reviews k.total entry.payments
          ++ credit
          ++ clock
        ≡ k.review)
    × (k.client_uuid ≡ entry.client_uuid)

pub check_sale-Steps :
    (who : Cashier) (s : ShopTables) (ts : Account) (entry : SaleEntry) (k : CheckedSale)
    → check_sale who s ts entry ≡ ok k
    → Steps who s ts entry k
unfolding check_sale
check_sale-Steps who s ts entry k h =
    let (u, e₁, h₁) = >>=-eq-ok (raise_if (has_no_lines entry.lines) no_lines) _ h in
    let (buyer, e₂, h₂) = >>=-eq-ok (find_buyer s entry.customer) _ h₁ in
    let own = own_list s.catalogue buyer in
    let (x, e₃, h₃) =
      >>=-eq-ok
        (lift_line (
          check_sale_lines entry.parts s.catalogue who s.phone_lines own s.usual_list []
            entry.lines))
        _ h₂ in
    let total = line_charges entry.parts x.0 in
    let (payments, e₄, h₄) =
      >>=-eq-ok (lift_payments (check_payments (length x.0) total entry.payments)) _ h₃ in
    let (credit, e₅, h₅) = >>=-eq-ok (check_credit who buyer (on_account payments) ts) _ h₄ in
    let (y, e₆, h₆) = >>=-eq-ok (check_time s.now entry.sold_at) _ h₅ in
    let made : CheckedSale = record {
      client_uuid = entry.client_uuid;
      lines = x.0;
      payments = payments;
      customer = buyer;
      sold_at = y.0;
      review =
          notes_on_buyer who own buyer
          ++ x.1
          ++ payment_reviews total entry.payments
          ++ credit
          ++ y.1;
      total = total;
    } in
    let same : made ≡ k = ok-injective h₆ in
    subst (Steps who s ts entry) same (
      x.1,
      credit,
      y.1,
      lift_line-ok _ e₃,
      ground arith,
      refl,
      lift_payments-ok _ e₄,
      e₅,
      e₆,
      refl,
      refl,
    )

pub check_sale-uuid :
    (who : Cashier) (s : ShopTables) (ts : Account) (entry : SaleEntry) (k : CheckedSale)
    → check_sale who s ts entry ≡ ok k
    → k.client_uuid ≡ entry.client_uuid
check_sale-uuid who s ts entry k h =
    let (notes, credit, clock, e₁, e₂, e₃, e₄, e₅, e₆, e₇, e₈) =
      check_sale-Steps who s ts entry k h in
    e₈
