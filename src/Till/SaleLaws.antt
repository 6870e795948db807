-- ===== src/Till/SaleLaws.antt =====
-- An accepted sale as a whole: about `check_sale` of apps/pos/validation.py.
use retail_system.Prelude.{
  ℕ, ◌+◌, ◌≤◌, ◌≡◌, refl, ◌≢◌, ◌⊎◌, inl, inr, true, Option, none, some, List, [], arith, ◌==◌,
  Bool-cases, pos, length, All, ok,
}
use retail_system.Customers.Account.{Account, can_take_credit}
use retail_system.Inventory.Ledger.{change}
use retail_system.Inventory.Services.{accepted}
use retail_system.Till.Acceptance.{
  line_charges, on_account, check_credit, clock_slack, oldest_sale, check_time, own_list, SaleEntry,
  CheckedSale, ShopTables, check_sale,
}
use retail_system.Till.AcceptanceLaws.{IsAccepted}
use retail_system.Till.ReviewLaws.{check_sale_lines-facts}
use retail_system.Till.SaleSteps.{check_sale-Steps}
use retail_system.Till.Tender.{paid_of, slack}
use retail_system.Till.TenderLaws.{check_payments_effect}
use retail_system.Till.Validation.{Cashier, Buyer, Review}

-- What is put on account has a customer, and the cashier may give that much.
abbrev pub IsGranted : Cashier → Option Buyer → ℕ → Type 0
IsGranted who buyer credit =
    (credit ≡ 0) ⊎ ((b : Buyer) × (buyer ≡ some b) × (who.grant_credit credit ≡ true))

-- It stays within the customer's own limit.
abbrev pub IsWithinCredit : Option Buyer → ℕ → Account → Type 0
IsWithinCredit buyer credit ts =
    (credit ≡ 0)
    ⊎ ((b : Buyer) × (buyer ≡ some b)
        × (can_take_credit b.credit_limit b.pk (pos credit) ts ≡ true))

check_credit-facts :
    (who : Cashier) (buyer : Option Buyer) (credit : ℕ) (ts : Account) (notes : List Review)
    → check_credit who buyer credit ts ≡ ok notes
    → IsGranted who buyer credit × (notes ≡ [] → IsWithinCredit buyer credit ts)
unfolding check_credit
check_credit-facts who none credit ts notes h = (inl (ground arith), λ e. inl (ground arith))
check_credit-facts who (some b) credit ts notes h = elim (Bool-cases (credit == 0)) [
  | inl z ↦ (inl (ground arith), λ e. inl (ground arith))
  | inr z ↦ (inr (b, refl, ground arith), λ e. inr (b, refl, ground arith))
]

-- Neither older than two weeks nor later than the clock allows.
abbrev pub IsTimely : ℕ → ℕ → Type 0
IsTimely now sold_at = (sold_at ≤ now + clock_slack) × (now ≤ sold_at + oldest_sale)

check_time-IsTimely :
    (now : ℕ) (sent : Option ℕ) (sold_at : ℕ) (notes : List Review)
    → check_time now sent ≡ ok (sold_at, notes)
    → IsTimely now sold_at
unfolding check_time
check_time-IsTimely now none sold_at notes h = ground arith
check_time-IsTimely now (some t) sold_at notes h = ground arith

-- A sale that the server accepts has lines, each with a quantity above nothing, a discount of no
-- more than the line that the cashier and the product allow, and whole units where the product wants
-- them. The shop keeps its total in payments, but for half a unit a line. What is on account has a
-- customer and a cashier who may give that much, and the time of the sale is plausible.
pub check_sale_lem :
    (who : Cashier) (s : ShopTables) (ts : Account) (entry : SaleEntry) (k : CheckedSale)
    → check_sale who s ts entry ≡ ok k
    → (k.lines ≢ [])
      × All (IsAccepted entry.parts s.catalogue who) k.lines
      × (k.total ≡ line_charges entry.parts k.lines)
      × (k.total ≤ paid_of k.payments + slack (length k.lines))
      × (paid_of k.payments ≤ k.total + slack (length k.lines))
      × IsGranted who k.customer (on_account k.payments)
      × IsTimely s.now k.sold_at
check_sale_lem who s ts entry k h =
    let (notes, credit, clock, e₁, e₂, e₃, e₄, e₅, e₆, e₇, e₈) =
      check_sale-Steps who s ts entry k h in
    let (accepted, some_, flags) =
      check_sale_lines-facts entry.parts s who (own_list s.catalogue k.customer) [] entry.lines
        k.lines notes e₁ in
    let (ps, read, low, high, others, change) =
      check_payments_effect (length k.lines) k.total entry.payments k.payments e₄ in
    (
      some_ e₂,
      accepted,
      e₃,
      low,
      high,
      (check_credit-facts who k.customer (on_account k.payments) ts credit e₅).0,
      check_time-IsTimely s.now entry.sold_at k.sold_at clock e₆,
    )
