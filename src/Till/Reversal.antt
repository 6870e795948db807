-- ===== src/Till/Reversal.antt =====
-- What a void takes off an account.
use retail_system.Prelude.{
  ℕ, ◌≡◌, refl, inl, inr, false, none, some, List, [], ◌∷◌, arith, ◌==◌, if◌then◌else◌,
  Option-cases, ℤ, pos, ◌-ℤ◌, min_ℤ, max_ℤ, -ℤ_zero_right, +ℤ_neg, +ℤ_cancel, All,
}
use retail_system.Customers.Account.{Account, balance, balance-cons}
use retail_system.Till.Checkout.{Checkout, credit_paid, credit_entry, handle_credit, new_sale}
use retail_system.Till.State.{SaleLine, Sale, Till}
use retail_system.Till.Void.{
  is_of_sale, charge_of, reversed_of, reversal, reversal_entry, post_reversal, reverse_credit,
}

-- No entry of the account belongs to a sale of that number.
abbrev pub IsFresh : ℕ → Account → Type 0
IsFresh n = All λ t. is_of_sale n t ≡ false

charge_of-fresh : (n : ℕ) (ts : Account) → IsFresh n ts → charge_of n ts ≡ none
unfolding charge_of
charge_of-fresh n [] f = refl
charge_of-fresh n (t ∷ ts) f = ground (arith, charge_of-fresh n ts f.1)

reversed_of-fresh : (n : ℕ) (ts : Account) → IsFresh n ts → reversed_of n ts ≡ pos 0
unfolding reversed_of
reversed_of-fresh n [] f = refl
reversed_of-fresh n (t ∷ ts) f = ground (arith, reversed_of-fresh n ts f.1)

balance-post_reversal :
    (customer k number : ℕ) (value : ℤ) (ts : Account)
    → balance customer (post_reversal k value number ts)
      ≡ (if customer == k then balance customer ts -ℤ max_ℤ (pos 0) value else balance customer ts)
unfolding post_reversal max_ℤ
balance-post_reversal customer k number value ts = ground (
  arith,
  balance-cons customer (reversal_entry k value number ts) ts,
  +ℤ_neg (balance customer ts) value,
  -ℤ_zero_right (balance customer ts),
)

reversal_full : (a : ℕ) → reversal none (pos a) (pos 0) ≡ pos a
unfolding reversal min_ℤ
reversal_full a = ground (arith, -ℤ_zero_right (pos a))

reverse_credit-none :
    (sale : Sale) (ts : Account) → sale.customer ≡ none → reverse_credit sale none ts ≡ ts
unfolding reverse_credit
reverse_credit-none sale ts e = ground arith

pub reverse_nothing :
    (sale : Sale) (ts : Account) → IsFresh sale.number ts → reverse_credit sale none ts ≡ ts
unfolding reverse_credit
reverse_nothing sale ts f = ground (arith, charge_of-fresh sale.number ts f)

reverse_charge :
    (sale : Sale) (k credit customer : ℕ) (ts : Account)
    → sale.customer ≡ some k
    → IsFresh sale.number ts
    → balance customer (reverse_credit sale none (credit_entry k credit ts sale.number ∷ ts))
      ≡ balance customer ts
unfolding reverse_credit charge_of reversed_of credit_entry max_ℤ
reverse_charge sale k credit customer ts e f =
    let entry = credit_entry k credit ts sale.number in
    ground (
      arith,
      charge_of-fresh sale.number ts f,
      reversed_of-fresh sale.number ts f,
      reversal_full credit,
      balance-post_reversal customer k sale.number (pos credit) (entry ∷ ts),
      balance-cons customer entry ts,
      +ℤ_cancel (balance customer ts) (pos credit),
    )

-- The account after the sale and its void is the account before the sale.
pub credit_undone :
    (c : Checkout) (lines : List SaleLine) (t : Till) (customer : ℕ)
    → IsFresh c.number t.account
    → let sale = new_sale c lines in
      balance customer (reverse_credit sale none (handle_credit sale t).account)
      ≡ balance customer t.account
unfolding handle_credit new_sale
credit_undone c lines t customer f = elim (Option-cases c.customer) [
  | inl e ↦ ground (arith, reverse_credit-none (new_sale c lines) t.account e)
  | inr (k, e) ↦ ground (
    arith,
    reverse_charge (new_sale c lines) k (credit_paid c.payments) customer t.account e f,
    reverse_nothing (new_sale c lines) t.account f,
  )
]
