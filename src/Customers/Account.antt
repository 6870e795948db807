-- ===== src/Customers/Account.antt =====
-- The account of a customer, a ledger of signed entries in cents: `Customer` and
-- `CreditTransaction` of apps/customers/models.py.
use retail_system.Prelude.{
  ℕ, ◌≡◌, ◌↔◌, Bool, true, false, Option, none, some, List, [], ◌∷◌, arith, ◌==◌, if◌then◌else◌, ℤ,
  pos, ◌+ℤ◌, ◌-ℤ◌, ◌≤ℤ◌, ◌<ℤ◌, leb_ℤ, +ℤ_parts, -ℤ_parts, +ℤ_comm,
}

pub data CreditKind : Type 0 where
  charge payment adjustment refund : CreditKind

-- `undoes` says that the reference starts with "undo:"; `doc_amount` is the entry in the currency
-- of its invoice, where that is another one.
pub record CreditTransaction : Type 0 where
  pub customer : ℕ
  pub kind : CreditKind
  pub amount : ℤ
  pub doc_amount : Option ℤ
  pub balance_after : ℤ
  pub sale : Option ℕ
  pub invoice : Option ℕ
  pub undoes : Bool

abbrev pub Account : Type 0
Account = List CreditTransaction

-- `Customer.balance`
unfoldable pub balance : ℕ → Account → ℤ
balance c [] = pos 0
balance c (t ∷ ts) = let rest = balance c ts in if c == t.customer then t.amount +ℤ rest else rest

-- `Customer.can_take_credit`
unfoldable pub can_take_credit : ℤ → ℕ → ℤ → Account → Bool
unfolding balance
can_take_credit limit c amount ts =
    if leb_ℤ limit (pos 0) then false else leb_ℤ (balance c ts +ℤ amount) limit

-- `Customer.credit_available`
unfoldable pub credit_available : ℤ → ℕ → Account → ℤ
unfolding balance
credit_available limit c ts = limit -ℤ balance c ts

abbrev pub is_charge : CreditKind → Bool
is_charge CreditKind.charge = true
is_charge _ = false

abbrev pub is_refund : CreditKind → Bool
is_refund CreditKind.refund = true
is_refund _ = false

abbrev pub is_some_of : Option ℕ → ℕ → Bool
is_some_of none n = false
is_some_of (some m) n = m == n

-- Every entry carries the balance that it left behind: the newest entry stands first.
abbrev pub IsStamped : Account → Type 0
IsStamped [] = Unit
IsStamped (t ∷ ts) = (t.balance_after ≡ balance t.customer ts +ℤ t.amount) × IsStamped ts

pub balance-cons :
    (c : ℕ) (t : CreditTransaction) (ts : Account)
    → balance c (t ∷ ts) ≡ (if c == t.customer then balance c ts +ℤ t.amount else balance c ts)
unfolding balance
balance-cons c t ts = ground (arith, +ℤ_comm t.amount (balance c ts))

-- Credit is allowed exactly within a limit above zero: never more than is available.
pub can_take_credit_iff :
    (limit : ℤ) (c : ℕ) (amount : ℤ) (ts : Account)
    → (can_take_credit limit c amount ts ≡ true)
      ↔ ((pos 0 <ℤ limit) × (amount ≤ℤ credit_available limit c ts))
unfolding can_take_credit credit_available
can_take_credit_iff limit c amount ts =
    ground (arith, -ℤ_parts limit (balance c ts), +ℤ_parts (balance c ts) amount)
