-- ===== src/Tenancy/Ledger.antt =====
-- A shop's bills over any sequence of bills raised, payments, reversals, voids and nights.
use retail_system.Prelude.{
  ℕ, ◌≡◌, refl, ◌⊎◌, inl, inr, Option, none, some, arith, ◌==◌, Bool-cases, Option-cases, ℤ, pos,
  Result, err, ok,
}
use retail_system.Inventory.Services.{run}
use retail_system.Tenancy.Balance.{IsBalanced, raise_invoice-IsBalanced}
use retail_system.Tenancy.Billing.{
  Calendar, period_price, period_after, next_period_start, raise_invoice,
}
use retail_system.Tenancy.Payments.{record_payment, reverse_payment, void_bill}
use retail_system.Tenancy.Renewal.{
  is_upcoming, try_invoice, renew_free, renew_paid, renew_due, advance,
}
use retail_system.Tenancy.Reversals.{reverse_payment-IsBalanced, void_bill-IsBalanced}
use retail_system.Tenancy.State.{Subscription, Shop, find_bill, with_subscription}
use retail_system.Tenancy.Steps.{record_payment-IsBalanced}

pub Result-cases {ℓ κ} :
    {E : Type ℓ} {A : Type κ} (r : Result E A) → ((e : E) × (r ≡ err e)) ⊎ ((a : A) × (r ≡ ok a))
Result-cases (err e) = inl (e, refl)
Result-cases (ok a) = inr (a, refl)

try_invoice-IsBalanced :
    (pk start end price : ℕ) (s : Shop)
    → IsBalanced s
    → find_bill pk s.invoices ≡ none
    → IsBalanced (try_invoice pk start end price s)
unfolding try_invoice
try_invoice-IsBalanced pk start end price s b f =
    elim (Result-cases (raise_invoice pk start end (some (pos price)) (some start) s)) [
      | inl (e, h) ↦ rw h b
      | inr (s', h) ↦
          rw h (raise_invoice-IsBalanced pk start end (some (pos price)) (some start) s s' b f h)
    ]

-- The bills and payments of one shop are those of another.
abbrev pub SameBills : Shop → Shop → Type 0
SameBills s s' = (s'.invoices ≡ s.invoices) × (s'.payments ≡ s.payments)

IsBalanced-SameBills : (s s' : Shop) → SameBills s s' → IsBalanced s → IsBalanced s'
IsBalanced-SameBills s s' e b = rw (e.0, e.1) b

renew_free_rows :
    (now : ℕ) (p : ℕ × ℕ) (u : Subscription) (s : Shop) → SameBills s (renew_free now p u s)
unfolding renew_free with_subscription
renew_free_rows now p u s = ground arith

renew_paid_rows :
    (pk now : ℕ) (p : ℕ × ℕ) (price : ℕ) (u : Subscription) (s : Shop)
    → SameBills s (renew_paid pk now p price u s)
      ⊎ SameBills (try_invoice pk p.0 p.1 price s) (renew_paid pk now p price u s)
unfolding renew_paid with_subscription
renew_paid_rows pk now p price u s = ground arith

-- The rows after a night are the shop's, with at most one bill more.
pub renew_due_rows :
    (c : Calendar) (pk now : ℕ) (s : Shop)
    → SameBills s (renew_due c pk now s)
      ⊎ ((p : ℕ × ℕ) × (price : ℕ) × SameBills
            (try_invoice pk p.0 p.1 price s)
            (renew_due c pk now s))
unfolding renew_due
renew_due_rows c pk now s = elim (Option-cases s.subscription) [
  | inl e ↦ inl (rw e (refl, refl))
  | inr (u, e) ↦
      let p = period_after c u (next_period_start now s u) in
      let price = period_price s u in
      elim (Bool-cases (is_upcoming now u)) [
        | inl f ↦ elim (Bool-cases (price == 0)) [
          | inl g ↦ inl (ground (arith, e, f, g, renew_free_rows now p u s))
          | inr g ↦ elim (renew_paid_rows pk now p price u s) [
            | inl r ↦ inl (ground (arith, e, f, g, r))
            | inr r ↦ inr (p, price, ground (arith, e, f, g, r))
          ]
        ]
        | inr f ↦ inl (ground (arith, e, f))
      ]
]

pub advance_rows :
    (c : Calendar) (grace_days clock pk now : ℕ) (s : Shop)
    → SameBills (renew_due c pk now s) (advance c grace_days clock pk now s)
unfolding advance with_subscription
advance_rows c grace_days clock pk now s = ground arith

-- Every change that the platform makes to what it keeps of a shop; new rows have new keys.
pub data BillingStep : Shop → Shop → Type 0 where
  raise_step :
      (pk start end : ℕ) (amount : Option ℤ) (due : Option ℕ) {s s' : Shop}
      → find_bill pk s.invoices ≡ none
      → raise_invoice pk start end amount due s ≡ ok s'
      → BillingStep s s'
  pay_step :
      (now pk k : ℕ) (amount : ℤ) {s s' : Shop}
      → record_payment now pk amount k s ≡ ok s'
      → BillingStep s s'
  reverse_step : (now pk : ℕ) {s s' : Shop} → reverse_payment now pk s ≡ ok s' → BillingStep s s'
  void_step : (now k : ℕ) {s s' : Shop} → void_bill now k s ≡ ok s' → BillingStep s s'
  night_step :
      (c : Calendar) (grace_days clock pk now : ℕ) {s : Shop}
      → find_bill pk s.invoices ≡ none
      → BillingStep s (advance c grace_days clock pk now s)

-- Any number of changes.
pub data BillingRun : Shop → Shop → Type 0 where
  no_change : {s : Shop} → BillingRun s s
  then_step : {s s' s'' : Shop} → BillingRun s s' → BillingStep s' s'' → BillingRun s s''

renew_due-IsBalanced :
    (c : Calendar) (pk now : ℕ) (s : Shop)
    → IsBalanced s
    → find_bill pk s.invoices ≡ none
    → IsBalanced (renew_due c pk now s)
renew_due-IsBalanced c pk now s b f = elim (renew_due_rows c pk now s) [
  | inl e ↦ IsBalanced-SameBills s (renew_due c pk now s) e b
  | inr (p, price, e) ↦
      IsBalanced-SameBills (try_invoice pk p.0 p.1 price s) (renew_due c pk now s) e
        (try_invoice-IsBalanced pk p.0 p.1 price s b f)
]

step-IsBalanced : {s s' : Shop} → BillingStep s s' → IsBalanced s → IsBalanced s'
step-IsBalanced {s} {s'} (raise_step pk start end amount due f h) b =
    raise_invoice-IsBalanced pk start end amount due s s' b f h
step-IsBalanced {s} {s'} (pay_step now pk k amount h) b =
    record_payment-IsBalanced now pk k amount s s' b h
step-IsBalanced {s} {s'} (reverse_step now pk h) b = reverse_payment-IsBalanced now pk s s' b h
step-IsBalanced {s} {s'} (void_step now k h) b = void_bill-IsBalanced now k s s' b h
step-IsBalanced (night_step c grace_days clock pk now {s} f) b =
    IsBalanced-SameBills (renew_due c pk now s) (advance c grace_days clock pk now s)
      (advance_rows c grace_days clock pk now s) (renew_due-IsBalanced c pk now s b f)

-- Over any sequence of bills raised, payments, reversals, voids and nights, an invoice is paid
-- exactly when all of it is, no invoice is overpaid, and nothing is paid on one that is void.
pub billing-IsBalanced : {s s' : Shop} → BillingRun s s' → IsBalanced s → IsBalanced s'
billing-IsBalanced no_change b = b
billing-IsBalanced (then_step run last) b = step-IsBalanced last (billing-IsBalanced run b)
