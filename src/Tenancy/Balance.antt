-- ===== src/Tenancy/Balance.antt =====
-- Invoices that agree with what is paid on them, through every change to a shop's bills.
use retail_system.Prelude.{
  ℕ, ◌≡◌, refl, true, false, Option, none, some, List, [], ◌∷◌, arith, ◌==◌, if◌then◌else◌, ℤ, pos,
  ◌+ℤ◌, ◌≤ℤ◌, ◌<ℤ◌, +ℤ_parts, int_laws, +ℤ_zero, +ℤ_comm, All, ok,
}
use retail_system.Tenancy.Billing.{new_bill_row, raise_invoice, refresh_shop}
use retail_system.Tenancy.Payments.{any_succeeded}
use retail_system.Tenancy.State.{
  BillInvoiceStatus, BillPaymentStatus, BillInvoice, BillPayment, Shop, is_succeeded, paid_amount,
  find_bill, save_bill, find_bill_payment, save_bill_payment, with_subscription,
}
use retail_system.Till.Amounts.{total}

-- What is paid on an invoice of that status and total.
abbrev pub TalliesStatus : BillInvoiceStatus → ℤ → ℤ → Type 0
TalliesStatus BillInvoiceStatus.draft total paid = (pos 0 ≤ℤ paid) × (paid <ℤ total)
TalliesStatus BillInvoiceStatus.opened total paid = (pos 0 ≤ℤ paid) × (paid <ℤ total)
TalliesStatus BillInvoiceStatus.paid total paid = (pos 0 <ℤ paid) × (paid ≡ total)
TalliesStatus BillInvoiceStatus.voided total paid = paid ≡ pos 0
TalliesStatus BillInvoiceStatus.uncollectible total paid = (pos 0 ≤ℤ paid) × (paid ≤ℤ total)

abbrev pub Tallies : Option BillInvoice → ℤ → Type 0
Tallies none paid = paid ≡ pos 0
Tallies (some i) paid = TalliesStatus i.status i.total paid

-- An invoice is paid exactly when nothing is left, nothing is overpaid, and nothing is paid on an
-- invoice that is void or is not there. A payment that stands is more than nothing.
abbrev pub IsBalanced : Shop → Type 0
IsBalanced s =
    ((k : ℕ) → Tallies (find_bill k s.invoices) (paid_amount k s.payments))
    × All (λ p. is_succeeded p.status ≡ true → pos 0 <ℤ p.amount) s.payments

pub find_bill_at :
    (k : ℕ) (is : List BillInvoice) (i : BillInvoice) → find_bill k is ≡ some i → i.pk ≡ k
unfolding find_bill
find_bill_at k [] i h = cc
find_bill_at k (j ∷ js) i h = ground (arith, find_bill_at k js i)

pub find_bill-save_bill :
    (k : ℕ) (i j : BillInvoice) (is : List BillInvoice)
    → find_bill i.pk is ≡ some j
    → find_bill k (save_bill i is) ≡ (if i.pk == k then some i else find_bill k is)
unfolding find_bill save_bill
find_bill-save_bill k i j [] h = cc
find_bill-save_bill k i j (c ∷ cs) h = ground (arith, find_bill-save_bill k i j cs)

pub paid_amount_nonneg :
    (k : ℕ) (ps : List BillPayment)
    → All (λ p. is_succeeded p.status ≡ true → pos 0 <ℤ p.amount) ps
    → pos 0 ≤ℤ paid_amount k ps
unfolding paid_amount
paid_amount_nonneg k [] h = omega arith
paid_amount_nonneg k (p ∷ ps) h =
    ground (arith, h.0, paid_amount_nonneg k ps h.1, +ℤ_parts p.amount (paid_amount k ps))

find_bill_payment_at :
    (pk : ℕ) (ps : List BillPayment) (p : BillPayment)
    → find_bill_payment pk ps ≡ some p
    → p.pk ≡ pk
unfolding find_bill_payment
find_bill_payment_at pk [] p h = cc
find_bill_payment_at pk (q ∷ qs) p h = ground (arith, find_bill_payment_at pk qs p)

swap : (a b c : ℤ) → a +ℤ (b +ℤ c) ≡ b +ℤ (a +ℤ c)
swap a b c = omega int_laws

-- A payment that is taken back was part of what is paid.
pub paid_amount-reversed :
    (k pk : ℕ) (p : BillPayment) (ps : List BillPayment)
    → All (λ q. is_succeeded q.status ≡ true → pos 0 <ℤ q.amount) ps
    → find_bill_payment pk ps ≡ some p
    → is_succeeded p.status ≡ true
    → let ps' = save_bill_payment (record p { status = BillPaymentStatus.refunded }) ps in
      (paid_amount k ps ≡ (if p.invoice == k then p.amount else pos 0) +ℤ paid_amount k ps')
      × (pos 0 <ℤ p.amount)
      × All (λ q. is_succeeded q.status ≡ true → pos 0 <ℤ q.amount) ps'
unfolding paid_amount find_bill_payment save_bill_payment is_succeeded
paid_amount-reversed k pk p [] h f e = cc
paid_amount-reversed k pk p (q ∷ qs) h f e =
    let ps' = save_bill_payment (record p { status = BillPaymentStatus.refunded }) qs in
    ground (
      arith,
      paid_amount-reversed k pk p qs h.1,
      find_bill_payment_at pk (q ∷ qs) p f,
      h,
      +ℤ_comm (pos 0) (paid_amount k qs),
      +ℤ_zero (paid_amount k qs),
      swap q.amount p.amount (paid_amount k ps'),
      +ℤ_comm (pos 0) (q.amount +ℤ paid_amount k ps'),
      +ℤ_zero (q.amount +ℤ paid_amount k ps'),
      +ℤ_comm (pos 0) (paid_amount k ps'),
      +ℤ_zero (paid_amount k ps'),
    )

pub any_succeeded-none :
    (k : ℕ) (ps : List BillPayment) → any_succeeded k ps ≡ false → paid_amount k ps ≡ pos 0
unfolding any_succeeded paid_amount
any_succeeded-none k [] h = refl
any_succeeded-none k (p ∷ ps) h = ground (arith, any_succeeded-none k ps)

pub refresh_shop_rows :
    (now : ℕ) (s s' : Shop)
    → refresh_shop now s ≡ ok s'
    → (s'.invoices ≡ s.invoices) × (s'.payments ≡ s.payments)
unfolding refresh_shop with_subscription
refresh_shop_rows now s s' h = ground arith

pub raise_invoice-IsBalanced :
    (pk start end : ℕ) (amount : Option ℤ) (due : Option ℕ) (s s' : Shop)
    → IsBalanced s
    → find_bill pk s.invoices ≡ none
    → raise_invoice pk start end amount due s ≡ ok s'
    → IsBalanced s'
unfolding raise_invoice new_bill_row find_bill
raise_invoice-IsBalanced pk start end amount due s s' b f h =
    (λ k. ground (arith, b.0 k), ground (arith, b.1))
