-- ===== src/Tenancy/PeriodLaws.antt =====
-- No day is billed twice: the periods of the invoices that are not void.
use retail_system.Prelude.{
  ℕ, ◌≡◌, inl, inr, false, Option, none, some, ◌∷◌, arith, Option-cases, ℤ, pos, ok, Result-cases,
}
use retail_system.Inventory.Services.{run}
use retail_system.Tenancy.Balance.{find_bill_at, refresh_shop_rows}
use retail_system.Tenancy.Billing.{is_covered, new_bill_row, asked_amount, raise_invoice}
use retail_system.Tenancy.Ledger.{
  renew_due_rows, advance_rows, BillingStep, raise_step, pay_step, reverse_step, void_step,
  night_step, BillingRun, no_change, then_step,
}
use retail_system.Tenancy.Payments.{
  new_payment_row, record_payment_found, record_payment, after_reversal, reverse_payment, void_bill,
}
use retail_system.Tenancy.Periods.{NoOverlap, NoOverlap-save_bill, apart_of_covered}
use retail_system.Tenancy.Renewal.{try_invoice}
use retail_system.Tenancy.Reversals.{after_reversal_rows, reversal_missing}
use retail_system.Tenancy.State.{
  BillInvoiceStatus, BillPaymentStatus, Shop, is_unpaid, is_bill_paid, is_bill_void, find_bill,
  save_bill, find_bill_payment, save_bill_payment,
}
use retail_system.Tenancy.Steps.{settle_invoice_rows}

raise_invoice-NoOverlap :
    (pk start end : ℕ) (amount : Option ℤ) (due : Option ℕ) (s s' : Shop)
    → NoOverlap s.invoices
    → raise_invoice pk start end amount due s ≡ ok s'
    → NoOverlap s'.invoices
unfolding raise_invoice new_bill_row is_bill_void
raise_invoice-NoOverlap pk start end amount due s s' n h = elim (Option-cases s.subscription) [
  | inl e ↦ absurd (ground arith)
  | inr (u, e) ↦
      let row = new_bill_row pk start end (asked_amount amount s u) due in
      let fresh : is_covered start end s.invoices ≡ false = ground (arith, h, e) in
      let rows : s'.invoices ≡ row ∷ s.invoices = ground (arith, h, e) in
      rw rows (apart_of_covered row s.invoices fresh, n)
]

record_payment-NoOverlap :
    (now pk k : ℕ) (amount : ℤ) (s s' : Shop)
    → NoOverlap s.invoices
    → record_payment now pk amount k s ≡ ok s'
    → NoOverlap s'.invoices
unfolding record_payment record_payment_found is_bill_void is_unpaid
record_payment-NoOverlap now pk k amount s s' n h = elim (Option-cases (find_bill k s.invoices)) [
  | inl e ↦ absurd (ground arith)
  | inr (i, e) ↦
      let paid = record i { status = BillInvoiceStatus.paid; paid_at = some now } in
      ground (
        arith,
        e,
        find_bill_at k s.invoices i e,
        settle_invoice_rows now i
            (record s { payments = new_payment_row pk i.pk amount ∷ s.payments }),
        NoOverlap-save_bill paid i s.invoices,
      )
]

reversal-NoOverlap :
    (now k : ℕ) (s s' : Shop)
    → NoOverlap s.invoices
    → after_reversal now k s ≡ ok s'
    → NoOverlap s'.invoices
unfolding is_bill_void is_bill_paid
reversal-NoOverlap now k s s' n h = elim (Option-cases (find_bill k s.invoices)) [
  | inl e ↦ absurd (reversal_missing now k s s' e h)
  | inr (i, e) ↦
      let opened = record i { status = BillInvoiceStatus.opened; paid_at = none } in
      let at_ = find_bill_at k s.invoices i e in
      let found : find_bill i.pk s.invoices ≡ some i = ground (arith, e) in
      ground (
        arith,
        found,
        after_reversal_rows now i s s' found (ground (arith, h)),
        NoOverlap-save_bill opened i s.invoices,
      )
]

reverse_payment-NoOverlap :
    (now pk : ℕ) (s s' : Shop)
    → NoOverlap s.invoices
    → reverse_payment now pk s ≡ ok s'
    → NoOverlap s'.invoices
unfolding reverse_payment is_bill_void is_bill_paid
reverse_payment-NoOverlap now pk s s' n h = elim (Option-cases (find_bill_payment pk s.payments)) [
  | inl e ↦ absurd (ground arith)
  | inr (p, e) ↦
      let ps' = save_bill_payment (record p { status = BillPaymentStatus.refunded }) s.payments in
      reversal-NoOverlap now p.invoice (record s { payments = ps' }) s' n (ground (arith, h))
]

void_bill-NoOverlap :
    (now k : ℕ) (s s' : Shop)
    → NoOverlap s.invoices
    → void_bill now k s ≡ ok s'
    → NoOverlap s'.invoices
unfolding void_bill is_bill_void
void_bill-NoOverlap now k s s' n h = elim (Option-cases (find_bill k s.invoices)) [
  | inl e ↦ absurd (ground arith)
  | inr (i, e) ↦
      let voided = record i { status = BillInvoiceStatus.voided } in
      ground (
        arith,
        e,
        find_bill_at k s.invoices i e,
        refresh_shop_rows now (record s { invoices = save_bill voided s.invoices }) s',
        NoOverlap-save_bill voided i s.invoices,
      )
]

try_invoice-NoOverlap :
    (pk start end price : ℕ) (s : Shop)
    → NoOverlap s.invoices
    → NoOverlap (try_invoice pk start end price s).invoices
unfolding try_invoice
try_invoice-NoOverlap pk start end price s n =
    elim (Result-cases (raise_invoice pk start end (some (pos price)) (some start) s)) [
      | inl (e, h) ↦ rw h n
      | inr (s', h) ↦
          rw h (raise_invoice-NoOverlap pk start end (some (pos price)) (some start) s s' n h)
    ]

step-NoOverlap : {s s' : Shop} → BillingStep s s' → NoOverlap s.invoices → NoOverlap s'.invoices
step-NoOverlap {s} {s'} (raise_step pk start end amount due f h) n =
    raise_invoice-NoOverlap pk start end amount due s s' n h
step-NoOverlap {s} {s'} (pay_step now pk k amount h) n =
    record_payment-NoOverlap now pk k amount s s' n h
step-NoOverlap {s} {s'} (reverse_step now pk h) n = reverse_payment-NoOverlap now pk s s' n h
step-NoOverlap {s} {s'} (void_step now k h) n = void_bill-NoOverlap now k s s' n h
step-NoOverlap (night_step c grace_days clock pk now {s} f) n =
    let rows = advance_rows c grace_days clock pk now s in
    elim (renew_due_rows c pk now s) [
      | inl e ↦ rw (rows.0, e.0) n
      | inr (p, price, e) ↦ rw (rows.0, e.0) (try_invoice-NoOverlap pk p.0 p.1 price s n)
    ]

-- Over any sequence of bills raised, payments, reversals, voids and nights, no day is covered by
-- two invoices that are not void.
pub billing-NoOverlap :
    {s s' : Shop} → BillingRun s s' → NoOverlap s.invoices → NoOverlap s'.invoices
billing-NoOverlap no_change n = n
billing-NoOverlap (then_step run last) n = step-NoOverlap last (billing-NoOverlap run n)
