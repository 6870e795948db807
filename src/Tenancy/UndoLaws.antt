-- ===== src/Tenancy/UndoLaws.antt =====
-- A payment recorded by mistake and taken back: apps/tenancy/billing.py.
use retail_system.Prelude.{
  ℕ, ◌≡◌, refl, sym, ◌∙◌, ◌≢◌, inl, inr, true, ◌||◌, Option, none, some, List, ◌∷◌, arith,
  Bool-cases, Option-cases, is_some, ℤ, pos, ◌-ℤ◌, ◌<ℤ◌, leb_ℤ, -ℤ_parts, err, ok,
}
use retail_system.Tenancy.Balance.{TalliesStatus, IsBalanced, find_bill_at, find_bill-save_bill}
use retail_system.Tenancy.Billing.{refresh_shop}
use retail_system.Tenancy.Ledger.{Result-cases}
use retail_system.Tenancy.Payments.{
  paid_up_to, settle_invoice, new_payment_row, record_payment_found, record_payment, shortened,
  reopen, after_reversal, reverse_payment,
}
use retail_system.Tenancy.Reversals.{after_reversal_rows}
use retail_system.Tenancy.State.{
  BillInvoiceStatus, BillPaymentStatus, Subscription, BillInvoice, BillPayment, Shop, BillingError,
  is_succeeded, paid_amount, left_to_pay, is_unpaid, is_bill_paid, find_bill, save_bill,
  find_bill_payment, save_bill_payment, with_subscription,
}
use retail_system.Tenancy.Steps.{settle_invoice_rows, fits_along}
use retail_system.Till.Amounts.{total}

settle_invoice_keeps :
    (now : ℕ) (i : BillInvoice) (s : Shop)
    → is_some (settle_invoice now i s).subscription ≡ is_some s.subscription
unfolding settle_invoice paid_up_to with_subscription
settle_invoice_keeps now i s = ground arith

refresh_shop_runs :
    (now : ℕ) (s : Shop) (e : BillingError)
    → is_some s.subscription ≡ true
    → refresh_shop now s ≢ err e
unfolding refresh_shop
refresh_shop_runs now s e h = ground arith

after_reversal_runs :
    (now k : ℕ) (i : BillInvoice) (s : Shop) (e : BillingError)
    → is_some s.subscription ≡ true
    → find_bill k s.invoices ≡ some i
    → after_reversal now k s ≢ err e
unfolding after_reversal reopen
after_reversal_runs now k i s e h f =
    let opened = record i { status = BillInvoiceStatus.opened; paid_at = none } in
    let t : Shop = record s {
      invoices = save_bill opened s.invoices;
      subscription = elim s.subscription as (λ _. Option Subscription) [
        | none ↦ none
        | some u ↦ some (shortened i u)
      ];
    } in
    ground (arith, refresh_shop_runs now t e)

-- The shop once a payment of it is marked as taken back, before its invoice is looked at.
abbrev unpaid_again : ℕ → ℕ → BillInvoice → ℤ → Shop → Shop
unpaid_again now pk i amount s =
    let s' =
      settle_invoice now i (record s { payments = new_payment_row pk i.pk amount ∷ s.payments }) in
    record s' {
      payments =
          record { pk = pk; invoice = i.pk; amount = amount; status = BillPaymentStatus.refunded }
          ∷ s.payments;
    }

unpaid_again_row :
    (now pk : ℕ) (amount : ℤ) (i : BillInvoice) (s : Shop)
    → find_bill i.pk s.invoices ≡ some i
    → is_unpaid i.status ≡ true
    → let t = unpaid_again now pk i amount s in
      (j : BillInvoice) × (find_bill i.pk t.invoices ≡ some j)
      × (j.pk ≡ i.pk)
      × (j.total ≡ i.total)
      × (is_unpaid j.status || is_bill_paid j.status ≡ true)
unfolding is_bill_paid
unpaid_again_row now pk amount i s f u =
    let ps' = new_payment_row pk i.pk amount ∷ s.payments in
    let paid = record i { status = BillInvoiceStatus.paid; paid_at = some now } in
    let rows = settle_invoice_rows now i (record s { payments = ps' }) in
    let saved = find_bill-save_bill i.pk paid i s.invoices f in
    elim (Bool-cases (leb_ℤ (left_to_pay i ps') (pos 0))) [
      | inl c ↦ (paid, ground (arith, rows, saved), refl, refl, ground arith)
      | inr c ↦ (i, ground (arith, rows, f), refl, refl, ground arith)
    ]

paid_amount-unpaid_again :
    (now pk j : ℕ) (amount : ℤ) (i : BillInvoice) (s : Shop)
    → paid_amount j (unpaid_again now pk i amount s).payments ≡ paid_amount j s.payments
unfolding paid_amount is_succeeded
paid_amount-unpaid_again now pk j amount i s = ground arith

reversal_reopens :
    (later : ℕ) (j : BillInvoice) (t s'' : Shop)
    → find_bill j.pk t.invoices ≡ some j
    → is_unpaid j.status || is_bill_paid j.status ≡ true
    → pos 0 <ℤ left_to_pay j t.payments
    → after_reversal later j.pk t ≡ ok s''
    → (s''.payments ≡ t.payments)
      × (i : BillInvoice) × (find_bill j.pk s''.invoices ≡ some i)
      × (i.total ≡ j.total)
      × (is_unpaid i.status ≡ true)
unfolding is_unpaid
reversal_reopens later j t s'' f st l h =
    let opened = record j { status = BillInvoiceStatus.opened; paid_at = none } in
    let rows = after_reversal_rows later j t s'' f h in
    let saved = find_bill-save_bill j.pk opened j t.invoices f in
    elim (Bool-cases (is_bill_paid j.status)) [
      | inl c ↦ (rows.0, opened, ground (arith, rows, saved), refl, refl)
      | inr c ↦ (rows.0, j, ground (arith, rows, f), refl, ground (arith, st, c))
    ]

record_payment_found_runs :
    (now pk k : ℕ) (amount : ℤ) (s s' : Shop)
    → record_payment now pk amount k s ≡ ok s'
    → (i : BillInvoice) × (find_bill i.pk s.invoices ≡ some i)
      × (i.pk ≡ k)
      × (is_unpaid i.status ≡ true)
      × (s'
          ≡ settle_invoice now i
              (record s { payments = new_payment_row pk i.pk amount ∷ s.payments }))
unfolding record_payment record_payment_found
record_payment_found_runs now pk k amount s s' h = elim (Option-cases (find_bill k s.invoices)) [
  | inl e ↦ absurd (ground arith)
  | inr (i, e) ↦
      let at_ = find_bill_at k s.invoices i e in
      (i, ground (arith, e, at_), at_, ground (arith, e, h), ground (arith, e, h))
]

reverse_payment-unpaid_again :
    (now later pk : ℕ) (amount : ℤ) (i : BillInvoice) (s : Shop)
    → reverse_payment later pk
        (settle_invoice now i (record s { payments = new_payment_row pk i.pk amount ∷ s.payments }))
      ≡ after_reversal later i.pk (unpaid_again now pk i amount s)
unfolding reverse_payment new_payment_row find_bill_payment save_bill_payment is_succeeded
reverse_payment-unpaid_again now later pk amount i s =
    let ps' = new_payment_row pk i.pk amount ∷ s.payments in
    ground (arith, settle_invoice_rows now i (record s { payments = ps' }))

left_of_unpaid :
    (status : BillInvoiceStatus) (total paid : ℤ)
    → TalliesStatus status total paid
    → is_unpaid status ≡ true
    → pos 0 <ℤ total -ℤ paid
unfolding is_unpaid
left_of_unpaid status total paid f u =
    let v = -ℤ_parts total paid in
    elim status
        as (λ st. TalliesStatus st total paid → is_unpaid st ≡ true → pos 0 <ℤ total -ℤ paid) [
          | BillInvoiceStatus.draft ↦ λ f u. ground (arith, v)
          | BillInvoiceStatus.opened ↦ λ f u. ground (arith, v)
          | BillInvoiceStatus.paid ↦ λ f u. cc
          | BillInvoiceStatus.voided ↦ λ f u. cc
          | BillInvoiceStatus.uncollectible ↦ λ f u. cc
        ]
      f u

unpaid_left :
    (i j : BillInvoice) (ps qs : List BillPayment)
    → paid_amount i.pk qs ≡ paid_amount i.pk ps
    → j.pk ≡ i.pk
    → j.total ≡ i.total
    → pos 0 <ℤ i.total -ℤ paid_amount i.pk ps
    → pos 0 <ℤ left_to_pay j qs
unfolding left_to_pay
unpaid_left i j ps qs e k t l = rw (t, k, e) l

-- A payment that was recorded can be taken back at once, where the shop has a subscription: what is
-- paid on every invoice is then as before it, and its own invoice is unpaid again, with the same
-- total, even if it was the payment that paid it off.
pub reverse_undoes_payment :
    (now later pk k : ℕ) (amount : ℤ) (s s' : Shop)
    → is_some s.subscription ≡ true
    → IsBalanced s
    → record_payment now pk amount k s ≡ ok s'
    → (s'' : Shop) × (reverse_payment later pk s' ≡ ok s'')
      × ((j : ℕ) → paid_amount j s''.payments ≡ paid_amount j s.payments)
      × (i : BillInvoice) × (find_bill k s''.invoices ≡ some i)
      × (is_unpaid i.status ≡ true)
      × (j : BillInvoice) × (find_bill k s.invoices ≡ some j)
      × (i.total ≡ j.total)
reverse_undoes_payment now later pk k amount s s' sub b h =
    let (i, found, at_, unpaid, same) = record_payment_found_runs now pk k amount s s' h in
    let t = unpaid_again now pk i amount s in
    let (j, row, key, total, kind) = unpaid_again_row now pk amount i s found unpaid in
    let paid = paid_amount-unpaid_again now pk i.pk amount i s in
    let left =
      left_of_unpaid i.status i.total (paid_amount i.pk s.payments)
        (fits_along (find_bill i.pk s.invoices) (some i) (paid_amount i.pk s.payments)
          (paid_amount i.pk s.payments) (sym found) refl (b.0 i.pk))
        unpaid in
    let kept =
      settle_invoice_keeps now i
        (record s { payments = new_payment_row pk i.pk amount ∷ s.payments }) in
    let ran = reverse_payment-unpaid_again now later pk amount i s in
    elim (Result-cases (after_reversal later i.pk t)) [
      | inl (e, r) ↦ absurd (after_reversal_runs later i.pk j t e (ground (arith, kept, sub)) row r)
      | inr (s'', r) ↦
          let (rest, i', row', total', st) =
            reversal_reopens later j t s'' (ground (arith, row, key)) kind
              (unpaid_left i j s.payments t.payments paid key total left)
              (ground (arith, key, r)) in
          (
            s'',
            ground (arith, same, ran, r),
            λ k'. rw rest (paid_amount-unpaid_again now pk k' amount i s),
            i',
            ground (arith, row', key, at_),
            st,
            i,
            ground (arith, found, at_),
            total' ∙ total,
          )
    ]
