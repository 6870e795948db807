-- ===== src/Tenancy/Reversals.antt =====
-- What taking a payment back, a void and a night keep of a shop's bills: apps/tenancy/billing.py.
use retail_system.Prelude.{
  ℕ, ◌≡◌, refl, sym, ◌≢◌, inl, inr, true, false, ◌&&◌, Option, none, some, arith, ◌==◌,
  if◌then◌else◌, Bool-cases, Option-cases, ℤ, pos, ◌+ℤ◌, ◌-ℤ◌, ◌≤ℤ◌, ◌<ℤ◌, ltb_ℤ, +ℤ_parts,
  -ℤ_parts, +ℤ_zero, +ℤ_comm, ok,
}
use retail_system.Tenancy.Balance.{
  TalliesStatus, Tallies, IsBalanced, find_bill_at, find_bill-save_bill, paid_amount_nonneg,
  paid_amount-reversed, any_succeeded-none, refresh_shop_rows,
}
use retail_system.Tenancy.Billing.{refresh_shop}
use retail_system.Tenancy.Payments.{
  shortened, reopen, after_reversal, reverse_payment, any_succeeded, void_bill,
}
use retail_system.Tenancy.State.{
  BillInvoiceStatus, BillPaymentStatus, Subscription, BillInvoice, BillPayment, Shop, is_succeeded,
  paid_amount, left_to_pay, is_bill_paid, find_bill, save_bill, find_bill_payment,
  save_bill_payment,
}
use retail_system.Tenancy.Steps.{fits_along}
use retail_system.Till.Amounts.{total}

-- An invoice and what is paid on it once a payment on it is taken back.
fits_less :
    (status : BillInvoiceStatus) (total amount rest : ℤ)
    → TalliesStatus status total (amount +ℤ rest)
    → pos 0 <ℤ amount
    → pos 0 ≤ℤ rest
    → (is_bill_paid status && ltb_ℤ (pos 0) (total -ℤ rest) ≡ true
        → TalliesStatus BillInvoiceStatus.opened total rest)
      × (is_bill_paid status && ltb_ℤ (pos 0) (total -ℤ rest) ≡ false
          → TalliesStatus status total rest)
unfolding is_bill_paid
fits_less status total amount rest f p l =
    let v = -ℤ_parts total rest in
    let w = +ℤ_parts amount rest in
    elim status
        as (λ st.
          TalliesStatus st total (amount +ℤ rest)
          → (is_bill_paid st && ltb_ℤ (pos 0) (total -ℤ rest) ≡ true
              → TalliesStatus BillInvoiceStatus.opened total rest)
            × (is_bill_paid st && ltb_ℤ (pos 0) (total -ℤ rest) ≡ false
                → TalliesStatus st total rest)) [
                  | BillInvoiceStatus.draft ↦ λ f. ground (arith, v, w)
                  | BillInvoiceStatus.opened ↦ λ f. ground (arith, v, w)
                  | BillInvoiceStatus.paid ↦ λ f. ground (arith, v, w)
                  | BillInvoiceStatus.voided ↦ λ f. ground (arith, v, w)
                  | BillInvoiceStatus.uncollectible ↦ λ f. ground (arith, v, w)
                ]
      f

pub after_reversal_rows :
    (now : ℕ) (i : BillInvoice) (s s' : Shop)
    → find_bill i.pk s.invoices ≡ some i
    → after_reversal now i.pk s ≡ ok s'
    → (s'.payments ≡ s.payments)
      × (s'.invoices ≡ (
          if is_bill_paid i.status && ltb_ℤ (pos 0) (left_to_pay i s.payments)
          then save_bill (record i { status = BillInvoiceStatus.opened; paid_at = none }) s.invoices
          else s.invoices))
unfolding after_reversal reopen
after_reversal_rows now i s s' f h =
    let opened = record i { status = BillInvoiceStatus.opened; paid_at = none } in
    let t : Shop = record s {
      invoices = save_bill opened s.invoices;
      subscription = elim s.subscription as (λ _. Option Subscription) [
        | none ↦ none
        | some u ↦ some (shortened i u)
      ];
    } in
    ground (arith, refresh_shop_rows now t s')

reversal_fits :
    (now k : ℕ) (p : BillPayment) (i : BillInvoice) (s s' : Shop)
    → p.invoice ≡ i.pk
    → find_bill i.pk s.invoices ≡ some i
    → pos 0 <ℤ p.amount
    → ((j : ℕ) → pos 0 ≤ℤ paid_amount j s.payments)
    → ((j : ℕ)
        → Tallies
            (find_bill j s.invoices)
            ((if p.invoice == j then p.amount else pos 0) +ℤ paid_amount j s.payments))
    → after_reversal now i.pk s ≡ ok s'
    → Tallies (find_bill k s'.invoices) (paid_amount k s'.payments)
unfolding left_to_pay
reversal_fits now k p i s s' own_row f a n b h =
    let opened = record i { status = BillInvoiceStatus.opened; paid_at = none } in
    let rows = after_reversal_rows now i s s' f h in
    let saved = find_bill-save_bill k opened i s.invoices f in
    let rest = paid_amount i.pk s.payments in
    let own =
      fits_along (find_bill i.pk s.invoices) (some i)
        ((if p.invoice == i.pk then p.amount else pos 0) +ℤ rest) (p.amount +ℤ rest) (sym f)
        (ground (arith, own_row)) (b i.pk) in
    let less = fits_less i.status i.total p.amount rest own a (n i.pk) in
    elim (Bool-cases (i.pk == k)) [
      | inl e ↦ elim (Bool-cases (is_bill_paid i.status && ltb_ℤ (pos 0) (i.total -ℤ rest))) [
        | inl c ↦
            fits_along (some opened) (find_bill k s'.invoices) rest (paid_amount k s'.payments)
              (ground (arith, rows, saved)) (ground (arith, rows)) (less.0 c)
        | inr c ↦
            fits_along (some i) (find_bill k s'.invoices) rest (paid_amount k s'.payments)
              (ground (arith, rows, f)) (ground (arith, rows)) (less.1 c)
      ]
      | inr e ↦
          fits_along (find_bill k s.invoices) (find_bill k s'.invoices)
            ((if p.invoice == k then p.amount else pos 0) +ℤ paid_amount k s.payments)
            (paid_amount k s'.payments) (ground (arith, rows, saved))
            (ground (
              arith,
              rows,
              own_row,
              +ℤ_comm (pos 0) (paid_amount k s.payments),
              +ℤ_zero (paid_amount k s.payments),
            ))
            (b k)
    ]

pub reversal_missing :
    (now k : ℕ) (s s' : Shop) → find_bill k s.invoices ≡ none → after_reversal now k s ≢ ok s'
unfolding after_reversal
reversal_missing now k s s' e h = ground arith

payment_reversed-IsBalanced :
    (now pk : ℕ) (p : BillPayment) (s s' : Shop)
    → IsBalanced s
    → find_bill_payment pk s.payments ≡ some p
    → is_succeeded p.status ≡ true
    → let ps' = save_bill_payment (record p { status = BillPaymentStatus.refunded }) s.payments in
      after_reversal now p.invoice (record s { payments = ps' }) ≡ ok s' → IsBalanced s'
payment_reversed-IsBalanced now pk p s s' b f e h =
    let ps' = save_bill_payment (record p { status = BillPaymentStatus.refunded }) s.payments in
    let t = record s { payments = ps' } in
    let (_, more, stands) = paid_amount-reversed 0 pk p s.payments b.1 f e in
    elim (Option-cases (find_bill p.invoice s.invoices)) [
      | inl missing ↦ absurd (reversal_missing now p.invoice t s' missing h)
      | inr (i, found) ↦
          let at_ = find_bill_at p.invoice s.invoices i found in
          let h' : after_reversal now i.pk t ≡ ok s' = ground (arith, h) in
          let found' : find_bill i.pk s.invoices ≡ some i = ground (arith, found) in
          (
            λ k.
                reversal_fits now k p i t s' (sym at_) found' more
                  (λ j. paid_amount_nonneg j ps' stands)
                  (λ j.
                    fits_along (find_bill j s.invoices) (find_bill j s.invoices)
                      (paid_amount j s.payments)
                      ((if p.invoice == j then p.amount else pos 0) +ℤ paid_amount j ps') refl
                      (sym (paid_amount-reversed j pk p s.payments b.1 f e).0) (b.0 j))
                  h',
            rw (after_reversal_rows now i t s' found' h').0 stands,
          )
    ]

pub reverse_payment-IsBalanced :
    (now pk : ℕ) (s s' : Shop) → IsBalanced s → reverse_payment now pk s ≡ ok s' → IsBalanced s'
unfolding reverse_payment
reverse_payment-IsBalanced now pk s s' b h = elim (Option-cases (find_bill_payment pk s.payments)) [
  | inl e ↦ absurd (ground arith)
  | inr (p, e) ↦
      payment_reversed-IsBalanced now pk p s s' b e (ground (arith, h)) (ground (arith, h))
]

-- A void is of an invoice on which nothing is paid.
void_fits :
    (now k : ℕ) (i : BillInvoice) (s s' : Shop)
    → IsBalanced s
    → find_bill i.pk s.invoices ≡ some i
    → any_succeeded i.pk s.payments ≡ false
    → let voided = record i { status = BillInvoiceStatus.voided } in
      refresh_shop now (record s { invoices = save_bill voided s.invoices }) ≡ ok s'
      → Tallies (find_bill k s'.invoices) (paid_amount k s'.payments)
void_fits now k i s s' b f n h =
    let voided = record i { status = BillInvoiceStatus.voided } in
    let rows = refresh_shop_rows now (record s { invoices = save_bill voided s.invoices }) s' h in
    let saved = find_bill-save_bill k voided i s.invoices f in
    elim (Bool-cases (i.pk == k)) [
      | inl e ↦
          fits_along (some voided) (find_bill k s'.invoices) (pos 0) (paid_amount k s'.payments)
            (ground (arith, rows, saved))
            (ground (arith, rows, any_succeeded-none i.pk s.payments n)) refl
      | inr e ↦
          fits_along (find_bill k s.invoices) (find_bill k s'.invoices) (paid_amount k s.payments)
            (paid_amount k s'.payments) (ground (arith, rows, saved)) (ground (arith, rows)) (b.0 k)
    ]

pub void_bill-IsBalanced :
    (now k : ℕ) (s s' : Shop) → IsBalanced s → void_bill now k s ≡ ok s' → IsBalanced s'
unfolding void_bill
void_bill-IsBalanced now k s s' b h = elim (Option-cases (find_bill k s.invoices)) [
  | inl e ↦ absurd (ground arith)
  | inr (i, e) ↦
      let at_ = find_bill_at k s.invoices i e in
      let voided = record i { status = BillInvoiceStatus.voided } in
      let t = record s { invoices = save_bill voided s.invoices } in
      let ran : refresh_shop now t ≡ ok s' = ground (arith, h) in
      let e' : find_bill i.pk s.invoices ≡ some i = ground (arith, e) in
      (
        λ j. void_fits now j i s s' b e' (ground (arith, h)) ran,
        rw (refresh_shop_rows now t s' ran).1 b.1,
      )
]
