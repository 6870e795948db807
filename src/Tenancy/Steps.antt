-- ===== src/Tenancy/Steps.antt =====
-- What each change to a shop's bills keeps: apps/tenancy/billing.py.
use mathlib.Core.Path.{subst}
use retail_system.Prelude.{
  ℕ, ◌≡◌, refl, sym, inl, inr, true, false, Option, some, List, ◌∷◌, arith, ◌==◌, if◌then◌else◌,
  Bool-cases, Option-cases, ℤ, pos, ◌+ℤ◌, ◌-ℤ◌, ◌≤ℤ◌, ◌<ℤ◌, leb_ℤ, +ℤ_parts, -ℤ_parts, eq_of_parts,
  All, ok,
}
use retail_system.Tenancy.Balance.{
  TalliesStatus, Tallies, IsBalanced, find_bill_at, find_bill-save_bill,
}
use retail_system.Tenancy.Payments.{
  paid_up_to, settle_invoice, new_payment_row, record_payment_found, record_payment,
}
use retail_system.Tenancy.State.{
  BillInvoiceStatus, BillInvoice, BillPayment, Shop, is_succeeded, paid_amount, left_to_pay,
  is_unpaid, find_bill, save_bill, with_subscription,
}
use retail_system.Till.Amounts.{total}

paid_up_to_rows :
    (now : ℕ) (i : BillInvoice) (s : Shop)
    → ((paid_up_to now i s).invoices ≡ s.invoices) × ((paid_up_to now i s).payments ≡ s.payments)
unfolding paid_up_to with_subscription
paid_up_to_rows now i s = ground arith

pub settle_invoice_rows :
    (now : ℕ) (i : BillInvoice) (s : Shop)
    → let s' = settle_invoice now i s in
      let paid = record i { status = BillInvoiceStatus.paid; paid_at = some now } in
      (s'.payments ≡ s.payments)
      × (s'.invoices ≡ (
          if leb_ℤ (left_to_pay i s.payments) (pos 0)
          then save_bill paid s.invoices
          else s.invoices))
unfolding settle_invoice
settle_invoice_rows now i s =
    let paid = record i { status = BillInvoiceStatus.paid; paid_at = some now } in
    ground (arith, paid_up_to_rows now paid (record s { invoices = save_bill paid s.invoices }))

-- An invoice and what is paid on it once another payment of at most what is left comes in.
fits_more :
    (status : BillInvoiceStatus) (total before amount : ℤ)
    → is_unpaid status ≡ true
    → TalliesStatus status total before
    → pos 0 <ℤ amount
    → amount ≤ℤ total -ℤ before
    → (leb_ℤ (total -ℤ (amount +ℤ before)) (pos 0) ≡ true
        → TalliesStatus BillInvoiceStatus.paid total (amount +ℤ before))
      × (leb_ℤ (total -ℤ (amount +ℤ before)) (pos 0) ≡ false
          → TalliesStatus status total (amount +ℤ before))
unfolding is_unpaid
fits_more status total before amount u f p l =
    let v = -ℤ_parts total before in
    let w = +ℤ_parts amount before in
    let x = -ℤ_parts total (amount +ℤ before) in
    let same = eq_of_parts (amount +ℤ before) total in
    elim status
        as (λ st.
          is_unpaid st ≡ true
          → TalliesStatus st total before
          → (leb_ℤ (total -ℤ (amount +ℤ before)) (pos 0) ≡ true
              → TalliesStatus BillInvoiceStatus.paid total (amount +ℤ before))
            × (leb_ℤ (total -ℤ (amount +ℤ before)) (pos 0) ≡ false
                → TalliesStatus st total (amount +ℤ before))) [
                  | BillInvoiceStatus.draft ↦ λ u f. ground (arith, v, w, x, same)
                  | BillInvoiceStatus.opened ↦ λ u f. ground (arith, v, w, x, same)
                  | BillInvoiceStatus.paid ↦ λ u f. cc
                  | BillInvoiceStatus.voided ↦ λ u f. cc
                  | BillInvoiceStatus.uncollectible ↦ λ u f. cc
                ]
      u f

paid_amount-new :
    (k pk j : ℕ) (amount : ℤ) (ps : List BillPayment)
    → paid_amount k (new_payment_row pk j amount ∷ ps)
      ≡ (if j == k then amount +ℤ paid_amount k ps else paid_amount k ps)
unfolding paid_amount new_payment_row is_succeeded
paid_amount-new k pk j amount ps = ground arith

-- A balanced row stays so where neither it nor what is paid on it changes.
pub fits_along :
    (o o' : Option BillInvoice) (q q' : ℤ) → o' ≡ o → q' ≡ q → Tallies o q → Tallies o' q'
fits_along o o' q q' e f h = rw (e, f) h

settle_invoice_fits :
    (now pk k : ℕ) (amount : ℤ) (i : BillInvoice) (s : Shop)
    → find_bill i.pk s.invoices ≡ some i
    → IsBalanced s
    → is_unpaid i.status ≡ true
    → pos 0 <ℤ amount
    → amount ≤ℤ left_to_pay i s.payments
    → let s' =
        settle_invoice now i
          (record s { payments = new_payment_row pk i.pk amount ∷ s.payments }) in
      Tallies (find_bill k s'.invoices) (paid_amount k s'.payments)
unfolding left_to_pay
settle_invoice_fits now pk k amount i s f b u p l =
    let ps' = new_payment_row pk i.pk amount ∷ s.payments in
    let s' = settle_invoice now i (record s { payments = ps' }) in
    let paid = record i { status = BillInvoiceStatus.paid; paid_at = some now } in
    let rows = settle_invoice_rows now i (record s { payments = ps' }) in
    let sum = paid_amount-new k pk i.pk amount s.payments in
    let own_sum = paid_amount-new i.pk pk i.pk amount s.payments in
    let saved = find_bill-save_bill k paid i s.invoices f in
    let before = paid_amount i.pk s.payments in
    let own =
      fits_along (find_bill i.pk s.invoices) (some i) before before (sym f) refl (b.0 i.pk) in
    let more = fits_more i.status i.total before amount u own p l in
    elim (Bool-cases (i.pk == k)) [
      | inl e ↦ elim (Bool-cases (leb_ℤ (i.total -ℤ (amount +ℤ before)) (pos 0))) [
        | inl c ↦
            fits_along (some paid) (find_bill k s'.invoices) (amount +ℤ before)
              (paid_amount k s'.payments) (ground (arith, rows, saved, own_sum))
              (ground (arith, rows, sum)) (more.0 c)
        | inr c ↦
            fits_along (some i) (find_bill k s'.invoices) (amount +ℤ before)
              (paid_amount k s'.payments) (ground (arith, rows, f, own_sum))
              (ground (arith, rows, sum)) (more.1 c)
      ]
      | inr e ↦
          fits_along (find_bill k s.invoices) (find_bill k s'.invoices) (paid_amount k s.payments)
            (paid_amount k s'.payments) (ground (arith, rows, saved)) (ground (arith, rows, sum))
            (b.0 k)
    ]

settle_invoice_positive :
    (now pk : ℕ) (amount : ℤ) (i : BillInvoice) (s : Shop)
    → All (λ p. is_succeeded p.status ≡ true → pos 0 <ℤ p.amount) s.payments
    → pos 0 <ℤ amount
    → let t = record s { payments = new_payment_row pk i.pk amount ∷ s.payments } in
      All (λ p. is_succeeded p.status ≡ true → pos 0 <ℤ p.amount) (settle_invoice now i t).payments
unfolding new_payment_row
settle_invoice_positive now pk amount i s a p =
    let t = record s { payments = new_payment_row pk i.pk amount ∷ s.payments } in
    rw (settle_invoice_rows now i t).0 ((λ _. p), a)

payment_found-IsBalanced :
    (now pk : ℕ) (amount : ℤ) (i : BillInvoice) (s s' : Shop)
    → find_bill i.pk s.invoices ≡ some i
    → IsBalanced s
    → record_payment_found now pk amount i s ≡ ok s'
    → IsBalanced s'
unfolding record_payment_found
payment_found-IsBalanced now pk amount i s s' f b h =
    let t = record s { payments = new_payment_row pk i.pk amount ∷ s.payments } in
    let done : settle_invoice now i t ≡ s' = ground arith in
    subst IsBalanced done (
      λ k. settle_invoice_fits now pk k amount i s f b (ground arith) (ground arith) (ground arith),
      settle_invoice_positive now pk amount i s b.1 (ground arith),
    )

pub record_payment-IsBalanced :
    (now pk k : ℕ) (amount : ℤ) (s s' : Shop)
    → IsBalanced s
    → record_payment now pk amount k s ≡ ok s'
    → IsBalanced s'
unfolding record_payment
record_payment-IsBalanced now pk k amount s s' b h = elim (Option-cases (find_bill k s.invoices)) [
  | inl e ↦ ground arith
  | inr (i, e) ↦
      payment_found-IsBalanced now pk amount i s s'
        (ground (arith, e, find_bill_at k s.invoices i e)) b (ground (arith, e))
]
