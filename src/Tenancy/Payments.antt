-- ===== src/Tenancy/Payments.antt =====
-- What a shop pays on its bills, taken back and voided: apps/tenancy/billing.py.
use retail_system.Prelude.{
  ℕ, ◌-◌, Bool, true, false, not, ◌&&◌, ◌||◌, none, some, List, [], ◌∷◌, ltb, leb, ◌==◌,
  if◌then◌else◌, ℤ, pos, ltb_ℤ, leb_ℤ, Result, err, ok, raise_if, ◌>>◌,
}
use retail_system.Tenancy.Billing.{status_now, refresh_shop}
use retail_system.Tenancy.State.{
  TenantStatus, SubscriptionStatus, BillInvoiceStatus, BillPaymentStatus, Subscription, BillInvoice,
  BillPayment, Shop, BillingError, not_payable, payment_not_positive, more_than_left,
  already_reversed, already_void, has_payments, no_such_row, start_of, end_of, is_succeeded,
  left_to_pay, is_unpaid, is_bill_paid, is_bill_void, is_trialing, is_active, is_suspended,
  find_bill, save_bill, find_bill_payment, save_bill_payment, with_subscription,
}

-- The end of a period that is paid, when it is later.
unfoldable pub paid_period : BillInvoice → Subscription → Subscription
unfolding end_of start_of
paid_period i u =
    let until = end_of i.period_end in
    if elim u.period_end [ none ↦ true | some t ↦ ltb t until ]
    then record u { period_start = start_of i.period_start; period_end = some until }
    else u

unfoldable pub status_paid : ℕ → BillInvoice → Subscription → List BillInvoice → SubscriptionStatus
unfolding status_now is_trialing
status_paid now i u is =
    let wanted = status_now now u is in
    if is_trialing wanted && ltb_ℤ (pos 0) i.total then SubscriptionStatus.active else wanted

-- `_paid_up_to`
unfoldable pub paid_up_to : ℕ → BillInvoice → Shop → Shop
unfolding paid_period status_paid is_suspended is_active
paid_up_to now i s = elim s.subscription [
  | none ↦ s
  | some u ↦
      let paid = paid_period i u in
      let wanted = status_paid now i paid s.invoices in
      let s' = with_subscription (record paid { status = wanted; grace_ends_at = none }) s in
      if is_suspended s.status && is_active wanted
      then record s' { status = TenantStatus.active }
      else s'
]

-- The end of `record_payment`: an invoice with nothing left is paid.
unfoldable pub settle_invoice : ℕ → BillInvoice → Shop → Shop
unfolding left_to_pay paid_up_to
settle_invoice now i s =
    let paid = record i { status = BillInvoiceStatus.paid; paid_at = some now } in
    if leb_ℤ (left_to_pay i s.payments) (pos 0)
    then paid_up_to now paid (record s { invoices = save_bill paid s.invoices })
    else s

unfoldable pub new_payment_row : ℕ → ℕ → ℤ → BillPayment
new_payment_row pk invoice amount = record {
  pk = pk;
  invoice = invoice;
  amount = amount;
  status = BillPaymentStatus.succeeded;
}

-- `record_payment` on the locked row; `pk` is the key of the new payment.
unfoldable pub record_payment_found : ℕ → ℕ → ℤ → BillInvoice → Shop → Result BillingError Shop
unfolding settle_invoice new_payment_row
record_payment_found now pk amount i s =
    let payment = new_payment_row pk i.pk amount in
    raise_if (not (is_unpaid i.status)) not_payable
    >> raise_if (leb_ℤ amount (pos 0)) payment_not_positive
    >> raise_if (ltb_ℤ (left_to_pay i s.payments) amount) more_than_left
    >> ok (settle_invoice now i (record s { payments = payment ∷ s.payments }))

unfoldable pub record_payment : ℕ → ℕ → ℤ → ℕ → Shop → Result BillingError Shop
unfolding record_payment_found find_bill
record_payment now pk amount invoice s = elim (find_bill invoice s.invoices) [
  | none ↦ err no_such_row
  | some i ↦ record_payment_found now pk amount i s
]

-- What is taken back of the period that the invoice bought.
unfoldable pub shortened : BillInvoice → Subscription → Subscription
unfolding end_of
shortened i u = elim u.period_end [
  | none ↦ u
  | some t ↦
      if leb (end_of i.period_end) t
      then record u { period_end = some (end_of (i.period_start - 1)) }
      else u
]

unfoldable pub reopen : ℕ → BillInvoice → Shop → Result BillingError Shop
unfolding shortened refresh_shop save_bill
reopen now i s =
    let invoices =
      save_bill (record i { status = BillInvoiceStatus.opened; paid_at = none }) s.invoices in
    refresh_shop now (record s {
      invoices = invoices;
      subscription = elim s.subscription [ none ↦ none | some u ↦ some (shortened i u) ];
    })

-- The end of `reverse_payment`, on the row of its invoice.
unfoldable pub after_reversal : ℕ → ℕ → Shop → Result BillingError Shop
unfolding reopen find_bill left_to_pay
after_reversal now invoice s = elim (find_bill invoice s.invoices) [
  | none ↦ err no_such_row
  | some i ↦
      if is_bill_paid i.status && ltb_ℤ (pos 0) (left_to_pay i s.payments)
      then reopen now i s
      else ok s
]

-- `reverse_payment`; the reason is not kept.
unfoldable pub reverse_payment : ℕ → ℕ → Shop → Result BillingError Shop
unfolding after_reversal find_bill_payment save_bill_payment
reverse_payment now payment s = elim (find_bill_payment payment s.payments) [
  | none ↦ err no_such_row
  | some p ↦
      let reversed = record p { status = BillPaymentStatus.refunded } in
      raise_if (not (is_succeeded p.status)) already_reversed
      >> after_reversal now p.invoice
          (record s { payments = save_bill_payment reversed s.payments })
]

unfoldable pub any_succeeded : ℕ → List BillPayment → Bool
unfolding is_succeeded
any_succeeded k [] = false
any_succeeded k (p ∷ ps) = (p.invoice == k && is_succeeded p.status) || any_succeeded k ps

-- `void_invoice`
unfoldable pub void_bill : ℕ → ℕ → Shop → Result BillingError Shop
unfolding find_bill any_succeeded refresh_shop save_bill
void_bill now invoice s = elim (find_bill invoice s.invoices) [
  | none ↦ err no_such_row
  | some i ↦
      raise_if (is_bill_void i.status) already_void
      >> raise_if (any_succeeded i.pk s.payments) has_payments
      >> refresh_shop now (record s {
        invoices = save_bill (record i { status = BillInvoiceStatus.voided }) s.invoices;
      })
]
