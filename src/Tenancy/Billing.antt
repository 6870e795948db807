-- ===== src/Tenancy/Billing.antt =====
-- Bills to a shop and the status that they leave it: apps/tenancy/billing.py.
use retail_system.Prelude.{
  ℕ, ◌+◌, ◌-◌, ◌*◌, Bool, true, false, not, ◌&&◌, ◌||◌, Option, none, some, List, [], ◌∷◌, ltb, leb,
  if◌then◌else◌, ℤ, pos, leb_ℤ, Result, err, ok, raise_if, ◌>>◌,
}
use retail_system.Tenancy.State.{
  SubscriptionStatus, BillingCycle, BillInvoiceStatus, Subscription, BillInvoice, Shop,
  BillingError, no_subscription, period_backwards, nothing_to_bill, already_covered, no_such_row,
  day_of, is_unpaid, is_bill_paid, is_bill_void, is_trialing, is_cancelled, is_suspended,
  with_subscription,
}

-- The calendar of `relativedelta`, which is not of this repository: a date a month and a year on.
pub record Calendar : Type 0 where
  pub next_month : ℕ → ℕ
  pub next_year : ℕ → ℕ

unfoldable pub unit_price : Subscription → ℕ
unit_price u = elim u.cycle [
  | BillingCycle.annual ↦ u.plan.price_annual
  | BillingCycle.monthly ↦ u.plan.price_monthly
]

-- `price_for`
unfoldable pub period_price : Shop → Subscription → ℕ
unfolding unit_price
period_price s u = unit_price u * (if leb s.branches 1 then 1 else s.branches)

unfoldable pub period_after : Calendar → Subscription → ℕ → ℕ × ℕ
period_after c u start = elim u.cycle [
  | BillingCycle.annual ↦ (start, c.next_year start - 1)
  | BillingCycle.monthly ↦ (start, c.next_month start - 1)
]

unfoldable pub ever_paid : List BillInvoice → Bool
unfolding is_bill_paid
ever_paid [] = false
ever_paid (i ∷ is) = is_bill_paid i.status || ever_paid is

-- The day after the paid-up date, or today where there is none.
unfoldable pub after_paid : ℕ → Subscription → ℕ
unfolding day_of
after_paid now u = elim u.period_end [ none ↦ day_of now | some t ↦ day_of t + 1 ]

unfoldable pub next_period_start : ℕ → Shop → Subscription → ℕ
unfolding ever_paid is_trialing day_of after_paid
next_period_start now s u = elim u.trial_ends_at [
  | none ↦ after_paid now u
  | some t ↦
      if is_trialing u.status || not (ever_paid s.invoices) then day_of t else after_paid now u
]

-- `clash`: an invoice that is not void covers part of the period.
unfoldable pub is_covered : ℕ → ℕ → List BillInvoice → Bool
unfolding is_bill_void
is_covered start end [] = false
is_covered start end (i ∷ is) =
    (not (is_bill_void i.status) && leb i.period_start end && leb start i.period_end)
    || is_covered start end is

unfoldable pub new_bill_row : ℕ → ℕ → ℕ → ℤ → Option ℕ → BillInvoice
new_bill_row pk start end amount due = record {
  pk = pk;
  period_start = start;
  period_end = end;
  total = amount;
  status = BillInvoiceStatus.opened;
  due_date = some (elim due [ none ↦ start | some d ↦ d ]);
  paid_at = none;
}

unfoldable pub asked_amount : Option ℤ → Shop → Subscription → ℤ
unfolding period_price
asked_amount amount s u = elim amount [ none ↦ pos (period_price s u) | some a ↦ a ]

-- `raise_invoice`; `pk` is the key of the new row, whose number `save_with_number` settles.
unfoldable pub raise_invoice : ℕ → ℕ → ℕ → Option ℤ → Option ℕ → Shop → Result BillingError Shop
unfolding asked_amount is_covered new_bill_row
raise_invoice pk start end amount due s = elim s.subscription [
  | none ↦ err no_subscription
  | some u ↦
      let asked = asked_amount amount s u in
      raise_if (ltb end start) period_backwards
      >> raise_if (leb_ℤ asked (pos 0)) nothing_to_bill
      >> raise_if (is_covered start end s.invoices) already_covered
      >> ok (record s { invoices = new_bill_row pk start end asked due ∷ s.invoices })
]

-- An invoice that is due, by its date or without one by the start of its period.
unfoldable pub owes : ℕ → List BillInvoice → Bool
unfolding is_unpaid
owes today [] = false
owes today (i ∷ is) =
    (is_unpaid i.status
      && elim i.due_date [ none ↦ leb i.period_start today | some d ↦ leb d today ])
    || owes today is

-- A trial that is not over.
unfoldable pub on_trial : ℕ → Subscription → Bool
on_trial now u = elim u.trial_ends_at [ none ↦ false | some t ↦ ltb now t ]

-- `status_now`
unfoldable pub status_now : ℕ → Subscription → List BillInvoice → SubscriptionStatus
unfolding owes day_of on_trial
status_now now u is =
    if on_trial now u
    then SubscriptionStatus.trialing
    else if owes (day_of now) is
    then SubscriptionStatus.past_due
    else SubscriptionStatus.active

-- Past due does not lift a shop out of its grace or its suspension.
unfoldable pub keeps_status : SubscriptionStatus → SubscriptionStatus → Bool
keeps_status SubscriptionStatus.past_due SubscriptionStatus.grace = true
keeps_status SubscriptionStatus.past_due SubscriptionStatus.suspended = true
keeps_status _ _ = false

-- `_refresh_status`
unfoldable pub refresh_shop : ℕ → Shop → Result BillingError Shop
unfolding status_now keeps_status is_cancelled is_suspended
refresh_shop now s = elim s.subscription [
  | none ↦ err no_such_row
  | some u ↦
      let wanted = status_now now u s.invoices in
      if is_cancelled u.status || is_suspended s.status || keeps_status wanted u.status
      then ok s
      else ok (with_subscription (record u { status = wanted }) s)
]
