-- ===== src/Tenancy/State.antt =====
-- The rows that the platform keeps of one shop, from apps/tenancy/models.py. An instant is a number
-- of microseconds of local time, in a zone whose days all have the same length, and a date is a
-- number of days. Amounts are signed cents.
use retail_system.Prelude.{
  ℕ, ◌+◌, ◌-◌, ◌*◌, ◌/◌, Bool, true, false, ◌&&◌, Option, none, some, List, [], ◌∷◌, leb, ◌==◌,
  if◌then◌else◌, ℤ, pos, ◌+ℤ◌, ◌-ℤ◌,
}

pub data TenantStatus : Type 0 where
  active suspended cancelled : TenantStatus

pub data SubscriptionStatus : Type 0 where
  trialing active past_due grace suspended cancelled : SubscriptionStatus

pub data BillingCycle : Type 0 where
  monthly annual : BillingCycle

pub data BillInvoiceStatus : Type 0 where
  draft opened paid voided uncollectible : BillInvoiceStatus

pub data BillPaymentStatus : Type 0 where
  pending succeeded failed refunded : BillPaymentStatus

pub record Plan : Type 0 where
  pub price_monthly : ℕ
  pub price_annual : ℕ
  pub trial_days : ℕ

pub record Subscription : Type 0 where
  pub plan : Plan
  pub cycle : BillingCycle
  pub status : SubscriptionStatus
  pub trial_ends_at : Option ℕ
  pub period_start : ℕ
  pub period_end : Option ℕ
  pub grace_ends_at : Option ℕ

pub record BillInvoice : Type 0 where
  pub pk : ℕ
  pub period_start : ℕ
  pub period_end : ℕ
  pub total : ℤ
  pub status : BillInvoiceStatus
  pub due_date : Option ℕ
  pub paid_at : Option ℕ

pub record BillPayment : Type 0 where
  pub pk : ℕ
  pub invoice : ℕ
  pub amount : ℤ
  pub status : BillPaymentStatus

-- A tenant with its rows. `branches` is the number of branches in use.
pub record Shop : Type 0 where
  pub status : TenantStatus
  pub subscription : Option Subscription
  pub invoices : List BillInvoice
  pub payments : List BillPayment
  pub branches : ℕ

-- The refusals, `BillingError`, and the rows that are not there.
pub data BillingError : Type 0 where
  no_subscription period_backwards nothing_to_bill already_covered : BillingError
  not_payable payment_not_positive more_than_left : BillingError
  already_reversed already_void has_payments : BillingError
  no_days too_many_days : BillingError
  no_such_row : BillingError

abbrev pub day_length : ℕ
day_length = 86_400_000_000

-- `localtime(…).date()`
unfoldable pub day_of : ℕ → ℕ
day_of t = t / day_length

-- `make_aware(combine(day, time.min))`
unfoldable pub start_of : ℕ → ℕ
start_of d = d * day_length

-- `_end_of`: the last microsecond of the day.
unfoldable pub end_of : ℕ → ℕ
end_of d = d * day_length + (day_length - 1)

unfoldable pub is_succeeded : BillPaymentStatus → Bool
is_succeeded BillPaymentStatus.succeeded = true
is_succeeded _ = false

-- The sum of `payments.filter(status=SUCCEEDED)` of an invoice.
unfoldable pub paid_amount : ℕ → List BillPayment → ℤ
unfolding is_succeeded
paid_amount k [] = pos 0
paid_amount k (p ∷ ps) =
    let rest = paid_amount k ps in
    if p.invoice == k && is_succeeded p.status then p.amount +ℤ rest else rest

-- `Invoice.outstanding`
unfoldable pub left_to_pay : BillInvoice → List BillPayment → ℤ
unfolding paid_amount
left_to_pay i ps = i.total -ℤ paid_amount i.pk ps

-- `status in {OPEN, DRAFT}`
unfoldable pub is_unpaid : BillInvoiceStatus → Bool
is_unpaid BillInvoiceStatus.draft = true
is_unpaid BillInvoiceStatus.opened = true
is_unpaid _ = false

unfoldable pub is_bill_paid : BillInvoiceStatus → Bool
is_bill_paid BillInvoiceStatus.paid = true
is_bill_paid _ = false

unfoldable pub is_bill_void : BillInvoiceStatus → Bool
is_bill_void BillInvoiceStatus.voided = true
is_bill_void _ = false

unfoldable pub is_trialing : SubscriptionStatus → Bool
is_trialing SubscriptionStatus.trialing = true
is_trialing _ = false

unfoldable pub is_active : SubscriptionStatus → Bool
is_active SubscriptionStatus.active = true
is_active _ = false

unfoldable pub is_past_due : SubscriptionStatus → Bool
is_past_due SubscriptionStatus.past_due = true
is_past_due _ = false

unfoldable pub is_in_grace : SubscriptionStatus → Bool
is_in_grace SubscriptionStatus.grace = true
is_in_grace _ = false

unfoldable pub is_cancelled : SubscriptionStatus → Bool
is_cancelled SubscriptionStatus.cancelled = true
is_cancelled _ = false

-- `Subscription.is_read_only`
unfoldable pub is_read_only : SubscriptionStatus → Bool
is_read_only SubscriptionStatus.suspended = true
is_read_only SubscriptionStatus.cancelled = true
is_read_only _ = false

unfoldable pub is_suspended : TenantStatus → Bool
is_suspended TenantStatus.suspended = true
is_suspended _ = false

-- `filter(…__lte=t)`, which no null meets.
unfoldable pub is_by : Option ℕ → ℕ → Bool
is_by none t = false
is_by (some a) t = leb a t

unfoldable pub find_bill : ℕ → List BillInvoice → Option BillInvoice
find_bill k [] = none
find_bill k (i ∷ is) = if i.pk == k then some i else find_bill k is

-- `invoice.save()`
unfoldable pub save_bill : BillInvoice → List BillInvoice → List BillInvoice
save_bill i [] = []
save_bill i (j ∷ js) = if i.pk == j.pk then i ∷ js else j ∷ save_bill i js

unfoldable pub find_bill_payment : ℕ → List BillPayment → Option BillPayment
find_bill_payment k [] = none
find_bill_payment k (p ∷ ps) = if p.pk == k then some p else find_bill_payment k ps

unfoldable pub save_bill_payment : BillPayment → List BillPayment → List BillPayment
save_bill_payment p [] = []
save_bill_payment p (q ∷ qs) = if p.pk == q.pk then p ∷ qs else q ∷ save_bill_payment p qs

unfoldable pub with_subscription : Subscription → Shop → Shop
with_subscription u s = record s { subscription = some u }
