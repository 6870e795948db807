-- ===== src/Tenancy/Renewal.antt =====
-- What the night does to a shop, and what a person can give it: `renew_due` and
-- `extend_subscription` of apps/tenancy/billing.py, `begin` and `enter_grace` of
-- apps/tenancy/models.py, and `advance_subscriptions` of apps/tenancy/tasks.py for one shop.
use retail_system.Prelude.{
  ℕ, ◌+◌, ◌*◌, Bool, true, false, not, ◌&&◌, ◌||◌, Option, none, some, List, [], ◌∷◌, ltb, ◌==◌,
  if◌then◌else◌, is_some, ℤ, pos, pos_part, ltb_ℤ, leb_ℤ, Result, ok, raise_if, ◌>>◌, get_ok,
}
use retail_system.Tenancy.Billing.{
  Calendar, period_price, period_after, next_period_start, is_covered, raise_invoice,
}
use retail_system.Tenancy.State.{
  TenantStatus, SubscriptionStatus, Subscription, BillInvoice, Shop, BillingError, no_days,
  too_many_days, day_length, day_of, start_of, end_of, is_unpaid, is_trialing, is_active,
  is_past_due, is_in_grace, is_suspended, is_by, with_subscription,
}

-- `timedelta(days=n)`
unfoldable pub days : ℕ → ℕ
days n = n * day_length

-- The later of now and the date there is, and so many days on.
unfoldable pub pushed : ℕ → ℕ → Option ℕ → ℕ
unfolding days
pushed now n current = elim current [
  | none ↦ now + days n
  | some t ↦ (if ltb t now then now else t) + days n
]

-- The status of a subscription that is given days, and the date that moves.
unfoldable pub extended : ℕ → ℕ → Bool → Subscription → Subscription × ℕ
unfolding pushed is_trialing
extended now n as_trial u =
    if as_trial
    then (let until = pushed now n (if is_trialing u.status then u.trial_ends_at else none) in
        (
          record u {
            trial_ends_at = some until;
            period_end = some until;
            status = SubscriptionStatus.trialing;
          },
          until,
        ))
    else elim u.status [
      | SubscriptionStatus.trialing ↦ (
        record u {
          trial_ends_at = some (pushed now n u.trial_ends_at);
          period_end = some (pushed now n u.trial_ends_at);
        },
        pushed now n u.trial_ends_at,
      )
      | SubscriptionStatus.active ↦
          (record u { period_end = some (pushed now n u.period_end) }, pushed now n u.period_end)
      | _ ↦ (
        record u {
          grace_ends_at = some (pushed now n u.grace_ends_at);
          status = SubscriptionStatus.grace;
        },
        pushed now n u.grace_ends_at,
      )
    ]

-- `extend_subscription`: the shop after it, and the date until which it may trade.
unfoldable pub extend_subscription :
    ℕ → ℤ → Bool → Subscription → Shop → Result BillingError (Shop × ℕ)
unfolding extended is_suspended
extend_subscription now n as_trial u s =
    let (u', until) = extended now (pos_part n) as_trial u in
    let s' = with_subscription u' s in
    raise_if (leb_ℤ n (pos 0)) no_days
    >> raise_if (ltb_ℤ (pos 365) n) too_many_days
    >> ok
        ((if is_suspended s.status then record s' { status = TenantStatus.active } else s'), until)

-- `Subscription.begin`
unfoldable pub begin_subscription : Calendar → ℕ → Subscription → Subscription
unfolding period_after days day_of start_of end_of
begin_subscription c now u =
    let (start, end) = period_after c u (day_of now) in
    if not (u.plan.trial_days == 0)
    then record u {
      status = SubscriptionStatus.trialing;
      trial_ends_at = some (now + days u.plan.trial_days);
      period_end = some (now + days u.plan.trial_days);
    }
    else record u {
      status = SubscriptionStatus.active;
      trial_ends_at = none;
      period_start = start_of start;
      period_end = some (end_of end);
    }

-- `enter_grace`, which looks at the clock itself; `grace_days` is the setting SUBSCRIPTION_GRACE_DAYS.
unfoldable pub enter_grace : ℕ → ℕ → Subscription → Subscription
unfolding days
enter_grace grace_days clock u = record u {
  status = SubscriptionStatus.grace;
  grace_ends_at = some (clock + days grace_days);
}

-- INVOICE_LEAD_DAYS
abbrev pub lead_days : ℕ
lead_days = 7

unfoldable pub is_renewing : SubscriptionStatus → Bool
is_renewing SubscriptionStatus.suspended = false
is_renewing SubscriptionStatus.cancelled = false
is_renewing _ = true

-- The subscriptions that `upcoming` holds.
unfoldable pub is_upcoming : ℕ → Subscription → Bool
unfolding is_renewing days is_by
is_upcoming now u =
    is_renewing u.status
    && is_some u.period_end
    && (is_by u.period_end (now + days lead_days) || is_by u.trial_ends_at (now + days lead_days))

unfoldable pub any_unpaid : List BillInvoice → Bool
unfolding is_unpaid
any_unpaid [] = false
any_unpaid (i ∷ is) = is_unpaid i.status || any_unpaid is

-- A refusal to bill is passed over.
unfoldable pub try_invoice : ℕ → ℕ → ℕ → ℕ → Shop → Shop
unfolding raise_invoice
try_invoice pk start end price s =
    get_ok s (raise_invoice pk start end (some (pos price)) (some start) s)

-- The turn of the loop for a plan that costs nothing: it renews itself when its period is over.
unfoldable pub renew_free : ℕ → ℕ × ℕ → Subscription → Shop → Shop
unfolding is_by is_active start_of end_of
renew_free now period u s =
    if is_by u.period_end now && is_active u.status
    then with_subscription
        (record u { period_start = start_of period.0; period_end = some (end_of period.1) }) s
    else s

-- The turn for a plan that is paid: the renewal is billed ahead, and an end that has passed lapses.
unfoldable pub renew_paid : ℕ → ℕ → ℕ × ℕ → ℕ → Subscription → Shop → Shop
unfolding is_covered any_unpaid try_invoice is_by is_active
renew_paid pk now period price u s =
    let covered = is_covered period.0 period.1 s.invoices || any_unpaid s.invoices in
    let s' = if covered then s else try_invoice pk period.0 period.1 price s in
    if is_active u.status && is_by u.period_end now
    then with_subscription (record u { status = SubscriptionStatus.past_due }) s'
    else s'

-- `renew_due` for one shop.
unfoldable pub renew_due : Calendar → ℕ → ℕ → Shop → Shop
unfolding is_upcoming period_after next_period_start period_price renew_free renew_paid
renew_due c pk now s = elim s.subscription [
  | none ↦ s
  | some u ↦
      let period = period_after c u (next_period_start now s u) in
      let price = period_price s u in
      if not (is_upcoming now u)
      then s
      else if price == 0
      then renew_free now period u s
      else renew_paid pk now period price u s
]

unfoldable pub end_trial : ℕ → Subscription → Subscription
unfolding is_trialing is_by
end_trial now u =
    if is_trialing u.status && is_by u.trial_ends_at now
    then record u { status = SubscriptionStatus.past_due }
    else u

unfoldable pub start_grace : ℕ → ℕ → ℕ → Subscription → Subscription
unfolding is_past_due is_by enter_grace
start_grace grace_days clock now u =
    if is_past_due u.status && is_by u.period_end now then enter_grace grace_days clock u else u

unfoldable pub end_grace : ℕ → Subscription → Subscription
unfolding is_in_grace is_by
end_grace now u =
    if is_in_grace u.status && is_by u.grace_ends_at now
    then record u { status = SubscriptionStatus.suspended }
    else u

-- The three loops behind `renew_due`, one after the other, at the time that the job took when it
-- began; `clock` is what `enter_grace` reads.
unfoldable pub lapse : ℕ → ℕ → ℕ → Subscription → Subscription
unfolding end_trial start_grace end_grace
lapse grace_days clock now u = end_grace now (start_grace grace_days clock now (end_trial now u))

-- `advance_subscriptions`
unfoldable pub advance : Calendar → ℕ → ℕ → ℕ → ℕ → Shop → Shop
unfolding renew_due lapse
advance c grace_days clock pk now s =
    let s' = renew_due c pk now s in
    elim s'.subscription [
      | none ↦ s'
      | some u ↦ with_subscription (lapse grace_days clock now u) s'
    ]
