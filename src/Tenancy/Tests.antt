-- ===== src/Tenancy/Tests.antt =====
-- A shop on a plan for 10.00 a month, its bills and its nights, and the theorems at them.
use retail_system.Prelude.{
  ℕ, ◌+◌, ◌*◌, ◌≤◌, ◌≡◌, refl, true, false, none, some, [], arith, ◌==◌, pos, ◌+ℤ◌, ◌-ℤ◌, ok,
  get_ok,
}
use retail_system.Tenancy.Balance.{IsBalanced}
use retail_system.Tenancy.Billing.{Calendar, period_price, raise_invoice}
use retail_system.Tenancy.ExtensionLaws.{deadline}
use retail_system.Tenancy.Ledger.{
  raise_step, pay_step, BillingRun, no_change, then_step, billing-IsBalanced,
}
use retail_system.Tenancy.NightLaws.{has_run_out, unpaid_shop_stops, CostsNothing}
use retail_system.Tenancy.Payments.{record_payment, reverse_payment}
use retail_system.Tenancy.PeriodLaws.{billing-NoOverlap}
use retail_system.Tenancy.Periods.{NoOverlap}
use retail_system.Tenancy.Renewal.{days, extend_subscription, begin_subscription, advance}
use retail_system.Tenancy.State.{
  TenantStatus, SubscriptionStatus, BillingCycle, Plan, Subscription, BillInvoice, Shop, day_length,
  end_of, paid_amount, is_unpaid, is_trialing, is_read_only, is_by, find_bill, with_subscription,
}
use retail_system.Tenancy.UndoLaws.{reverse_undoes_payment}

abbrev calendar : Calendar
calendar = record { next_month = λ d. d + 30; next_year = λ d. d + 365 }

abbrev plan : Plan
plan = record { price_monthly = 1_000; price_annual = 10_000; trial_days = 14 }

-- On trial until the start of the tenth day.
abbrev subscription : Subscription
subscription = record {
  plan = plan;
  cycle = BillingCycle.monthly;
  status = SubscriptionStatus.trialing;
  trial_ends_at = some (10 * day_length);
  period_start = 0;
  period_end = some (10 * day_length);
  grace_ends_at = none;
}

abbrev shop : Shop
shop = record {
  status = TenantStatus.active;
  subscription = some subscription;
  invoices = [];
  payments = [];
  branches = 1;
}

abbrev billed : Shop
billed = get_ok shop (raise_invoice 1 10 39 none none shop)

raise_run : raise_invoice 1 10 39 none none shop ≡ ok billed
unfolding raise_invoice
raise_run = refl

abbrev paid_off : Shop
paid_off = get_ok billed (record_payment (9 * day_length) 7 (pos 1_000) 1 billed)

pay_run : record_payment (9 * day_length) 7 (pos 1_000) 1 billed ≡ ok paid_off
unfolding record_payment raise_invoice ◌-ℤ◌
pay_run = refl

-- Paying in the trial ends it and buys the period.
status_run :
    paid_off.subscription
    ≡ some (record subscription {
      status = SubscriptionStatus.active;
      period_start = 10 * day_length;
      period_end = some (end_of 39);
    })
unfolding record_payment raise_invoice ◌-ℤ◌ ◌+ℤ◌ with_subscription
status_run = refl

shop-IsBalanced : IsBalanced shop
unfolding find_bill paid_amount
shop-IsBalanced = (λ k. refl, tt)

new_key : find_bill 1 shop.invoices ≡ none
unfolding find_bill
new_key = refl

abbrev month : BillingRun shop paid_off
month =
    then_step (then_step no_change (raise_step 1 10 39 none none new_key raise_run))
      (pay_step (9 * day_length) 7 1 (pos 1_000) pay_run)

billing-IsBalanced_example : IsBalanced paid_off
billing-IsBalanced_example = billing-IsBalanced month shop-IsBalanced

billing-NoOverlap_example : NoOverlap paid_off.invoices
billing-NoOverlap_example = billing-NoOverlap month tt

billed-IsBalanced : IsBalanced billed
billed-IsBalanced =
    billing-IsBalanced (then_step no_change (raise_step 1 10 39 none none new_key raise_run))
      shop-IsBalanced

reverse_undoes_payment_example :
    (s'' : Shop) × (reverse_payment (11 * day_length) 7 paid_off ≡ ok s'')
    × ((j : ℕ) → paid_amount j s''.payments ≡ paid_amount j billed.payments)
    × (i : BillInvoice) × (find_bill 1 s''.invoices ≡ some i)
    × (is_unpaid i.status ≡ true)
    × (j : BillInvoice) × (find_bill 1 billed.invoices ≡ some j)
    × (i.total ≡ j.total)
unfolding raise_invoice
reverse_undoes_payment_example =
    reverse_undoes_payment (9 * day_length) (11 * day_length) 7 1 (pos 1_000) billed paid_off refl
      billed-IsBalanced pay_run

abbrev extended_shop : Shop × ℕ
extended_shop =
    get_ok (shop, 0) (extend_subscription (9 * day_length) (pos 5) false subscription shop)

extend_run :
    extend_subscription (9 * day_length) (pos 5) false subscription shop
    ≡ ok (extended_shop.0, extended_shop.1)
unfolding extend_subscription
extend_run = refl

deadline_run : deadline subscription ≡ some (10 * day_length)
unfolding deadline
deadline_run = refl

price_run : (period_price shop subscription == 0) ≡ false
unfolding period_price
price_run = refl

over_run : has_run_out (11 * day_length) subscription ≡ true
unfolding has_run_out is_by is_trialing
over_run = refl

late : 11 * day_length + 2 + days 7 ≤ 19 * day_length
unfolding days
late = omega arith

abbrev in_grace : Subscription
in_grace = record subscription {
  status = SubscriptionStatus.grace;
  grace_ends_at = some (11 * day_length + 2 + days 7);
}

unpaid_shop_stops_example :
    ((advance calendar 7 (11 * day_length + 2) 1 (11 * day_length) shop).subscription
      ≡ some in_grace)
    × (is_read_only SubscriptionStatus.grace ≡ false)
    × ((advance calendar 7
          (19 * day_length + 5)
          2
          (19 * day_length)
          (advance calendar 7 (11 * day_length + 2) 1 (11 * day_length) shop)).subscription
        ≡ some (record in_grace { status = SubscriptionStatus.suspended }))
unpaid_shop_stops_example =
    unpaid_shop_stops calendar 7 (11 * day_length + 2) (19 * day_length + 5) 1 2 (11 * day_length)
      (19 * day_length) subscription shop refl price_run (omega arith) (omega arith) over_run late

abbrev free_plan : Plan
free_plan = record { price_monthly = 0; price_annual = 0; trial_days = 0 }

-- A shop that begins on the free plan has no trial and its first month.
abbrev free_subscription : Subscription
free_subscription =
    begin_subscription calendar (3 * day_length) (record subscription { plan = free_plan })

begin_run :
    (free_subscription.status ≡ SubscriptionStatus.active)
    × (free_subscription.period_end ≡ some (end_of 32))
unfolding begin_subscription
begin_run = (refl, refl)

abbrev free_shop : Shop
free_shop = record shop { subscription = some free_subscription }

free_shop-CostsNothing : CostsNothing free_shop
unfolding period_price begin_subscription
free_shop-CostsNothing = (free_subscription, refl, refl, refl)
