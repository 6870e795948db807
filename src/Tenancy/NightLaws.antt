-- ===== src/Tenancy/NightLaws.antt =====
-- What the nights do to a shop that owes nothing, and to one that does not pay:
-- apps/tenancy/tasks.py.
use retail_system.Prelude.{
  ℕ, ◌+◌, ◌≤◌, ◌<◌, ◌≡◌, refl, ap, ◌∙◌, Bool, true, false, ◌&&◌, ◌||◌, some, List, [], ◌∷◌, arith,
  ◌==◌, if◌then◌else◌,
}
use retail_system.Tenancy.Billing.{
  Calendar, unit_price, period_price, period_after, next_period_start, raise_invoice,
}
use retail_system.Tenancy.Renewal.{
  days, enter_grace, is_renewing, is_upcoming, try_invoice, renew_free, renew_paid, renew_due,
  end_trial, start_grace, end_grace, lapse, advance,
}
use retail_system.Tenancy.State.{
  SubscriptionStatus, Subscription, Shop, start_of, end_of, is_trialing, is_active, is_past_due,
  is_in_grace, is_read_only, is_by, with_subscription,
}

try_invoice_keeps :
    (pk start end price : ℕ) (s : Shop)
    → let s' = try_invoice pk start end price s in
      (s'.subscription ≡ s.subscription) × (s'.branches ≡ s.branches)
unfolding try_invoice raise_invoice
try_invoice_keeps pk start end price s = ground arith

-- The subscription behind `renew_due`, for a plan that is paid.
unfoldable pub lapsed : ℕ → Subscription → Subscription
lapsed now u =
    if is_active u.status && is_by u.period_end now
    then record u { status = SubscriptionStatus.past_due }
    else u

renew_paid_subscription :
    (pk now : ℕ) (p : ℕ × ℕ) (price : ℕ) (u : Subscription) (s : Shop)
    → s.subscription ≡ some u
    → (renew_paid pk now p price u s).subscription ≡ some (lapsed now u)
unfolding renew_paid lapsed with_subscription
renew_paid_subscription pk now p price u s e = ground (arith, try_invoice_keeps pk p.0 p.1 price s)

upcoming_lem :
    (now : ℕ) (u : Subscription)
    → is_active u.status ≡ true
    → is_by u.period_end now ≡ true
    → is_upcoming now u ≡ true
unfolding is_upcoming is_by is_active is_renewing
upcoming_lem now u a b = ground arith

renew_due_paid :
    (c : Calendar) (pk now : ℕ) (u : Subscription) (s : Shop)
    → s.subscription ≡ some u
    → (period_price s u == 0) ≡ false
    → (renew_due c pk now s).subscription ≡ some (lapsed now u)
unfolding renew_due lapsed
renew_due_paid c pk now u s e n =
    let p = period_after c u (next_period_start now s u) in
    ground (arith, renew_paid_subscription pk now p (period_price s u) u s e, upcoming_lem now u)

renew_due_inactive :
    (c : Calendar) (pk now : ℕ) (u : Subscription) (s : Shop)
    → s.subscription ≡ some u
    → is_active u.status ≡ false
    → (renew_due c pk now s).subscription ≡ some u
unfolding renew_due renew_free lapsed with_subscription
renew_due_inactive c pk now u s e a =
    let p = period_after c u (next_period_start now s u) in
    ground (arith, renew_paid_subscription pk now p (period_price s u) u s e)

advance_subscription :
    (c : Calendar) (grace_days clock pk now : ℕ) (u : Subscription) (s : Shop)
    → (renew_due c pk now s).subscription ≡ some u
    → (advance c grace_days clock pk now s).subscription ≡ some (lapse grace_days clock now u)
unfolding advance with_subscription
advance_subscription c grace_days clock pk now u s e = ground arith

-- The trial or the period that was paid is over, and no grace has begun.
unfoldable pub has_run_out : ℕ → Subscription → Bool
has_run_out now u =
    is_by u.period_end now
    && ((is_trialing u.status && is_by u.trial_ends_at now)
        || is_active u.status
        || is_past_due u.status)

lapse_over :
    (grace_days clock now : ℕ) (u : Subscription)
    → 0 < grace_days
    → now ≤ clock
    → has_run_out now u ≡ true
    → lapse grace_days clock now (lapsed now u) ≡ record u {
      status = SubscriptionStatus.grace;
      grace_ends_at = some (clock + days grace_days);
    }
unfolding lapse end_trial start_grace end_grace enter_grace lapsed has_run_out days is_by
    is_trialing is_active is_past_due is_in_grace
lapse_over grace_days clock now u g m o = ground arith

lapse_grace :
    (grace_days clock later t : ℕ) (u : Subscription)
    → is_in_grace u.status ≡ true
    → u.grace_ends_at ≡ some t
    → t ≤ later
    → lapse grace_days clock later u ≡ record u { status = SubscriptionStatus.suspended }
unfolding lapse end_trial start_grace end_grace is_by is_trialing is_past_due is_in_grace
lapse_grace grace_days clock later t u a e l = ground arith

-- A shop whose paid time is over and that does not pay is in its grace after the next night, in
-- which it may still trade, and stops trading in the first night after its days of grace.
pub unpaid_shop_stops :
    (c : Calendar) (grace_days clock clock' pk pk' now later : ℕ) (u : Subscription) (s : Shop)
    → s.subscription ≡ some u
    → (period_price s u == 0) ≡ false
    → 0 < grace_days
    → now ≤ clock
    → has_run_out now u ≡ true
    → clock + days grace_days ≤ later
    → let s' = advance c grace_days clock pk now s in
      let in_grace = record u {
        status = SubscriptionStatus.grace;
        grace_ends_at = some (clock + days grace_days);
      } in
      (s'.subscription ≡ some in_grace)
      × (is_read_only in_grace.status ≡ false)
      × ((advance c grace_days clock' pk' later s').subscription
          ≡ some (record in_grace { status = SubscriptionStatus.suspended }))
unfolding is_read_only is_in_grace is_active
unpaid_shop_stops c grace_days clock clock' pk pk' now later u s e n g m o l =
    let s' = advance c grace_days clock pk now s in
    let in_grace = (record u {
      status = SubscriptionStatus.grace;
      grace_ends_at = some (clock + days grace_days);
    }) in
    let first =
      advance_subscription c grace_days clock pk now (lapsed now u) s
        (renew_due_paid c pk now u s e n)
      ∙ ap some (lapse_over grace_days clock now u g m o) in
    (
      first,
      refl,
      advance_subscription c grace_days clock' pk' later in_grace s'
            (renew_due_inactive c pk' later in_grace s' first refl)
          ∙ ap some
              (lapse_grace grace_days clock' later (clock + days grace_days) in_grace refl refl l),
    )

-- A shop on a plan that costs it nothing, past any trial.
abbrev pub CostsNothing : Shop → Type 0
CostsNothing s =
    (u : Subscription) × (s.subscription ≡ some u)
    × (u.status ≡ SubscriptionStatus.active)
    × (period_price s u ≡ 0)

-- The nights of the job, each with its time, the key of a new bill and what `enter_grace` reads.
unfoldable pub run_nights : Calendar → ℕ → List (ℕ × ℕ × ℕ) → Shop → Shop
unfolding advance
run_nights c grace_days [] s = s
run_nights c grace_days (night ∷ later) s =
    run_nights c grace_days later (advance c grace_days night.2 night.1 night.0 s)

night-CostsNothing :
    (c : Calendar) (grace_days clock pk now : ℕ) (s : Shop)
    → CostsNothing s
    → let s' = advance c grace_days clock pk now s in CostsNothing s' × (s'.invoices ≡ s.invoices)
unfolding advance lapse end_trial start_grace end_grace is_trialing is_past_due is_in_grace
    renew_due renew_free with_subscription period_price unit_price
night-CostsNothing c grace_days clock pk now s (u, e, a, z) =
    let s' = renew_due c pk now s in
    let p = period_after c u (next_period_start now s u) in
    let moved = is_upcoming now u && (is_by u.period_end now && is_active u.status) in
    let u' : Subscription =
      if moved
      then record u { period_start = start_of p.0; period_end = some (end_of p.1) }
      else u in
    (
      (u', ground (arith, e, a, z), ground (arith, a), ground (arith, e, a, z)),
      ground (arith, e, a, z),
    )

-- However many nights pass, a shop on a plan that costs nothing stays active and is billed nothing.
pub free_shop_never_lapses :
    (c : Calendar) (grace_days : ℕ) (nights : List (ℕ × ℕ × ℕ)) (s : Shop)
    → CostsNothing s
    → let s' = run_nights c grace_days nights s in CostsNothing s' × (s'.invoices ≡ s.invoices)
unfolding run_nights
free_shop_never_lapses c grace_days [] s f = (f, refl)
free_shop_never_lapses c grace_days (night ∷ later) s f =
    let s' = advance c grace_days night.2 night.1 night.0 s in
    let (f', e) = night-CostsNothing c grace_days night.2 night.1 night.0 s f in
    let (f'', e') = free_shop_never_lapses c grace_days later s' f' in (f'', e' ∙ e)
