-- ===== src/Tenancy/ExtensionLaws.antt =====
-- More time for a shop: `extend_subscription` of apps/tenancy/billing.py.
use retail_system.Prelude.{
  ℕ, ◌+◌, ◌≤◌, ◌≡◌, Bool, true, false, not, Option, none, some, arith, ℤ, pos, pos_part, ◌≤ℤ◌, ◌<ℤ◌,
  ok,
}
use retail_system.Tenancy.Renewal.{days, pushed, extended, extend_subscription}
use retail_system.Tenancy.State.{
  SubscriptionStatus, Subscription, Shop, is_read_only, is_suspended, with_subscription,
}

pushed_lem :
    (now n t : ℕ) (current : Option ℕ)
    → (now + days n ≤ pushed now n current) × (current ≡ some t → t + days n ≤ pushed now n current)
unfolding pushed
pushed_lem now n t none = (omega arith, λ e. cc)
pushed_lem now n t (some a) = ground arith

-- The status of a shop that may trade.
unfoldable pub may_trade : SubscriptionStatus → Bool
unfolding is_read_only
may_trade st = not (is_read_only st)

-- The date on which a shop stops trading, by the clock that it is on.
unfoldable pub deadline : Subscription → Option ℕ
deadline u = elim u.status [
  | SubscriptionStatus.trialing ↦ u.trial_ends_at
  | SubscriptionStatus.active ↦ u.period_end
  | _ ↦ u.grace_ends_at
]

extended_lem :
    (now n t : ℕ) (u : Subscription)
    → let (u', until) = extended now n false u in
      (deadline u' ≡ some until)
      × (may_trade u'.status ≡ true)
      × (now + days n ≤ until)
      × (deadline u ≡ some t → t + days n ≤ until)
unfolding extended deadline may_trade is_read_only
extended_lem now n t u =
    let a = pushed_lem now n t u.trial_ends_at in
    let b = pushed_lem now n t u.period_end in
    let c = pushed_lem now n t u.grace_ends_at in ground (arith, a, b, c)

-- More time that is granted, whatever the state of the shop and of its tenant: between one day and
-- a year, it may trade until at least so many days from now, and at least so many days after the
-- date that counted for it before.
pub extend_subscription_effect :
    (now t : ℕ) (n : ℤ) (u : Subscription) (s s' : Shop) (until : ℕ)
    → deadline u ≡ some t
    → extend_subscription now n false u s ≡ ok (s', until)
    → (pos 0 <ℤ n)
      × (n ≤ℤ pos 365)
      × (is_suspended s'.status ≡ false)
      × (now + days (pos_part n) ≤ until)
      × (t + days (pos_part n) ≤ until)
      × (u' : Subscription) × (s'.subscription ≡ some u')
      × (deadline u' ≡ some until)
      × (may_trade u'.status ≡ true)
unfolding extend_subscription with_subscription is_suspended
extend_subscription_effect now t n u s s' until d h =
    let e = extended_lem now (pos_part n) t u in
    (
      ground (arith, h),
      ground (arith, h),
      ground (arith, h),
      ground (arith, h, e),
      ground (arith, h, e, d),
      (extended now (pos_part n) false u).0,
      ground (arith, h),
      ground (arith, h, e),
      e.1,
    )
