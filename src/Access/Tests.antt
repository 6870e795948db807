-- ===== src/Access/Tests.antt =====
-- A small shop's staff, and the theorems at it.
use retail_system.Prelude.{◌≡◌, refl, true, false, none, some, List, [], ◌∷◌, arith, pos, neg, ok}
use retail_system.Access.DenyLaws.{is_withheld, NoneGranted, deny_beats_grants, override_is_limited}
use retail_system.Access.GuardLaws.{
  no_escalation, staff_change_keeps_rank, has_owner, with_role, staff_change_keeps_owner,
}
use retail_system.Access.Guards.{outranks, refuse_staff_change}
use retail_system.Access.Resolve.{
  not_at_branch, withheld, Decision, sized, entry_of, is_deny, refused, allowed_up_to,
  resolve_entry, plan_excludes, resolve,
}
use retail_system.Access.State.{
  ValueType, Effect, PermissionSpec, Role, Membership, Branch, Tenant, find_spec, covers_branch,
}
use retail_system.Tenancy.State.{SubscriptionStatus}

-- Voiding a sale is dangerous and needs no feature.
abbrev void_spec : PermissionSpec
void_spec = record {
  code = 5;
  value_type = ValueType.amount;
  is_dangerous = true;
  requires_feature = none;
}

abbrev registry : List PermissionSpec
registry = void_spec ∷ []

abbrev duka : Tenant
duka = record { subscription = some SubscriptionStatus.active; feature_keys = [] }

-- Voids up to 500.
abbrev manager_role : Role
manager_role = record {
  is_owner_role = false;
  permissions =
      record { code = 5; granted = true; limit_value = some (pos 50_000); set_value = [] } ∷ [];
}

abbrev cashier_role : Role
cashier_role = record {
  is_owner_role = false;
  permissions =
      record { code = 5; granted = true; limit_value = some (pos 2_000); set_value = [] } ∷ [];
}

abbrev manager : Membership
manager = record {
  pk = 1;
  tenant = 9;
  role = manager_role;
  is_active = true;
  user_active = true;
  all_branches = false;
  branch_links = 1 ∷ 2 ∷ [];
  overrides = [];
}

abbrev cashier : Membership
cashier = record manager { pk = 2; role = cashier_role; branch_links = 2 ∷ [] }

abbrev owner : Membership
owner = record manager {
  pk = 3;
  role = record { is_owner_role = true; permissions = [] };
  all_branches = true;
  branch_links = [];
}

abbrev kariakoo : Branch
kariakoo = record { pk = 2; tenant = 9 }

outranks_run : outranks cashier manager ≡ false
unfolding outranks entry_of neg
outranks_run = refl

resolve_run :
    resolve registry duka cashier 5 (some kariakoo) (some (sized (pos 1_500)))
    ≡ ok (allowed_up_to (some (pos 2_000)))
unfolding resolve resolve_entry
resolve_run = refl

-- A manager does not work at the third branch.
elsewhere_run :
    resolve registry duka manager 5 (some (record { pk = 3; tenant = 9 })) none
    ≡ ok (refused not_at_branch none false)
unfolding resolve
elsewhere_run = refl

no_escalation_example :
    (d' : Decision) × (resolve registry duka manager 5 (some kariakoo) (some (sized (pos 1_500)))
      ≡ ok d')
    × (d'.allowed ≡ true)
no_escalation_example =
    no_escalation registry duka cashier manager 5 (some kariakoo) (some (sized (pos 1_500)))
      (allowed_up_to (some (pos 2_000))) outranks_run refl resolve_run refl

-- The manager makes the cashier a manager.
change_run :
    refuse_staff_change (owner ∷ manager ∷ cashier ∷ []) manager cashier (some manager_role) ≡ none
unfolding refuse_staff_change entry_of neg
change_run = refl

staff_change_keeps_rank_example : outranks (record cashier { role = manager_role }) manager ≡ false
staff_change_keeps_rank_example =
    staff_change_keeps_rank (owner ∷ manager ∷ cashier ∷ []) manager cashier manager_role change_run

-- Two owners, of whom one makes the other a manager.
abbrev partner : Membership
partner = record owner { pk = 4 }

demotion_run : refuse_staff_change (owner ∷ partner ∷ []) owner partner (some manager_role) ≡ none
unfolding refuse_staff_change
demotion_run = refl

owners_run : has_owner (owner ∷ partner ∷ []) ≡ true
unfolding has_owner
owners_run = refl

staff_change_keeps_owner_example :
    has_owner (with_role 4 manager_role (owner ∷ partner ∷ [])) ≡ true
staff_change_keeps_owner_example =
    staff_change_keeps_owner (owner ∷ partner ∷ []) owner partner manager_role
      ((λ e. ground arith), ((λ e. refl), tt)) owners_run demotion_run

abbrev withheld_manager : Membership
withheld_manager = record manager {
  overrides = record { code = 5; effect = Effect.deny; limit_value = none; set_value = [] } ∷ [];
}

denied_run : resolve registry duka withheld_manager 5 none none ≡ ok (refused withheld none true)
unfolding resolve
denied_run = refl

withheld_run : is_withheld 5 withheld_manager.overrides ≡ true
unfolding is_withheld is_deny
withheld_run = refl

deny_only : NoneGranted 5 withheld_manager.overrides
unfolding is_deny
deny_only = ((λ e. refl), tt)

deny_beats_grants_example : (refused withheld none true).allowed ≡ false
deny_beats_grants_example =
    deny_beats_grants registry duka withheld_manager 5 none none (refused withheld none true)
      withheld_run deny_only refl denied_run

override_is_limited_example :
    (spec : PermissionSpec) × (find_spec 5 registry ≡ some spec)
    × (spec.is_dangerous ≡ true)
    × (plan_excludes duka spec ≡ false)
    × (covers_branch withheld_manager none ≡ true)
    × ((refused withheld none true).allowed ≡ false)
override_is_limited_example =
    override_is_limited registry duka withheld_manager 5 none none (refused withheld none true)
      denied_run refl
