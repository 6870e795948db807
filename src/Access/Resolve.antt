-- ===== src/Access/Resolve.antt =====
-- `resolve` and `effective_permissions` of apps/core/permissions.py.
use retail_system.Prelude.{
  ℕ, Bool, true, false, not, ◌&&◌, Option, none, some, List, [], ◌∷◌, ◌==◌, if◌then◌else◌, ℤ, ltb_ℤ,
  Result, err, ok, ◌>>=◌,
}
use retail_system.Access.State.{
  ValueType, Effect, PermissionSpec, RolePermission, UserPermission, Membership, Branch, Tenant,
  Entry, AccessError, unknown_permission, not_a_number, mem_key, find_spec, has_feature,
  covers_branch,
}

-- Why a permission is refused.
pub data Reason : Type 0 where
  not_in_plan not_at_branch withheld not_granted over_limit option_refused : Reason

pub record Decision : Type 0 where
  pub allowed : Bool
  pub reason : Option Reason
  pub limit : Option ℤ
  pub can_override : Bool

-- What is attempted: an amount or a percentage, or an option, whose text is no number.
pub data Value : Type 0 where
  sized : ℤ → Value
  chosen : ℕ → Value

-- The grants of the role, in the order of their rows; a later row of a code takes its place.
unfoldable pub role_entry : ℕ → List RolePermission → Option Entry → Option Entry
role_entry code [] e = e
role_entry code (p ∷ ps) e = role_entry code ps (
    if p.granted && p.code == code
    then some (record { effect = Effect.grant; limit = p.limit_value; options = p.set_value })
    else e)

-- The exceptions, which are applied last.
unfoldable pub override_entry : ℕ → List UserPermission → Option Entry → Option Entry
override_entry code [] e = e
override_entry code (o ∷ os) e = override_entry code os (
    if o.code == code
    then some (record { effect = o.effect; limit = o.limit_value; options = o.set_value })
    else e)

-- `effective_permissions(membership).get(code)`
unfoldable pub entry_of : Membership → ℕ → Option Entry
unfolding role_entry override_entry
entry_of m code = override_entry code m.overrides (role_entry code m.role.permissions none)

unfoldable pub is_deny : Effect → Bool
is_deny Effect.deny = true
is_deny Effect.grant = false

unfoldable pub is_options : ValueType → Bool
is_options ValueType.options = true
is_options _ = false

abbrev pub refused : Reason → Option ℤ → Bool → Decision
refused reason limit can_override = record {
  allowed = false;
  reason = some reason;
  limit = limit;
  can_override = can_override;
}

abbrev pub allowed_up_to : Option ℤ → Decision
allowed_up_to limit = record { allowed = true; reason = none; limit = limit; can_override = false }

-- `value not in allowed_options`, where a number is no option.
unfoldable pub is_option : Option Value → List ℕ → Bool
unfolding mem_key
is_option none os = true
is_option (some (sized n)) os = false
is_option (some (chosen c)) os = mem_key c os

-- The limit that an attempt exceeds. `Decimal(…)` of an option raises.
unfoldable pub exceeds : Option ℤ → Option Value → Result AccessError Bool
exceeds none v = ok false
exceeds (some l) none = ok false
exceeds (some l) (some (sized n)) = ok (ltb_ℤ l n)
exceeds (some l) (some (chosen c)) = err not_a_number

-- The last two tests, on the entry of a grant.
unfoldable pub resolve_entry : PermissionSpec → Entry → Option Value → Result AccessError Decision
unfolding exceeds is_option is_options
resolve_entry spec e value = do
  over ← exceeds e.limit value
  ok (
      if over
      then refused over_limit e.limit spec.is_dangerous
      else if is_options spec.value_type && not (is_option value e.options)
      then refused option_refused none spec.is_dangerous
      else allowed_up_to e.limit)

unfoldable pub plan_excludes : Tenant → PermissionSpec → Bool
unfolding has_feature
plan_excludes t spec = elim spec.requires_feature [ none ↦ false | some f ↦ not (has_feature t f) ]

-- The tests behind the plan and the owner's short cut.
unfoldable pub resolve_member :
    Membership → PermissionSpec → Option Branch → Option Value → Result AccessError Decision
unfolding covers_branch entry_of is_deny resolve_entry
resolve_member m spec branch value =
    if not (covers_branch m branch)
    then ok (refused not_at_branch none false)
    else elim (entry_of m spec.code) as (λ _. Result AccessError Decision) [
      | none ↦ ok (refused not_granted none spec.is_dangerous)
      | some e ↦
          if is_deny e.effect
          then ok (refused withheld none spec.is_dangerous)
          else resolve_entry spec e value
    ]

unfoldable pub resolve_spec :
    Tenant
    → Membership
    → PermissionSpec
    → Option Branch
    → Option Value
    → Result AccessError Decision
unfolding plan_excludes resolve_member
resolve_spec t m spec branch value =
    if plan_excludes t spec
    then ok (refused not_in_plan none false)
    else if m.role.is_owner_role
    then ok (allowed_up_to none)
    else resolve_member m spec branch value

unfoldable pub resolve :
    List PermissionSpec
    → Tenant
    → Membership
    → ℕ
    → Option Branch
    → Option Value
    → Result AccessError Decision
unfolding find_spec resolve_spec
resolve registry t m code branch value = elim (find_spec code registry) [
  | none ↦ err unknown_permission
  | some spec ↦ resolve_spec t m spec branch value
]
