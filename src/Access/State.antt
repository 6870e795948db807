-- ===== src/Access/State.antt =====
-- Permissions, roles and memberships: apps/accounts/models.py and the registry of
-- apps/core/permissions.py. A permission's code, a feature and an option are keys; a limit is a
-- signed amount.
use retail_system.Prelude.{
  ℕ, Bool, true, false, not, ◌&&◌, ◌||◌, Option, none, some, List, [], ◌∷◌, ◌==◌, if◌then◌else◌,
  is_some, ℤ, Result, ok, raise_if, ◌>>◌,
}
use retail_system.Tenancy.State.{SubscriptionStatus, is_cancelled}

pub data ValueType : Type 0 where
  boolean amount percent options : ValueType

pub data Effect : Type 0 where
  grant deny : Effect

pub record PermissionSpec : Type 0 where
  pub code : ℕ
  pub value_type : ValueType
  pub is_dangerous : Bool
  pub requires_feature : Option ℕ

pub record RolePermission : Type 0 where
  pub code : ℕ
  pub granted : Bool
  pub limit_value : Option ℤ
  pub set_value : List ℕ

pub record Role : Type 0 where
  pub is_owner_role : Bool
  pub permissions : List RolePermission

-- `UserPermission`: a person's exception.
pub record UserPermission : Type 0 where
  pub code : ℕ
  pub effect : Effect
  pub limit_value : Option ℤ
  pub set_value : List ℕ

-- `branch_links` are the keys of branches. `user_active` is that of the account.
pub record Membership : Type 0 where
  pub pk : ℕ
  pub tenant : ℕ
  pub role : Role
  pub is_active : Bool
  pub user_active : Bool
  pub all_branches : Bool
  pub branch_links : List ℕ
  pub overrides : List UserPermission

pub record Branch : Type 0 where
  pub pk : ℕ
  pub tenant : ℕ

-- The subscription of a tenant, if it has one, and the features of its plan.
pub record Tenant : Type 0 where
  pub subscription : Option SubscriptionStatus
  pub feature_keys : List ℕ

-- An entry of the map that `effective_permissions` builds.
pub record Entry : Type 0 where
  pub effect : Effect
  pub limit : Option ℤ
  pub options : List ℕ

pub data AccessError : Type 0 where
  unknown_permission declared_twice not_a_number : AccessError

unfoldable pub mem_key : ℕ → List ℕ → Bool
mem_key k [] = false
mem_key k (x ∷ xs) = x == k || mem_key k xs

-- `set(xs) <= set(ys)`
unfoldable pub is_subset : List ℕ → List ℕ → Bool
unfolding mem_key
is_subset [] ys = true
is_subset (x ∷ xs) ys = mem_key x ys && is_subset xs ys

-- `PermissionRegistry.get`
unfoldable pub find_spec : ℕ → List PermissionSpec → Option PermissionSpec
find_spec code [] = none
find_spec code (s ∷ ss) = if s.code == code then some s else find_spec code ss

-- `PermissionRegistry.register`
unfoldable pub register :
    PermissionSpec → List PermissionSpec → Result AccessError (List PermissionSpec)
unfolding find_spec
register spec registry =
    raise_if (is_some (find_spec spec.code registry)) declared_twice >> ok (spec ∷ registry)

-- `Tenant.has_feature`
unfoldable pub has_feature : Tenant → ℕ → Bool
unfolding is_cancelled mem_key
has_feature t key = elim t.subscription [
  | none ↦ false
  | some status ↦ not (is_cancelled status) && mem_key key t.feature_keys
]

-- `covers_branch`
unfoldable pub covers_branch : Membership → Option Branch → Bool
unfolding mem_key
covers_branch m none = true
covers_branch m (some b) =
    b.tenant == m.tenant && (m.role.is_owner_role || m.all_branches || mem_key b.pk m.branch_links)
