-- ===== src/Access/Guards.antt =====
-- Who may change whose access: apps/accounts/guards.py.
use retail_system.Prelude.{
  ℕ, Bool, true, false, not, ◌&&◌, ◌||◌, Option, none, some, List, [], ◌∷◌, ◌==◌, if◌then◌else◌, ℤ,
  pos, neg, ltb_ℤ, length,
}
use retail_system.Access.Resolve.{entry_of, is_deny}
use retail_system.Access.State.{RolePermission, Role, UserPermission, Membership, Entry, is_subset}
use retail_system.Purchasing.Receipts.{wanted}

-- What is typed as a limit.
pub data LimitInput : Type 0 where
  no_limit bad_limit : LimitInput
  limit_of : ℤ → LimitInput

-- LARGEST of apps/core/parsing.py, in cents.
abbrev pub largest : ℕ
largest = 999_999_999_900

-- `decimal_or_none`, of what is typed as a limit.
unfoldable pub decimal_or_none : LimitInput → Option ℤ
decimal_or_none no_limit = none
decimal_or_none bad_limit = none
decimal_or_none (limit_of n) =
    if ltb_ℤ (pos largest) n || ltb_ℤ n (neg (pos largest)) then none else some n

unfoldable pub is_owner : Membership → Bool
is_owner m = m.is_active && m.role.is_owner_role

-- `_held`
unfoldable pub held : Membership → ℕ → Option Entry
unfolding entry_of is_deny
held m code = elim (entry_of m code) [
  | none ↦ none
  | some e ↦ if is_deny e.effect then none else some e
]

-- `held_limit is not None and (wanted is None or wanted > held_limit)`
unfoldable pub is_beyond : Option ℤ → Option ℤ → Bool
is_beyond none wanted = false
is_beyond (some h) none = true
is_beyond (some h) (some w) = ltb_ℤ h w

unfoldable pub is_blank_limit : LimitInput → Bool
is_blank_limit no_limit = true
is_blank_limit _ = false

-- A limit that is typed and is no number, or is below nothing.
unfoldable pub is_bad_limit : LimitInput → Bool
unfolding decimal_or_none is_blank_limit
is_bad_limit l =
    not (is_blank_limit l)
    && elim (decimal_or_none l) as (λ _. Bool) [ none ↦ true | some w ↦ ltb_ℤ w (pos 0) ]

unfoldable pub may_grant : Membership → ℕ → LimitInput → List ℕ → Bool
unfolding is_owner held is_bad_limit is_beyond decimal_or_none is_subset
may_grant actor code limit options =
    if is_owner actor then true else elim (held actor code) as (λ _. Bool) [
      | none ↦ false
      | some e ↦
          not (is_bad_limit limit)
          && not (is_beyond e.limit (decimal_or_none limit))
          && is_subset options e.options
    ]

unfoldable pub limit_input : Option ℤ → LimitInput
limit_input none = no_limit
limit_input (some n) = limit_of n

-- The `all(…)` over the rows of the role that are granted.
unfoldable pub rows_fit : Membership → List RolePermission → Bool
unfolding may_grant limit_input
rows_fit actor [] = true
rows_fit actor (p ∷ ps) =
    (not p.granted || may_grant actor p.code (limit_input p.limit_value) p.set_value)
    && rows_fit actor ps

unfoldable pub role_fits : Membership → Role → Bool
unfolding is_owner rows_fit
role_fits actor role =
    if is_owner actor
    then true
    else if role.is_owner_role
    then false
    else rows_fit actor role.permissions

-- `_covers_all`
unfoldable pub covers_all : Membership → Bool
covers_all m = m.role.is_owner_role || m.all_branches

unfoldable pub branches_fit : Membership → Bool → List ℕ → Bool
unfolding is_owner covers_all is_subset
branches_fit actor all_branches branches =
    if is_owner actor || covers_all actor
    then true
    else if all_branches
    then false
    else is_subset branches actor.branch_links

-- The `any(…)` over the exceptions of the target that grant something.
unfoldable pub any_beyond : Membership → List UserPermission → Bool
unfolding may_grant limit_input is_deny
any_beyond actor [] = false
any_beyond actor (o ∷ os) =
    (not (is_deny o.effect) && not (may_grant actor o.code (limit_input o.limit_value) o.set_value))
    || any_beyond actor os

unfoldable pub outranks : Membership → Membership → Bool
unfolding is_owner role_fits covers_all is_subset any_beyond
outranks target actor =
    if is_owner actor
    then false
    else if target.role.is_owner_role
    then true
    else if not (role_fits actor target.role)
    then true
    else if not (covers_all actor)
        && (target.all_branches || not (is_subset target.branch_links actor.branch_links))
    then true
    else any_beyond actor target.overrides

-- An invitation names a role and branches, and none are all.
unfoldable pub may_handle_invitation : Membership → Role → List ℕ → Bool
unfolding is_owner role_fits branches_fit
may_handle_invitation actor role branch_ids =
    is_owner actor
    || (role_fits actor role && branches_fit actor (length branch_ids == 0) branch_ids)

-- `other_active_owner_exists`, over the memberships of the shop.
unfoldable pub other_active_owner_exists : ℕ → List Membership → Bool
other_active_owner_exists pk [] = false
other_active_owner_exists pk (m ∷ ms) =
    (m.role.is_owner_role && m.is_active && m.user_active && not (m.pk == pk))
    || other_active_owner_exists pk ms

pub data Refusal : Type 0 where
  own_access owner_only stronger_person owner_role_only stronger_role last_owner : Refusal

unfoldable pub gives_owner_role : Option Role → Bool
gives_owner_role none = false
gives_owner_role (some r) = r.is_owner_role

unfoldable pub gives_too_much : Membership → Option Role → Bool
unfolding role_fits
gives_too_much actor none = false
gives_too_much actor (some r) = not (role_fits actor r)

unfoldable pub takes_owner_role : Membership → Option Role → Bool
takes_owner_role target none = false
takes_owner_role target (some r) = target.role.is_owner_role && not r.is_owner_role

unfoldable pub refuse_staff_change :
    List Membership → Membership → Membership → Option Role → Option Refusal
unfolding is_owner outranks gives_owner_role gives_too_much takes_owner_role
    other_active_owner_exists
refuse_staff_change staff actor target new_role =
    if target.pk == actor.pk
    then some own_access
    else if target.role.is_owner_role && not (is_owner actor)
    then some owner_only
    else if outranks target actor
    then some stronger_person
    else if gives_owner_role new_role && not (is_owner actor)
    then some owner_role_only
    else if gives_too_much actor new_role
    then some stronger_role
    else if takes_owner_role target new_role && not (other_active_owner_exists target.pk staff)
    then some last_owner
    else none
