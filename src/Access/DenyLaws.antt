-- ===== src/Access/DenyLaws.antt =====
-- What a deny and a manager's approval can do: `resolve` of apps/core/permissions.py.
use retail_system.Prelude.{
  ℕ, ◌≡◌, refl, inl, inr, Bool, true, false, ◌&&◌, ◌||◌, Option, none, some, List, [], ◌∷◌, arith,
  ◌==◌, Bool-cases, Option-cases, All, ok, >>=-eq-ok,
}
use retail_system.Access.Resolve.{
  Decision, Value, role_entry, override_entry, entry_of, is_deny, exceeds, resolve_entry,
  plan_excludes, resolve_member, resolve_spec, resolve,
}
use retail_system.Access.State.{
  PermissionSpec, UserPermission, Membership, Branch, Tenant, Entry, find_spec, covers_branch,
}

-- Some exception of the person denies the permission.
unfoldable pub is_withheld : ℕ → List UserPermission → Bool
is_withheld code [] = false
is_withheld code (o ∷ os) = (o.code == code && is_deny o.effect) || is_withheld code os

-- No exception of the person grants it.
abbrev pub NoneGranted : ℕ → List UserPermission → Type 0
NoneGranted code = All λ o. o.code ≡ code → is_deny o.effect ≡ true

abbrev pub Withholds : Option Entry → Type 0
Withholds o = (e : Entry) × (o ≡ some e) × (is_deny e.effect ≡ true)

stays_denied :
    (code : ℕ) (os : List UserPermission) (o : Option Entry)
    → NoneGranted code os
    → Withholds o
    → Withholds (override_entry code os o)
unfolding override_entry
stays_denied code [] o n d = d
stays_denied code (x ∷ xs) o n d = elim (Bool-cases (x.code == code)) [
  | inl e ↦ rw e (stays_denied code xs _ n.1 (_, refl, n.0 (ground (arith, e))))
  | inr e ↦ rw e (stays_denied code xs o n.1 d)
]

becomes_denied :
    (code : ℕ) (os : List UserPermission) (o : Option Entry)
    → NoneGranted code os
    → is_withheld code os ≡ true
    → Withholds (override_entry code os o)
unfolding override_entry is_withheld
becomes_denied code [] o n w = cc
becomes_denied code (x ∷ xs) o n w = elim (Bool-cases (x.code == code)) [
  | inl e ↦ rw e (stays_denied code xs _ n.1 (_, refl, n.0 (ground (arith, e))))
  | inr e ↦ rw e (becomes_denied code xs o n.1 (ground (arith, e, w)))
]

find_spec_at :
    (code : ℕ) (registry : List PermissionSpec) (spec : PermissionSpec)
    → find_spec code registry ≡ some spec
    → spec.code ≡ code
unfolding find_spec
find_spec_at code [] spec h = cc
find_spec_at code (s ∷ ss) spec h = ground (arith, find_spec_at code ss spec)

-- Whatever a role grants, what an exception withholds from a person and none gives back is refused,
-- at every branch and for every value, unless the role is the owner's.
pub deny_beats_grants :
    (registry : List PermissionSpec) (t : Tenant) (m : Membership) (code : ℕ)
    → (b : Option Branch) (v : Option Value) (d : Decision) → is_withheld code m.overrides ≡ true
    → NoneGranted code m.overrides
    → m.role.is_owner_role ≡ false
    → resolve registry t m code b v ≡ ok d
    → d.allowed ≡ false
unfolding resolve resolve_spec resolve_member entry_of
deny_beats_grants registry t m code b v d w n o h =
    let (e, f, g) = becomes_denied code m.overrides (role_entry code m.role.permissions none) n w in
    elim (Option-cases (find_spec code registry)) [
      | inl x ↦ absurd (ground arith)
      | inr (spec, x) ↦ ground (arith, x, f, g, find_spec_at code registry spec x)
    ]

resolve_entry_override :
    (spec : PermissionSpec) (e : Entry) (v : Option Value) (d : Decision)
    → resolve_entry spec e v ≡ ok d
    → d.can_override ≡ true
    → (spec.is_dangerous ≡ true) × (d.allowed ≡ false)
unfolding resolve_entry
resolve_entry_override spec e v d h c =
    let (over, f, g) = >>=-eq-ok (exceeds e.limit v) _ h in ground arith

resolve_member_override :
    (m : Membership) (spec : PermissionSpec) (b : Option Branch) (v : Option Value) (d : Decision)
    → resolve_member m spec b v ≡ ok d
    → d.can_override ≡ true
    → (spec.is_dangerous ≡ true) × (covers_branch m b ≡ true) × (d.allowed ≡ false)
unfolding resolve_member
resolve_member_override m spec b v d h c = elim (Option-cases (entry_of m spec.code)) [
  | inl f ↦ ground arith
  | inr (e, f) ↦ ground (arith, f, resolve_entry_override spec e v d)
]

-- A manager can approve only what was refused of a dangerous permission that the plan includes, at
-- a branch where the person works.
pub override_is_limited :
    (registry : List PermissionSpec) (t : Tenant) (m : Membership) (code : ℕ)
    → (b : Option Branch) (v : Option Value) (d : Decision) → resolve registry t m code b v ≡ ok d
    → d.can_override ≡ true
    → (spec : PermissionSpec) × (find_spec code registry ≡ some spec)
      × (spec.is_dangerous ≡ true)
      × (plan_excludes t spec ≡ false)
      × (covers_branch m b ≡ true)
      × (d.allowed ≡ false)
unfolding resolve resolve_spec
override_is_limited registry t m code b v d h c = elim (Option-cases (find_spec code registry)) [
  | inl x ↦ absurd (ground arith)
  | inr (spec, x) ↦
      let r = resolve_member_override m spec b v d in
      (
        spec,
        x,
        ground (arith, x, r),
        ground (arith, x, r),
        ground (arith, x, r),
        ground (arith, x, r),
      )
]
