-- ===== src/Access/GuardLaws.antt =====
-- The promises of apps/accounts/guards.py and apps/core/permissions.py.
use retail_system.Prelude.{
  ℕ, ◌≡◌, refl, inl, inr, Bool, true, false, ◌&&◌, ◌||◌, Option, none, some, List, [], ◌∷◌, arith,
  ◌==◌, if◌then◌else◌, Bool-cases, Option-cases, All, ok,
}
use retail_system.Access.Escalation.{outranks_facts, member_no_escalation}
use retail_system.Access.Guards.{
  is_owner, outranks, other_active_owner_exists, gives_owner_role, gives_too_much, takes_owner_role,
  refuse_staff_change,
}
use retail_system.Access.Resolve.{
  Decision, Value, allowed_up_to, plan_excludes, resolve_member, resolve_spec, resolve,
}
use retail_system.Access.State.{PermissionSpec, Role, Membership, Branch, Tenant, find_spec}

no_escalation_spec :
    (t : Tenant) (target actor : Membership) (spec : PermissionSpec) (b : Option Branch)
    → (v : Option Value) (d : Decision) → outranks target actor ≡ false
    → target.tenant ≡ actor.tenant
    → actor.role.is_owner_role ≡ false
    → resolve_spec t target spec b v ≡ ok d
    → d.allowed ≡ true
    → (d' : Decision) × (resolve_spec t actor spec b v ≡ ok d') × (d'.allowed ≡ true)
unfolding resolve_spec outranks is_owner
no_escalation_spec t target actor spec b v d r s o h a =
    let n : is_owner actor ≡ false = ground (arith, o) in
    let (plain, _, _, _) = outranks_facts target actor r n in
    let p : plan_excludes t spec ≡ false = ground (arith, h, a) in
    let h' : resolve_member target spec b v ≡ ok d = ground (arith, h, a, plain) in
    let (d', e, f) = member_no_escalation target actor spec b v d r n s h' a in
    (d', ground (arith, p, o, e), f)

-- Whoever may take charge of a colleague gains nothing by it: what the colleague is allowed, at a
-- branch and to an extent, the one in charge is allowed too.
pub no_escalation :
    (registry : List PermissionSpec) (t : Tenant) (target actor : Membership) (code : ℕ)
    → (b : Option Branch) (v : Option Value) (d : Decision) → outranks target actor ≡ false
    → target.tenant ≡ actor.tenant
    → resolve registry t target code b v ≡ ok d
    → d.allowed ≡ true
    → (d' : Decision) × (resolve registry t actor code b v ≡ ok d') × (d'.allowed ≡ true)
unfolding resolve resolve_spec
no_escalation registry t target actor code b v d r s h a =
    elim (Option-cases (find_spec code registry)) [
      | inl e ↦ absurd (ground arith)
      | inr (spec, e) ↦ elim (Bool-cases actor.role.is_owner_role) [
        | inl o ↦ (allowed_up_to none, ground (arith, e, o, h, a), refl)
        | inr o ↦
            let h' : resolve_spec t target spec b v ≡ ok d = ground (arith, h, e) in
            let (d', f, g) = no_escalation_spec t target actor spec b v d r s o h' a in
            (d', ground (arith, e, f), g)
      ]
    ]

-- A role that somebody is allowed to give to a colleague leaves the colleague, with all exceptions
-- and branches, below the giver.
pub staff_change_keeps_rank :
    (staff : List Membership) (actor target : Membership) (new_role : Role)
    → refuse_staff_change staff actor target (some new_role) ≡ none
    → outranks (record target { role = new_role }) actor ≡ false
unfolding refuse_staff_change outranks gives_owner_role gives_too_much
staff_change_keeps_rank staff actor target new_role h = ground arith

-- An active owner whose account is active.
unfoldable pub has_owner : List Membership → Bool
has_owner [] = false
has_owner (m ∷ ms) = (m.role.is_owner_role && m.is_active && m.user_active) || has_owner ms

-- The rows once a person is given another role.
unfoldable pub with_role : ℕ → Role → List Membership → List Membership
with_role pk r [] = []
with_role pk r (m ∷ ms) = (if m.pk == pk then record m { role = r } else m) ∷ with_role pk r ms

has_owner-other :
    (pk : ℕ) (r : Role) (ms : List Membership)
    → other_active_owner_exists pk ms ≡ true
    → has_owner (with_role pk r ms) ≡ true
unfolding has_owner with_role other_active_owner_exists
has_owner-other pk r [] h = cc
has_owner-other pk r (m ∷ ms) h = ground (arith, has_owner-other pk r ms)

has_owner-promoted :
    (pk : ℕ) (r : Role) (ms : List Membership)
    → r.is_owner_role ≡ true
    → has_owner ms ≡ true
    → has_owner (with_role pk r ms) ≡ true
unfolding has_owner with_role
has_owner-promoted pk r [] o h = cc
has_owner-promoted pk r (m ∷ ms) o h = ground (arith, has_owner-promoted pk r ms)

has_owner-plain :
    (target : Membership) (r : Role) (ms : List Membership)
    → target.role.is_owner_role ≡ false
    → All (λ m. m.pk ≡ target.pk → m.role ≡ target.role) ms
    → has_owner ms ≡ true
    → has_owner (with_role target.pk r ms) ≡ true
unfolding has_owner with_role
has_owner-plain target r [] o k h = cc
has_owner-plain target r (m ∷ ms) o k h = ground (arith, k.0, has_owner-plain target r ms o k.1)

-- A shop that has an active owner still has one after any change of role that is allowed.
pub staff_change_keeps_owner :
    (staff : List Membership) (actor target : Membership) (new_role : Role)
    → All (λ m. m.pk ≡ target.pk → m.role ≡ target.role) staff
    → has_owner staff ≡ true
    → refuse_staff_change staff actor target (some new_role) ≡ none
    → has_owner (with_role target.pk new_role staff) ≡ true
unfolding refuse_staff_change takes_owner_role
staff_change_keeps_owner staff actor target new_role k o h =
    elim (Bool-cases target.role.is_owner_role) [
      | inl e ↦ elim (Bool-cases new_role.is_owner_role) [
        | inl f ↦ has_owner-promoted target.pk new_role staff f o
        | inr f ↦ has_owner-other target.pk new_role staff (ground (arith, e, f, h))
      ]
      | inr e ↦ has_owner-plain target new_role staff e k o
    ]
