-- ===== src/Access/Escalation.antt =====
-- Nobody gains by the people whom they take charge of: apps/accounts/guards.py against
-- apps/core/permissions.py.
use mathlib.Core.Path.{subst}
use retail_system.Prelude.{
  ℕ, ◌≡◌, refl, inl, inr, true, false, not, ◌&&◌, ◌||◌, Option, none, some, List, [], ◌∷◌, arith,
  ◌==◌, Bool-cases, Option-cases, ℤ, ok, >>=-eq-ok,
}
use retail_system.Access.Guards.{
  decimal_or_none, is_owner, held, is_beyond, is_blank_limit, is_bad_limit, may_grant, limit_input,
  rows_fit, role_fits, covers_all, any_beyond, outranks,
}
use retail_system.Access.Resolve.{
  Decision, Value, sized, chosen, role_entry, override_entry, entry_of, is_deny, is_options,
  allowed_up_to, is_option, exceeds, resolve_entry, resolve_member,
}
use retail_system.Access.State.{
  PermissionSpec, RolePermission, UserPermission, Membership, Branch, Entry, mem_key, is_subset,
  covers_branch,
}
use retail_system.Inventory.Batches.{covers}

mem_key-is_subset :
    (k : ℕ) (xs ys : List ℕ) → is_subset xs ys ≡ true → mem_key k xs ≡ true → mem_key k ys ≡ true
unfolding mem_key is_subset
mem_key-is_subset k [] ys s h = cc
mem_key-is_subset k (x ∷ xs) ys s h = ground (arith, mem_key-is_subset k xs ys)

-- What an entry grants may be given out by the actor.
abbrev Givable : Membership → ℕ → Option Entry → Type 0
Givable actor code none = Unit
Givable actor code (some e) =
    is_deny e.effect ≡ false → may_grant actor code (limit_input e.limit) e.options ≡ true

role_entry-Givable :
    (actor : Membership) (code : ℕ) (ps : List RolePermission) (e : Option Entry)
    → rows_fit actor ps ≡ true
    → Givable actor code e
    → Givable actor code (role_entry code ps e)
unfolding role_entry rows_fit
role_entry-Givable actor code [] e f m = m
role_entry-Givable actor code (p ∷ ps) e f m =
    let rest : rows_fit actor ps ≡ true = ground arith in
    elim (Bool-cases (p.granted && p.code == code)) [
      | inl c ↦ rw c (role_entry-Givable actor code ps _ rest (λ d. ground arith))
      | inr c ↦ rw c (role_entry-Givable actor code ps e rest m)
    ]

override_entry-Givable :
    (actor : Membership) (code : ℕ) (os : List UserPermission) (e : Option Entry)
    → any_beyond actor os ≡ false
    → Givable actor code e
    → Givable actor code (override_entry code os e)
unfolding override_entry any_beyond
override_entry-Givable actor code [] e f m = m
override_entry-Givable actor code (o ∷ os) e f m =
    let rest : any_beyond actor os ≡ false = ground arith in
    elim (Bool-cases (o.code == code)) [
      | inl c ↦ rw c (override_entry-Givable actor code os _ rest (λ d. ground arith))
      | inr c ↦ rw c (override_entry-Givable actor code os e rest m)
    ]

exceeds_mono :
    (l l' : Option ℤ) (v : Option Value)
    → is_beyond l' l ≡ false
    → exceeds l v ≡ ok false
    → exceeds l' v ≡ ok false
unfolding exceeds is_beyond
exceeds_mono l none v b h = refl
exceeds_mono none (some m) v b h = cc
exceeds_mono (some n) (some m) none b h = refl
exceeds_mono (some n) (some m) (some (sized k)) b h = ground arith
exceeds_mono (some n) (some m) (some (chosen c)) b h = cc

is_option_mono :
    (v : Option Value) (os os' : List ℕ)
    → is_subset os os' ≡ true
    → is_option v os ≡ true
    → is_option v os' ≡ true
unfolding is_option
is_option_mono none os os' s h = refl
is_option_mono (some (sized n)) os os' s h = cc
is_option_mono (some (chosen c)) os os' s h = mem_key-is_subset c os os' s h

-- What an entry allows.
resolve_entry_facts :
    (spec : PermissionSpec) (e : Entry) (v : Option Value) (d : Decision)
    → resolve_entry spec e v ≡ ok d
    → d.allowed ≡ true
    → (exceeds e.limit v ≡ ok false)
      × (is_options spec.value_type && not (is_option v e.options) ≡ false)
unfolding resolve_entry
resolve_entry_facts spec e v d h a =
    let (over, f, g) = >>=-eq-ok (exceeds e.limit v) _ h in ground arith

-- An attempt that a smaller grant allows is allowed by a larger one.
resolve_entry_mono :
    (spec : PermissionSpec) (e e' : Entry) (v : Option Value) (d : Decision)
    → is_beyond e'.limit e.limit ≡ false
    → is_subset e.options e'.options ≡ true
    → resolve_entry spec e v ≡ ok d
    → d.allowed ≡ true
    → resolve_entry spec e' v ≡ ok (allowed_up_to e'.limit)
unfolding resolve_entry
resolve_entry_mono spec e e' v d b s h a =
    let (f, g) = resolve_entry_facts spec e v d h a in
    ground
      (arith, f, g, exceeds_mono e.limit e'.limit v b f, is_option_mono v e.options e'.options s)

may_grant_facts :
    (actor : Membership) (code : ℕ) (l : Option ℤ) (os : List ℕ)
    → is_owner actor ≡ false
    → may_grant actor code (limit_input l) os ≡ true
    → (e : Entry) × (entry_of actor code ≡ some e)
      × (is_deny e.effect ≡ false)
      × (is_beyond e.limit l ≡ false)
      × (is_subset os e.options ≡ true)
unfolding may_grant held limit_input decimal_or_none is_bad_limit is_blank_limit is_beyond
may_grant_facts actor code l os n h = elim (Option-cases (entry_of actor code)) [
  | inl e ↦ absurd (ground arith)
  | inr (e, f) ↦ (e, f, ground (arith, f), ground (arith, f), ground (arith, f))
]

-- The rest of what is asked: the branches.
covers_branch_mono :
    (target actor : Membership) (b : Option Branch)
    → target.tenant ≡ actor.tenant
    → target.role.is_owner_role ≡ false
    → covers_all actor
        || (not target.all_branches && is_subset target.branch_links actor.branch_links)
      ≡ true
    → covers_branch target b ≡ true
    → covers_branch actor b ≡ true
unfolding covers_branch covers_all
covers_branch_mono target actor none t o c h = refl
covers_branch_mono target actor (some b) t o c h =
    ground (arith, mem_key-is_subset b.pk target.branch_links actor.branch_links)

member_facts :
    (m : Membership) (spec : PermissionSpec) (b : Option Branch) (v : Option Value) (d : Decision)
    → resolve_member m spec b v ≡ ok d
    → d.allowed ≡ true
    → (covers_branch m b ≡ true)
      × (e : Entry) × (entry_of m spec.code ≡ some e)
      × (is_deny e.effect ≡ false)
      × (resolve_entry spec e v ≡ ok d)
unfolding resolve_member
member_facts m spec b v d h a = elim (Option-cases (entry_of m spec.code)) [
  | inl f ↦ absurd (ground arith)
  | inr (e, f) ↦ (ground (arith, f), e, f, ground (arith, f), ground (arith, f))
]

pub outranks_facts :
    (target actor : Membership)
    → outranks target actor ≡ false
    → is_owner actor ≡ false
    → (target.role.is_owner_role ≡ false)
      × (rows_fit actor target.role.permissions ≡ true)
      × (covers_all actor
            || (not target.all_branches && is_subset target.branch_links actor.branch_links)
          ≡ true)
      × (any_beyond actor target.overrides ≡ false)
unfolding outranks role_fits
outranks_facts target actor h n = ground arith

may_give_some :
    (actor : Membership) (code : ℕ) (target : Membership) (e : Entry)
    → Givable actor code
        (override_entry code target.overrides (role_entry code target.role.permissions none))
    → entry_of target code ≡ some e
    → is_deny e.effect ≡ false
    → may_grant actor code (limit_input e.limit) e.options ≡ true
unfolding entry_of
may_give_some actor code target e m f = subst (Givable actor code) f m

pub member_no_escalation :
    (target actor : Membership) (spec : PermissionSpec) (b : Option Branch) (v : Option Value)
    → (d : Decision) → outranks target actor ≡ false
    → is_owner actor ≡ false
    → target.tenant ≡ actor.tenant
    → resolve_member target spec b v ≡ ok d
    → d.allowed ≡ true
    → (d' : Decision) × (resolve_member actor spec b v ≡ ok d') × (d'.allowed ≡ true)
unfolding resolve_member
member_no_escalation target actor spec b v d r n t h a =
    let (o, rows, places, exceptions) = outranks_facts target actor r n in
    let (covers, e, f, grants, got) = member_facts target spec b v d h a in
    let given =
      override_entry-Givable actor spec.code target.overrides
        (role_entry spec.code target.role.permissions none) exceptions
        (role_entry-Givable actor spec.code target.role.permissions none rows tt) in
    let may = may_give_some actor spec.code target e given f grants in
    let (e', f', grants', within, options) =
      may_grant_facts actor spec.code e.limit e.options n may in
    let covers' = covers_branch_mono target actor b t o places covers in
    let got' = resolve_entry_mono spec e e' v d within options got a in
    (allowed_up_to e'.limit, ground (arith, covers', f', grants', got'), refl)
