-- ===== src/Till/AcceptanceLaws.antt =====
-- What an accepted sale is: about `check_sale` of apps/pos/validation.py.
use mathlib.Core.Path.{subst}
use retail_system.Prelude.{
  ℕ, ◌*◌, ◌%◌, ◌≤◌, ◌<◌, ◌≡◌, refl, sym, ◌∙◌, ◌⊎◌, inl, inr, true, false, not, ◌&&◌, Option, none,
  some, List, arith, ltb, ◌==◌, Bool-cases, Option-cases, ℤ, pos, ◌+ℤ◌, ◌*ℤ◌, ◌≤ℤ◌, ok, raise_if,
  >>=-eq-ok,
}
use retail_system.Access.Resolve.{Decision}
use retail_system.Catalogue.{Product, Catalogue}
use retail_system.Till.Acceptance.{read_discount, check_rights, check_line}
use retail_system.Till.Amounts.{exact}
use retail_system.Till.Tender.{max_money}
use retail_system.Till.Validation.{
  RawLine, CheckedLine, Cashier, PhoneLine, bad_qty, bad_price, line_too_large, bad_discount,
  whole_units_only, max_qty, read_within, need, find_product, is_too_deep, forbids_discount,
  needs_whole,
}

-- A discount up to the cashier's limit and a hundredth of a per cent.
abbrev pub IsWithinLimit : Option ℤ → ℕ → ℕ → Type 0
IsWithinLimit none exact discount = Unit
IsWithinLimit (some l) exact discount = pos (10_000_000 * discount) ≤ℤ (l +ℤ pos 1) *ℤ pos exact

abbrev pub IsAllowedOff : ℕ → Cashier → CheckedLine → Type 0
IsAllowedOff f who l =
    (l.discount ≡ 0)
    ⊎ ((who.discount.allowed ≡ true)
        × IsWithinLimit who.discount.limit (l.qty * l.unit_price) (f * l.discount))

-- What the product asks of a line: no discount where it has none, whole units where it is not sold
-- in parts.
abbrev pub FitsProduct : ℕ → CheckedLine → Option Product → Type 0
FitsProduct f l none = Unit
FitsProduct f l (some p) =
    ((l.discount ≡ 0) ⊎ (p.discount_allowed ≡ true))
    × ((p.allows_decimal ≡ true) ⊎ (l.qty % (1000 * f) ≡ 0))

abbrev pub product_of : Catalogue → CheckedLine → Option Product
product_of c l = elim l.variant [ none ↦ none | some v ↦ c.products v ]

abbrev pub IsAccepted : ℕ → Catalogue → Cashier → CheckedLine → Type 0
IsAccepted f c who l =
    (0 < l.qty)
    × (l.qty ≤ f * max_qty)
    × (l.qty * l.unit_price ≤ 1000 * max_money * (f * f))
    × (1000 * (f * l.discount) ≤ l.qty * l.unit_price)
    × IsAllowedOff f who l
    × FitsProduct f l (product_of c l)

read_within-bounds :
    (low high n : ℕ) (raw : Option ℤ)
    → read_within (pos low) (pos high) raw ≡ some n
    → (low ≤ n) × (n ≤ high)
unfolding read_within
read_within-bounds low high n none h = cc
read_within-bounds low high n (some x) h = ground arith

read_discount-covered :
    (f exact n : ℕ) (raw : Option ℤ) → read_discount f exact raw ≡ some n → 1000 * (f * n) ≤ exact
unfolding read_discount
read_discount-covered f exact n none h = ground arith
read_discount-covered f exact n (some x) h = ground arith

pub need-some {ℓ κ} :
    {E : Type ℓ} {A : Type κ} (o : Option A) (e : E) {a : A} → need o e ≡ ok a → o ≡ some a
need-some none e h = cc
need-some (some b) e h = cc

within_limit :
    (d : Decision) (exact discount : ℕ)
    → is_too_deep d exact discount ≡ false
    → (d.allowed ≡ true) × IsWithinLimit d.limit exact discount
unfolding is_too_deep
within_limit d exact discount h = elim (Option-cases d.limit) [
  | inl e ↦ rw e (ground arith, tt)
  | inr (l, e) ↦ rw e (ground arith, ground arith)
]

check_rights-allows :
    (f : ℕ) (who : Cashier) (p : Option Product) (l : CheckedLine)
    → check_rights f who p (l.qty * l.unit_price) l.discount ≡ ok tt
    → IsAllowedOff f who l × ((l.discount ≡ 0) ⊎ (forbids_discount p ≡ false))
unfolding check_rights
check_rights-allows f who p l h = elim (Bool-cases (l.discount == 0)) [
  | inl e ↦ (inl (ground arith), inl (ground arith))
  | inr e ↦ (
    inr (within_limit who.discount (l.qty * l.unit_price) (f * l.discount) (ground arith)),
    inr (ground arith),
  )
]

find_product-found :
    (f : ℕ) (c : Catalogue) (who : Cashier) (phone : List PhoneLine) (used used' : List ℕ)
    (r : RawLine) (l : CheckedLine) (p : Option Product)
    → l.variant ≡ r.variant
    → find_product f c who phone used r l.qty l.unit_price ≡ ok (p, used')
    → product_of c l ≡ p
unfolding find_product
find_product-found f c who phone used used' r l p e h = elim (Option-cases r.variant) [
  | inl none_ ↦ elim (Option-cases r.cart_line) [ inl k ↦ ground arith | inr k ↦ ground arith ]
  | inr (v, some_) ↦ elim (Option-cases (c.products v)) [
    | inl k ↦ ground arith
    | inr k ↦ ground arith
  ]
]

fits_product :
    (f : ℕ) (l : CheckedLine) (p : Option Product)
    → (l.discount ≡ 0) ⊎ (forbids_discount p ≡ false)
    → (needs_whole p && not (l.qty % (1000 * f) == 0)) ≡ false
    → FitsProduct f l p
fits_product f l none d w = tt
fits_product f l (some p) d w = ground arith

pub check_line-IsAccepted :
    (f : ℕ) (c : Catalogue) (who : Cashier) (phone : List PhoneLine) (used used' : List ℕ)
    (r : RawLine) (l : CheckedLine) (p : Option Product)
    → check_line f c who phone used r ≡ ok (l, used', p)
    → IsAccepted f c who l × (product_of c l ≡ p)
unfolding check_line
check_line-IsAccepted f c who phone used used' r l p h =
    let (qty, e₁, h₁) =
      >>=-eq-ok (need (read_within (pos 1) (pos (f * max_qty)) r.qty) bad_qty) _ h in
    let (price, e₂, h₂) =
      >>=-eq-ok (need (read_within (pos 0) (pos (f * max_money)) r.unit_price) bad_price) _ h₁ in
    let (u, e₃, h₃) =
      >>=-eq-ok (raise_if (ltb (1000 * max_money * (f * f)) (qty * price)) line_too_large) _ h₂ in
    let (discount, e₄, h₄) =
      >>=-eq-ok (need (read_discount f (qty * price) r.discount) bad_discount) _ h₃ in
    let (found, e₅, h₅) = >>=-eq-ok (find_product f c who phone used r qty price) _ h₄ in
    let (u', e₆, h₆) = >>=-eq-ok (check_rights f who found.0 (qty * price) discount) _ h₅ in
    let (u'', e₇, h₇) =
      >>=-eq-ok (raise_if (needs_whole found.0 && not (qty % (1000 * f) == 0)) whole_units_only) _
        h₆ in
    let line : CheckedLine = record {
      variant = r.variant;
      qty = qty;
      unit_price = price;
      discount = discount;
    } in
    let same : line ≡ l = ground arith in
    let product : found.0 ≡ p = ground arith in
    let bounds = read_within-bounds 1 (f * max_qty) qty r.qty (need-some _ _ e₁) in
    let covered = read_discount-covered f (qty * price) discount r.discount (need-some _ _ e₄) in
    let rights = check_rights-allows f who found.0 line e₆ in
    let is_there = find_product-found f c who phone used found.1 r line found.0 refl e₅ in
    subst (λ x. IsAccepted f c who x × (product_of c x ≡ p)) same
      (
        (
          bounds.0,
          bounds.1,
          ground arith,
          covered,
          rights.0,
          subst (FitsProduct f line) (sym is_there)
              (fits_product f line found.0 rights.1 (ground arith)),
        ),
        is_there ∙ product,
      )
