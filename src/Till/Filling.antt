-- ===== src/Till/Filling.antt =====
-- The basket that a checked sale fills, and what it comes to: about `add_to_cart` of
-- apps/pos/services.py.
use mathlib.Core.List.{append-nil, append_assoc}
use retail_system.Prelude.{
  ℕ, ◌*◌, ◌%◌, ◌<◌, ◌≡◌, refl, sym, ap, ◌∙◌, inl, inr, true, false, ◌||◌, Option, none, some, List,
  [], ◌∷◌, ◌++◌, map, arith, ◌==◌, Option-cases, is_some, pos, pos-+ℤ, All, All-append, ok,
}
use retail_system.Catalogue.{Catalogue}
use retail_system.Money.{half_up}
use retail_system.Till.Acceptance.{line_charge, line_charges}
use retail_system.Till.AcceptanceLaws.{IsAccepted}
use retail_system.Till.AmountLaws.{charged, line_total-eq-charged, line_totals}
use retail_system.Till.Amounts.{CartLine, exact, line_total, IsCovered}
use retail_system.Till.Baskets.{
  Item, is_alike, put_line, basket_price, open_line, product_line, add_to_cart,
}
use retail_system.Till.Offline.{item_of, fill_cart}
use retail_system.Till.Scale.{whole_up, whole_charge, half_up_zero}
use retail_system.Till.Validation.{CheckedLine, Cashier}

-- The line of the basket that a checked line makes when it stands alone.
unfoldable pub cart_line : ℕ → Catalogue → CheckedLine → CartLine
unfolding half_up
cart_line f c l = elim l.variant [
  | none ↦ open_line f (item_of l)
  | some v ↦ product_line f c (item_of l) v (half_up l.unit_price f)
]

-- No two lines are alike, so that none of them is put together with another.
abbrev pub AreApart : ℕ → Catalogue → List CheckedLine → Type 0
AreApart f c [] = Unit
AreApart f c (l ∷ ls) =
    All (λ k. is_alike f (cart_line f c l) (cart_line f c k) k.discount ≡ false) ls
    × AreApart f c ls

-- Nothing is taken off a line that has no product.
abbrev pub IsOpenAtPrice : CheckedLine → Type 0
IsOpenAtPrice l = (is_some l.variant || l.discount == 0) ≡ true

put_line-apart :
    (f : ℕ) (i : Item) (k : CartLine) (ls : List CartLine)
    → All (λ l. is_alike f l k i.discount ≡ false) ls
    → put_line f i k ls ≡ ls ++ k ∷ []
unfolding put_line
put_line-apart f i k [] a = refl
put_line-apart f i k (l ∷ ls) a = rw (a.0, put_line-apart f i k ls a.1) refl

add_to_cart-apart :
    (f : ℕ) (c : Catalogue) (list : Option ℕ) (l : CheckedLine) (cart : List CartLine)
    → All (λ k. is_alike f k (cart_line f c l) l.discount ≡ false) cart
    → add_to_cart f c list (item_of l) cart ≡ ok (cart ++ cart_line f c l ∷ [])
unfolding add_to_cart cart_line basket_price
add_to_cart-apart f c list l cart a = elim (Option-cases l.variant) [
  | inl e ↦ rw e refl
  | inr (v, e) ↦ ground (
    arith,
    put_line-apart f (item_of l) (product_line f c (item_of l) v (half_up l.unit_price f)) cart
        (rw e at a),
  )
]

-- The lines still to come stand apart from those that are in the basket.
abbrev pub AreNew : ℕ → Catalogue → List CartLine → List CheckedLine → Type 0
AreNew f c cart = All λ l. All (λ k. is_alike f k (cart_line f c l) l.discount ≡ false) cart

still_new :
    (f : ℕ) (c : Catalogue) (cart : List CartLine) (l : CheckedLine) (ls : List CheckedLine)
    → All (λ k. is_alike f (cart_line f c l) (cart_line f c k) k.discount ≡ false) ls
    → AreNew f c cart ls
    → AreNew f c (cart ++ cart_line f c l ∷ []) ls
still_new f c cart l [] a n = tt
still_new f c cart l (m ∷ ms) a n = (
  All-append (λ k. is_alike f k (cart_line f c m) m.discount ≡ false) cart (cart_line f c l ∷ [])
      n.0 (a.0, tt),
  still_new f c cart l ms a.1 n.1,
)

pub fill_cart-apart :
    (f : ℕ) (c : Catalogue) (list : Option ℕ) (ls : List CheckedLine) (cart : List CartLine)
    → AreApart f c ls
    → AreNew f c cart ls
    → fill_cart f c list ls cart ≡ ok (cart ++ map (cart_line f c) ls)
unfolding fill_cart
fill_cart-apart f c list [] cart a n = ap ok (sym (append-nil cart))
fill_cart-apart f c list (l ∷ ls) cart a n = rw (add_to_cart-apart f c list l cart n.0) (
    fill_cart-apart f c list ls (cart ++ cart_line f c l ∷ []) a.1 (still_new f c cart l ls a.0 n.1)
    ∙ ap ok (append_assoc cart (cart_line f c l ∷ []) (map (cart_line f c) ls)))

-- The figures of a line are whole thousandths and whole cents.
abbrev pub IsWhole : ℕ → CheckedLine → Type 0
IsWhole f l = (l.qty % f ≡ 0) × (l.unit_price % f ≡ 0) × (l.discount % f ≡ 0)

cart_line-charged :
    (f : ℕ) (c : Catalogue) (l : CheckedLine)
    → 0 < f
    → IsOpenAtPrice l
    → (exact (cart_line f c l) ≡ half_up l.qty f * half_up l.unit_price f)
      × ((cart_line f c l).discount ≡ half_up l.discount f)
unfolding cart_line
cart_line-charged f c l z o = elim (Option-cases l.variant) [
  | inl e ↦
      let nothing : l.discount ≡ 0 = ground arith in
      rw e (refl, rw nothing (sym (half_up_zero f z)))
  | inr (v, e) ↦ rw e (refl, refl)
]

cart_line-whole :
    (f : ℕ) (c : Catalogue) (who : Cashier) (l : CheckedLine)
    → 0 < f
    → IsAccepted f c who l
    → IsOpenAtPrice l
    → IsWhole f l
    → IsCovered (cart_line f c l) × (line_total (cart_line f c l) ≡ pos (line_charge f l))
unfolding line_charge charged
cart_line-whole f c who l z a o w =
    let (e, d) = cart_line-charged f c l z o in
    let qty = whole_up l.qty f z w.0 in
    let price = whole_up l.unit_price f z w.1 in
    let discount = whole_up l.discount f z w.2 in
    let (fits, same) =
      whole_charge f (half_up l.qty f) (half_up l.unit_price f) (half_up l.discount f) z
        (rw (qty, price, discount) a.3) in
    let covered : IsCovered (cart_line f c l) = rw (e, d) fits in
    (
      covered,
      line_total-eq-charged (cart_line f c l) covered
          ∙ rw (e, d) (ap pos (sym (rw (qty, price, discount) at same))),
    )

pub line_charges-totals :
    (f : ℕ) (c : Catalogue) (who : Cashier) (ls : List CheckedLine)
    → 0 < f
    → All (IsAccepted f c who) ls
    → All IsOpenAtPrice ls
    → All (IsWhole f) ls
    → All IsCovered (map (cart_line f c) ls)
      × (line_totals (map (cart_line f c) ls) ≡ pos (line_charges f ls))
unfolding line_totals line_charges
line_charges-totals f c who [] z a o w = (tt, refl)
line_charges-totals f c who (l ∷ ls) z a o w =
    let (covered, one) = cart_line-whole f c who l z a.0 o.0 w.0 in
    let (rest, sum) = line_charges-totals f c who ls z a.1 o.1 w.1 in
    ((covered, rest), rw (one, sum) (pos-+ℤ (line_charge f l) (line_charges f ls)))
