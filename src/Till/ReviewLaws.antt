-- ===== src/Till/ReviewLaws.antt =====
-- What `check_sale` of apps/pos/validation.py accepts, and what it leaves for the owner to look at.
use mathlib.Core.Path.{subst}
use retail_system.Prelude.{
  ℕ, ◌+◌, ◌*◌, ◌≤◌, ◌≡◌, refl, sym, ◌∙◌, ◌≢◌, true, false, ◌&&◌, Option, none, some, List, [], ◌∷◌,
  ◌++◌, arith, ltb, if◌then◌else◌, All, ok, raise_if, >>=-eq-ok, ok-injective,
}
use retail_system.Catalogue.{Product}
use retail_system.Inventory.Services.{kept, accepted}
use retail_system.Till.Acceptance.{
  check_line, check_sale_lines, sums_reviews, payment_reviews, ShopTables, has_no_lines,
}
use retail_system.Till.AcceptanceLaws.{product_of, IsAccepted, check_line-IsAccepted}
use retail_system.Till.Amounts.{total}
use retail_system.Till.State.{SalePayment}
use retail_system.Till.Tender.{
  RawPayment, underpaid, overpaid, tolerance, read_payments, paid_of, not_cash_of, slack,
  give_change, check_payments,
}
use retail_system.Till.TenderLaws.{give_change-paid}
use retail_system.Till.Validation.{
  RawLine, CheckedLine, Cashier, Review, rounded_total, rounded_other, current_price, price_reviews,
  floor_reviews, line_reviews,
}

-- Today's price is reached, but for a cent; with none on file it is not. The price is in `f` parts of
-- a cent.
abbrev pub ReachesPrice : ℕ → Option ℕ → ℕ → Type 0
ReachesPrice f none price = ⊥
ReachesPrice f (some a) price = f * a ≤ price + f * tolerance

abbrev pub ReachesFloor : ℕ → Option Product → ℕ → Type 0
ReachesFloor f none price = Unit
ReachesFloor f (some p) price = f * p.min_price ≤ price + f * tolerance

-- A product goes at no less than today's price for the buyer, and at no less than its own least
-- price, each but for a cent.
abbrev pub IsPriced : ℕ → ShopTables → Option ℕ → CheckedLine → Type 0
IsPriced f s own l = elim l.variant [
  | none ↦ Unit
  | some v ↦
      ReachesPrice f (current_price f s.catalogue own s.usual_list v l.qty) l.unit_price
      × ReachesFloor f (s.catalogue.products v) l.unit_price
]

pub append_empty {ℓ} : {A : Type ℓ} (xs ys : List A) → xs ++ ys ≡ [] → (xs ≡ []) × (ys ≡ [])
append_empty [] ys h = (refl, h)
append_empty (x ∷ xs) ys h = cc

price_reviews-none :
    (f : ℕ) (who : Cashier) (v price : ℕ) (current : Option ℕ)
    → who.price_override ≡ false
    → price_reviews f who v current price ≡ []
    → ReachesPrice f current price
unfolding price_reviews
price_reviews-none f who v price none o h = absurd (ground arith)
price_reviews-none f who v price (some a) o h = ground arith

floor_reviews-none :
    (f v price : ℕ) (p : Option Product) → floor_reviews f v p price ≡ [] → ReachesFloor f p price
unfolding floor_reviews
floor_reviews-none f v price none h = tt
floor_reviews-none f v price (some p) h = ground arith

line_reviews-none :
    (f : ℕ) (s : ShopTables) (who : Cashier) (own : Option ℕ) (l : CheckedLine) (p : Option Product)
    → who.price_override ≡ false
    → product_of s.catalogue l ≡ p
    → line_reviews f s.catalogue who own s.usual_list p l ≡ []
    → IsPriced f s own l
unfolding line_reviews
line_reviews-none f s who own l p o e h =
    elim l.variant as (λ z. l.variant ≡ z → IsPriced f s own (record l { variant = z })) [
      | none ↦ λ m. tt
      | some v ↦ λ m.
          let current = current_price f s.catalogue own s.usual_list v l.qty in
          let same : p ≡ s.catalogue.products v = sym e ∙ rw m refl in
          let (a, b) = append_empty (price_reviews f who v current l.unit_price) _ (rw m at h) in
          (
            price_reviews-none f who v l.unit_price current o a,
            floor_reviews-none f v l.unit_price _
                (subst (λ x. floor_reviews f v x l.unit_price ≡ []) same b),
          )
    ]
      refl

pub check_sale_lines-facts :
    (f : ℕ) (s : ShopTables) (who : Cashier) (own : Option ℕ) (used : List ℕ) (rs : List RawLine)
    (ls : List CheckedLine) (notes : List Review)
    → check_sale_lines f s.catalogue who s.phone_lines own s.usual_list used rs ≡ ok (ls, notes)
    → All (IsAccepted f s.catalogue who) ls
      × (has_no_lines rs ≡ false → ls ≢ [])
      × (who.price_override ≡ false → notes ≡ [] → All (IsPriced f s own) ls)
unfolding check_sale_lines
check_sale_lines-facts f s who own used [] ls notes h =
    let e : [] ≡ ls = ground arith in
    subst
      (λ x.
        All (IsAccepted f s.catalogue who) x
        × (true ≡ false → x ≢ [])
        × (who.price_override ≡ false → notes ≡ [] → All (IsPriced f s own) x))
      e (tt, λ is_so. cc, λ o n. tt)
check_sale_lines-facts f s who own used (r ∷ rs) ls notes h =
    let (x, e, h₁) = >>=-eq-ok (check_line f s.catalogue who s.phone_lines used r) _ h in
    let (y, e', h₂) =
      >>=-eq-ok (check_sale_lines f s.catalogue who s.phone_lines own s.usual_list x.1 rs) _ h₁ in
    let (accepted, product) =
      check_line-IsAccepted f s.catalogue who s.phone_lines used x.1 r x.0 x.2 e in
    let (all, some_, flags) = check_sale_lines-facts f s who own x.1 rs y.0 y.1 e' in
    let lines : x.0 ∷ y.0 ≡ ls = ground arith in
    let reviews : line_reviews f s.catalogue who own s.usual_list x.2 x.0 ++ y.1 ≡ notes =
      ground arith in
    subst
      (λ z.
        All (IsAccepted f s.catalogue who) z
        × (false ≡ false → z ≢ [])
        × (who.price_override ≡ false → notes ≡ [] → All (IsPriced f s own) z))
      lines
      (
        (accepted, all),
        λ is_so k. cc,
        λ o n.
            let (a, b) =
              append_empty (line_reviews f s.catalogue who own s.usual_list x.2 x.0) y.1
                (reviews ∙ n) in
            (line_reviews-none f s who own x.0 x.2 o product a, flags o b),
      )

sums_reviews-none :
    (total : ℕ) (ps : List SalePayment)
    → sums_reviews total ps ≡ []
    → (total ≤ paid_of ps + tolerance) × (not_cash_of ps ≤ total + tolerance)
unfolding sums_reviews
sums_reviews-none total ps h =
    let (a, b) =
      append_empty (if ltb (paid_of ps + tolerance) total then rounded_total ∷ [] else [])
        (if ltb (total + tolerance) (not_cash_of ps) then rounded_other ∷ [] else []) h in
    ground (arith, a, b)

-- With nothing to note of the payments, the shop keeps the total but for a cent.
pub payments_to_the_cent :
    (lines total : ℕ) (rs : List RawPayment) (kept : List SalePayment)
    → check_payments lines total rs ≡ ok kept
    → payment_reviews total rs ≡ []
    → (total ≤ paid_of kept + tolerance) × (paid_of kept ≤ total + tolerance)
unfolding check_payments payment_reviews
payments_to_the_cent lines total rs kept h q =
    let (ps, e, h₁) = >>=-eq-ok (read_payments rs) _ h in
    let (u, g, h₂) =
      >>=-eq-ok
        (raise_if (ltb (paid_of ps + tolerance) total && ltb (paid_of ps + slack lines) total)
          underpaid)
        _ h₁ in
    let (u', g', h₃) =
      >>=-eq-ok
        (raise_if
          (ltb (total + tolerance) (not_cash_of ps) && ltb (total + slack lines) (not_cash_of ps))
          overpaid)
        _ h₂ in
    let given : give_change total ps ≡ kept = ok-injective h₃ in
    let (low, high) = sums_reviews-none total ps (ground arith) in
    rw (← given) (omega (arith, low, high, give_change-paid total ps))
