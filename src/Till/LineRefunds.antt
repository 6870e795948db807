-- ===== src/Till/LineRefunds.antt =====
-- About what is refunded of a line, across all the returns of its sale.
use mathlib.Core.Path.{subst}
use retail_system.Prelude.{
  ℕ, ◌+◌, ◌≤◌, ◌≡◌, refl, sym, ap, ◌∙◌, ◌≢◌, ◌⊎◌, inl, inr, Bool, not, Option, none, some, List, [],
  ◌∷◌, arith, ltb, ◌==◌, Bool-cases, is_some, ℤ, pos, pos_part, ◌+ℤ◌, ◌≤ℤ◌, int_laws, +ℤ_zero, All,
  ok, raise_if, >>=-eq-ok,
}
use retail_system.Inventory.State.{Stock}
use retail_system.Till.LineBounds.{IsWithin, refund_amount-IsWithin, IsWithin-congr}
use retail_system.Till.Refund.{
  doc_qty, doc_amount, qty_returned, paid_back, refund_amount, return_stock, return_line, cons_some,
  return_lines, was_paid_by,
}
use retail_system.Till.Returns.{ReturnRequest, return_doc, sale_after_return, return_found}
use retail_system.Till.State.{
  SaleLine, ReturnLine, Return, Sale, Till, invoiced_sale, voided_sale, refund_as_paid,
  too_many_returned, is_voided, lift_stock, save_sale,
}

-- The lines of a sale have keys of their own.
abbrev pub AllDistinct : List SaleLine → Type 0
AllDistinct [] = Unit
AllDistinct (l ∷ ls) = All (λ m. m.pk ≢ l.pk) ls × AllDistinct ls

-- The state of the lines, with one more return among the sale's.
abbrev pub AllWithin : Sale → List ReturnLine → List SaleLine → Type 0
AllWithin sale rs = All λ l.
    IsWithin l (doc_qty l.pk rs + qty_returned l.pk sale.returns)
      (doc_amount l.pk rs +ℤ paid_back l.pk sale.returns)

abbrev pub AllPriced : List SaleLine → Type 0
AllPriced = All λ l. pos 0 ≤ℤ l.line_total

-- The row that a round of the loop writes.
abbrev pub row_of : Sale → SaleLine → ℕ → ReturnLine
row_of sale l qty = record {
  sale_line = l.pk;
  qty = qty;
  amount = refund_amount l (qty_returned l.pk sale.returns) qty (paid_back l.pk sale.returns);
}

return_line_cases :
    (sale : Sale) (restock : Bool) (l : SaleLine) (qty : ℕ) (s s' : Stock) (r : Option ReturnLine)
    → return_line sale restock l qty s ≡ ok (r, s')
    → (r ≡ none) ⊎ ((qty_returned l.pk sale.returns + qty ≤ l.qty) × (r ≡ some (row_of sale l qty)))
unfolding return_line
return_line_cases sale restock l qty s s' r h = elim (Bool-cases (qty == 0)) [
  | inl e ↦ inl (ground arith)
  | inr e ↦
      let (u, g, h') =
        >>=-eq-ok
          (raise_if (ltb l.qty (qty_returned l.pk sale.returns + qty)) (too_many_returned l.pk)) _
          (rw e at h) in
      let (m, k, h'') = >>=-eq-ok (lift_stock (return_stock sale restock l qty s)) _ h' in
      inr (ground arith, ground arith)
]

return_line-IsWithin :
    (sale : Sale) (restock : Bool) (l : SaleLine) (qty : ℕ) (s s' : Stock) (r : Option ReturnLine)
    (rs : List ReturnLine)
    → return_line sale restock l qty s ≡ ok (r, s')
    → pos 0 ≤ℤ l.line_total
    → doc_qty l.pk rs ≡ 0
    → doc_amount l.pk rs ≡ pos 0
    → IsWithin l (qty_returned l.pk sale.returns) (paid_back l.pk sale.returns)
    → IsWithin l
        (doc_qty l.pk (cons_some r rs) + qty_returned l.pk sale.returns)
        (doc_amount l.pk (cons_some r rs) +ℤ paid_back l.pk sale.returns)
unfolding doc_qty doc_amount
return_line-IsWithin sale restock l qty s s' r rs h p n m w =
    let returned = qty_returned l.pk sale.returns in
    let back = paid_back l.pk sale.returns in
    elim (return_line_cases sale restock l qty s s' r h) [
      | inl e ↦ rw e (IsWithin-congr l (omega arith) (rw m (omega int_laws)) w)
      | inr (q, e) ↦ rw e (
          IsWithin-congr l (ground arith)
            (ground (arith, +ℤ_zero (refund_amount l returned qty back)))
            (refund_amount-IsWithin l returned qty back p w q).1)
    ]

-- A row for another line adds nothing to this one.
doc_qty-other :
    (sale : Sale) (restock : Bool) (l : SaleLine) (qty pk : ℕ) (s s' : Stock)
    (r : Option ReturnLine) (rs : List ReturnLine)
    → return_line sale restock l qty s ≡ ok (r, s')
    → pk ≢ l.pk
    → (doc_qty pk (cons_some r rs) ≡ doc_qty pk rs)
      × (doc_amount pk (cons_some r rs) ≡ doc_amount pk rs)
unfolding doc_qty doc_amount
doc_qty-other sale restock l qty pk s s' r rs h ne =
    elim (return_line_cases sale restock l qty s s' r h) [
      | inl e ↦ rw e (refl, refl)
      | inr (q, e) ↦ rw e (ground arith)
    ]

return_lines-none :
    (sale : Sale) (restock : Bool) (quantities : ℕ → ℤ) (pk : ℕ) (ls : List SaleLine)
    (rs : List ReturnLine) (s s' : Stock)
    → return_lines sale restock quantities ls s ≡ ok (rs, s')
    → All (λ m. m.pk ≢ pk) ls
    → (doc_qty pk rs ≡ 0) × (doc_amount pk rs ≡ pos 0)
unfolding return_lines
return_lines-none sale restock quantities pk [] rs s s' h a =
    let e : rs ≡ [] = ground arith in rw e (refl, refl)
return_lines-none sale restock quantities pk (l ∷ ls) rs s s' h a =
    let qty = pos_part (quantities l.pk) in
    let (p, e, h') = >>=-eq-ok (return_line sale restock l qty s) _ h in
    let (p', e', h'') = >>=-eq-ok (return_lines sale restock quantities ls p.1) _ h' in
    ground (
      arith,
      return_lines-none sale restock quantities pk ls p'.0 p.1 p'.1 e' a.1,
      doc_qty-other sale restock l qty pk s p.1 p.0 p'.0 e (λ k. a.0 (sym k)),
    )

within_others :
    (sale : Sale) (restock : Bool) (l : SaleLine) (qty : ℕ) (s s' : Stock) (r : Option ReturnLine)
    (rs : List ReturnLine) (ls : List SaleLine)
    → return_line sale restock l qty s ≡ ok (r, s')
    → All (λ m. m.pk ≢ l.pk) ls
    → AllWithin sale rs ls
    → AllWithin sale (cons_some r rs) ls
within_others sale restock l qty s s' r rs [] h a w = tt
within_others sale restock l qty s s' r rs (m ∷ ms) h a w =
    let (e, f) = doc_qty-other sale restock l qty m.pk s s' r rs h a.0 in
    (
      IsWithin-congr m (ap (λ n. n + qty_returned m.pk sale.returns) (sym e))
          (ap (λ x. x +ℤ paid_back m.pk sale.returns) (sym f)) w.0,
      within_others sale restock l qty s s' r rs ms h a.1 w.1,
    )

return_lines-AllWithin :
    (sale : Sale) (restock : Bool) (quantities : ℕ → ℤ) (ls : List SaleLine) (rs : List ReturnLine)
    (s s' : Stock)
    → return_lines sale restock quantities ls s ≡ ok (rs, s')
    → AllDistinct ls
    → AllPriced ls
    → All (λ l. IsWithin l (qty_returned l.pk sale.returns) (paid_back l.pk sale.returns)) ls
    → AllWithin sale rs ls
unfolding return_lines
return_lines-AllWithin sale restock quantities [] rs s s' h d p w = tt
return_lines-AllWithin sale restock quantities (l ∷ ls) rs s s' h d p w =
    let qty = pos_part (quantities l.pk) in
    let (x, e, h') = >>=-eq-ok (return_line sale restock l qty s) _ h in
    let (y, e', h'') = >>=-eq-ok (return_lines sale restock quantities ls x.1) _ h' in
    let (n, m) = return_lines-none sale restock quantities l.pk ls y.0 x.1 y.1 e' d.0 in
    let rows : rs ≡ cons_some x.0 y.0 = ground arith in
    subst (λ z. AllWithin sale z (l ∷ ls)) (sym rows)
      (
        return_line-IsWithin sale restock l qty s x.1 x.0 y.0 e p.0 n m w.0,
        within_others sale restock l qty s x.1 x.0 y.0 ls e d.0
            (return_lines-AllWithin sale restock quantities ls y.0 x.1 y.1 e' d.1 p.1 w.1),
      )

-- The invariant of a sale under refunds.
pub record IsRefundable (sale : Sale) : Type 0 where
  pub distinct : AllDistinct sale.lines
  pub priced : AllPriced sale.lines
  pub within :
      All
        (λ l. IsWithin l (qty_returned l.pk sale.returns) (paid_back l.pk sale.returns))
        sale.lines

pub return_found-IsRefundable :
    (sale : Sale) (q : ReturnRequest) (t t' : Till) (doc : Return)
    → IsRefundable sale
    → return_found sale q t ≡ ok (doc, t')
    → IsRefundable (sale_after_return sale doc)
      × (t'.sales ≡ save_sale (sale_after_return sale doc) t.sales)
      × (doc ≡ return_doc sale q doc.lines)
unfolding return_found sale_after_return return_doc qty_returned paid_back
return_found-IsRefundable sale q t t' doc v h =
    let (u, g, h₁) = >>=-eq-ok (raise_if (is_voided sale.status) voided_sale) _ h in
    let (u', g', h₂) = >>=-eq-ok (raise_if (is_some sale.invoice) invoiced_sale) _ h₁ in
    let (u'', g'', h₃) =
      >>=-eq-ok (raise_if (not (was_paid_by q.method sale.payments)) refund_as_paid) _ h₂ in
    let (x, e, h₄) = >>=-eq-ok (return_lines sale q.restock q.quantities sale.lines t.stock) _ h₃ in
    let rows : doc.lines ≡ x.0 = ground arith in
    let made : doc ≡ return_doc sale q x.0 = ground arith in
    let all =
      return_lines-AllWithin sale q.restock q.quantities sale.lines x.0 t.stock x.1 e v.distinct
        v.priced v.within in
    (
      record {
        distinct = v.distinct;
        priced = v.priced;
        within = subst (λ z. AllWithin sale z sale.lines) (sym rows) all;
      },
      ground arith,
      made ∙ ap (return_doc sale q) (sym rows),
    )
