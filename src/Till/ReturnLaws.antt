-- ===== src/Till/ReturnLaws.antt =====
-- A return as a whole: what it leaves of the sale, and the way a sale enters the invariant.
use mathlib.Core.Path.{subst}
use retail_system.Prelude.{
  ℕ, ◌+◌, ◌≡◌, refl, sym, ap, ◌∙◌, inl, inr, Bool, not, Option, some, List, [], ◌∷◌, arith, ltb,
  ◌==◌, Bool-cases, Option-cases, is_some, ℤ, pos, pos_part, ◌+ℤ◌, ◌≤ℤ◌, ok, raise_if, >>=-eq-ok,
}
use retail_system.Inventory.Ledger.{IsConsistent, record_movement_effect}
use retail_system.Inventory.State.{Stock}
use retail_system.Till.LineRefunds.{IsRefundable, return_found-IsRefundable}
use retail_system.Till.Refund.{
  qty_returned, return_request, return_stock, return_line, return_lines, amounts, was_paid_by,
}
use retail_system.Till.RefundLaws.{allocate_refund_lem}
use retail_system.Till.Returns.{
  ReturnRequest, return_doc, sale_after_return, return_found, create_return,
}
use retail_system.Till.State.{
  SaleLine, ReturnLine, Return, Sale, Till, invoiced_sale, voided_sale, refund_as_paid,
  too_many_returned, is_voided, lift_stock, find_sale, save_sale,
}

find_sale-number : (n : ℕ) (ss : List Sale) (s : Sale) → find_sale n ss ≡ some s → s.number ≡ n
unfolding find_sale
find_sale-number n [] s h = cc
find_sale-number n (r ∷ rs) s h = ground (arith, find_sale-number n rs s)

find-save_sale :
    (n : ℕ) (ss : List Sale) (s s' : Sale)
    → find_sale n ss ≡ some s
    → s'.number ≡ n
    → find_sale n (save_sale s' ss) ≡ some s'
unfolding find_sale save_sale
find-save_sale n [] s s' h e = cc
find-save_sale n (r ∷ rs) s s' h e = ground (arith, find-save_sale n rs s s')

return_stock-IsConsistent :
    (sale : Sale) (restock : Bool) (l : SaleLine) (qty : ℕ) (s s' : Stock)
    → IsConsistent s
    → return_stock sale restock l qty s ≡ ok s'
    → IsConsistent s'
unfolding return_stock
return_stock-IsConsistent sale restock l qty s s' c h b v = elim (Option-cases l.variant) [
  | inl e ↦ ground (arith, c b v)
  | inr (w, e) ↦
      ground (arith, record_movement_effect (return_request sale l w qty) s s' b v, c b v)
]

return_line-IsConsistent :
    (sale : Sale) (restock : Bool) (l : SaleLine) (qty : ℕ) (s s' : Stock) (r : Option ReturnLine)
    → IsConsistent s
    → return_line sale restock l qty s ≡ ok (r, s')
    → IsConsistent s'
unfolding return_line
return_line-IsConsistent sale restock l qty s s' r c h b v = elim (Bool-cases (qty == 0)) [
  | inl e ↦ ground (arith, c b v)
  | inr e ↦
      let (u, g, h') =
        >>=-eq-ok
          (raise_if (ltb l.qty (qty_returned l.pk sale.returns + qty)) (too_many_returned l.pk)) _
          (rw e at h) in
      let (m, k, h'') = >>=-eq-ok (lift_stock (return_stock sale restock l qty s)) _ h' in
      ground (arith, return_stock-IsConsistent sale restock l qty s m c (ground arith) b v)
]

return_lines-IsConsistent :
    (sale : Sale) (restock : Bool) (quantities : ℕ → ℤ) (ls : List SaleLine) (rs : List ReturnLine)
    (s s' : Stock)
    → IsConsistent s
    → return_lines sale restock quantities ls s ≡ ok (rs, s')
    → IsConsistent s'
unfolding return_lines
return_lines-IsConsistent sale restock quantities [] rs s s' c h b v = ground (arith, c b v)
return_lines-IsConsistent sale restock quantities (l ∷ ls) rs s s' c h b v =
    let qty = pos_part (quantities l.pk) in
    let (p, e, h') = >>=-eq-ok (return_line sale restock l qty s) _ h in
    let (p', e', h'') = >>=-eq-ok (return_lines sale restock quantities ls p.1) _ h' in
    ground (
      arith,
      return_lines-IsConsistent sale restock quantities ls p'.0 p.1 p'.1
          (return_line-IsConsistent sale restock l qty s p.1 p.0 c e) e' b v,
    )

return_found-IsConsistent :
    (sale : Sale) (q : ReturnRequest) (t t' : Till) (doc : Return)
    → IsConsistent t.stock
    → return_found sale q t ≡ ok (doc, t')
    → IsConsistent t'.stock
unfolding return_found
return_found-IsConsistent sale q t t' doc c h b v =
    let (u, g, h₁) = >>=-eq-ok (raise_if (is_voided sale.status) voided_sale) _ h in
    let (u', g', h₂) = >>=-eq-ok (raise_if (is_some sale.invoice) invoiced_sale) _ h₁ in
    let (u'', g'', h₃) =
      >>=-eq-ok (raise_if (not (was_paid_by q.method sale.payments)) refund_as_paid) _ h₂ in
    let (x, e, h₄) = >>=-eq-ok (return_lines sale q.restock q.quantities sale.lines t.stock) _ h₃ in
    ground (
      arith,
      return_lines-IsConsistent sale q.restock q.quantities sale.lines x.0 t.stock x.1 c e b v,
    )

-- The parts of a return's document.
abbrev IsBalanced : Return → Type 0
IsBalanced d =
    (d.total ≡ amounts d.lines)
    × (pos 0 ≤ℤ d.total → d.cash_amount +ℤ d.credit_amount +ℤ d.other_amount ≡ d.total)

return_doc-IsBalanced :
    (sale : Sale) (q : ReturnRequest) (rs : List ReturnLine) → IsBalanced (return_doc sale q rs)
unfolding return_doc
return_doc-IsBalanced sale q rs = (refl, λ h. (allocate_refund_lem sale (amounts rs) q.method h).0)

same_number : (sale : Sale) (doc : Return) → (sale_after_return sale doc).number ≡ sale.number
unfolding sale_after_return
same_number sale doc = refl

-- A return keeps the sale refundable, whatever is asked for: across all its returns no line comes
-- back beyond its quantity or is paid back beyond its price, and a line that is all back is paid
-- back exactly. The return's total is the sum of its lines, and the three parts in which it is paid
-- out add up to it, if it is not negative; the cached stock stays in step with the ledger.
pub create_return-IsRefundable :
    (q : ReturnRequest) (t t' : Till) (sale : Sale) (doc : Return)
    → IsConsistent t.stock
    → find_sale q.number t.sales ≡ some sale
    → IsRefundable sale
    → create_return q t ≡ ok (doc, t')
    → let after = sale_after_return sale doc in
      (find_sale q.number t'.sales ≡ some after)
      × IsRefundable after
      × ((doc.total ≡ amounts doc.lines)
          × (pos 0 ≤ℤ doc.total
              → doc.cash_amount +ℤ doc.credit_amount +ℤ doc.other_amount ≡ doc.total))
      × IsConsistent t'.stock
unfolding create_return
create_return-IsRefundable q t t' sale doc c f v h =
    let found : return_found sale q t ≡ ok (doc, t') = ground arith in
    let (w, saved, made) = return_found-IsRefundable sale q t t' doc v found in
    (
      ap (find_sale q.number) saved
          ∙ find-save_sale q.number t.sales sale (sale_after_return sale doc) f
              (same_number sale doc ∙ find_sale-number q.number t.sales sale f),
      w,
      subst IsBalanced (sym made) (return_doc-IsBalanced sale q doc.lines),
      return_found-IsConsistent sale q t t' doc c found,
    )
