-- ===== src/Till/FreshSales.antt =====
-- About a sale just completed, as refunds see it.
use mathlib.Core.Path.{subst}
use retail_system.Prelude.{
  ℕ, suc, ◌<◌, ◌≡◌, sym, ◌≢◌, none, List, [], ◌∷◌, arith, pos, All, ok, >>=-eq-ok,
}
use retail_system.Inventory.Batches.{BatchRow}
use retail_system.Inventory.Sample.{stocked}
use retail_system.Inventory.State.{Stock}
use retail_system.Till.AmountLaws.{line_total-eq-charged}
use retail_system.Till.Amounts.{CartLine, line_total, IsCovered}
use retail_system.Till.Checkout.{
  Checkout, sale_line, write_product_line, write_sale_line, write_sale_lines, new_sale, write_sale,
  already_stored, complete_sale,
}
use retail_system.Till.LineBounds.{IsWithin}
use retail_system.Till.LineRefunds.{AllDistinct, AllPriced, IsRefundable}
use retail_system.Till.Refund.{qty_returned, paid_back}
use retail_system.Till.State.{SaleLine, Sale, Till}
use retail_system.Till.VoidLaws.{write_sale_parts}

line_written :
    (c : Checkout) (rows : List BatchRow) (k : ℕ) (l : CartLine) (l' : SaleLine) (s s' : Stock)
    → write_sale_line c rows k l s ≡ ok (l', s')
    → (l'.pk ≡ k) × (l'.line_total ≡ line_total l)
unfolding write_sale_line write_product_line sale_line
line_written c rows k l l' s s' h = grind arith

written_above :
    (c : Checkout) (rows : List BatchRow) (k j : ℕ) (ls : List CartLine) (ls' : List SaleLine)
    (s s' : Stock)
    → write_sale_lines c rows k ls s ≡ ok (ls', s')
    → j < k
    → All (λ m. m.pk ≢ j) ls'
unfolding write_sale_lines
written_above c rows k j [] ls' s s' h lt =
    let e : ls' ≡ [] = ground arith in subst (All λ m. m.pk ≢ j) (sym e) tt
written_above c rows k j (l ∷ ls) ls' s s' h lt =
    let (p, e, h') = >>=-eq-ok (write_sale_line c rows k l s) _ h in
    let (p', e', h'') = >>=-eq-ok (write_sale_lines c rows (suc k) ls p.1) _ h' in
    let rows' : ls' ≡ p.0 ∷ p'.0 = ground arith in
    subst (All λ m. m.pk ≢ j) (sym rows') (
      (λ f. absurd (omega (arith, (line_written c rows k l p.0 s p.1 e).0))),
      written_above c rows (suc k) j ls p'.0 p.1 p'.1 e' (omega arith),
    )

abbrev IsFreshLines : List SaleLine → Type 0
IsFreshLines ls = AllDistinct ls × AllPriced ls

written_fresh :
    (c : Checkout) (rows : List BatchRow) (k : ℕ) (ls : List CartLine) (ls' : List SaleLine)
    (s s' : Stock)
    → write_sale_lines c rows k ls s ≡ ok (ls', s')
    → All IsCovered ls
    → IsFreshLines ls'
unfolding write_sale_lines
written_fresh c rows k [] ls' s s' h a =
    let e : ls' ≡ [] = ground arith in subst IsFreshLines (sym e) (tt, tt)
written_fresh c rows k (l ∷ ls) ls' s s' h a =
    let (p, e, h') = >>=-eq-ok (write_sale_line c rows k l s) _ h in
    let (p', e', h'') = >>=-eq-ok (write_sale_lines c rows (suc k) ls p.1) _ h' in
    let rows' : ls' ≡ p.0 ∷ p'.0 = ground arith in
    let (pk, priced) = line_written c rows k l p.0 s p.1 e in
    let rest = written_fresh c rows (suc k) ls p'.0 p.1 p'.1 e' a.1 in
    subst IsFreshLines (sym rows') (
      (
        subst (λ j. All (λ m. m.pk ≢ j) p'.0) (sym pk)
            (written_above c rows (suc k) k ls p'.0 p.1 p'.1 e' (omega arith)),
        rest.0,
      ),
      (rw (priced, line_total-eq-charged l a.0) (omega arith), rest.1),
    )

All-IsWithin : (ls : List SaleLine) → AllPriced ls → All (λ l. IsWithin l 0 (pos 0)) ls
All-IsWithin [] p = tt
All-IsWithin (l ∷ ls) p =
    ((omega arith, omega arith, p.0, λ a b. absurd (omega arith)), All-IsWithin ls p.1)

fresh_sale :
    (c : Checkout) (lines : List SaleLine) → IsFreshLines lines → IsRefundable (new_sale c lines)
unfolding new_sale qty_returned paid_back
fresh_sale c lines f = record { distinct = f.0; priced = f.1; within = All-IsWithin lines f.1 }

-- A completed sale whose lines are not discounted beyond their price starts out refundable: nothing
-- of it has come back, and every line can come back once.
pub complete_sale-IsRefundable :
    (c : Checkout) (t t' : Till) (sale : Sale)
    → All IsCovered c.lines
    → already_stored c t ≡ none
    → complete_sale c t ≡ ok (sale, t')
    → IsRefundable sale
unfolding complete_sale
complete_sale-IsRefundable c t t' sale a n h =
    let w : write_sale c t ≡ ok (sale, t') = ground arith in
    let (lines, stock, written, made, stocked, listed, posted) = write_sale_parts c t t' sale w in
    subst IsRefundable (sym made)
      (fresh_sale c lines (written_fresh c t.batches 0 c.lines lines t.stock stock written a))
