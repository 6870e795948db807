-- ===== src/Till/TenderLaws.antt =====
-- What the shop keeps of the payments.
use retail_system.Prelude.{
  ℕ, ◌+◌, ◌-◌, ◌≤◌, ◌<◌, ◌≡◌, refl, ◌⊎◌, ◌&&◌, List, [], ◌∷◌, arith, ltb, if◌then◌else◌, ok,
  raise_if, >>=-eq-ok,
}
use retail_system.Inventory.Services.{kept}
use retail_system.Till.Amounts.{total}
use retail_system.Till.State.{SalePayment}
use retail_system.Till.Tender.{
  RawPayment, underpaid, overpaid, tolerance, read_payments, paid_of, not_cash_of, slack,
  move_change, drop_empty, give_change, check_payments,
}

drop_empty-paid :
    (ps : List SalePayment)
    → (paid_of (drop_empty ps) ≡ paid_of ps) × (not_cash_of (drop_empty ps) ≡ not_cash_of ps)
unfolding paid_of not_cash_of drop_empty
drop_empty-paid [] = (refl, refl)
drop_empty-paid (p ∷ ps) = ground (arith, drop_empty-paid ps)

-- The excess comes off the cash, as far as there is any.
move_change-paid :
    (excess : ℕ) (ps : List SalePayment)
    → let kept = move_change excess ps in
      (not_cash_of kept ≡ not_cash_of ps)
      × (not_cash_of ps ≤ paid_of kept)
      × (paid_of ps ≤ paid_of kept + excess)
      × (paid_of kept ≤ paid_of ps)
      × ((paid_of kept ≡ not_cash_of ps) ⊎ (paid_of kept + excess ≡ paid_of ps))
unfolding paid_of not_cash_of move_change
move_change-paid excess [] = ground arith
move_change-paid excess (p ∷ ps) =
    let moved = if ltb excess p.amount then excess else p.amount in
    ground (arith, move_change-paid excess ps, move_change-paid (excess - moved) ps)

slack-bounds : (lines : ℕ) → 50 ≤ slack lines
unfolding slack
slack-bounds lines = ground arith

pub give_change-paid :
    (total : ℕ) (ps : List SalePayment)
    → let kept = give_change total ps in
      (not_cash_of kept ≡ not_cash_of ps)
      × (paid_of kept ≤ paid_of ps)
      × ((total ≤ paid_of kept) ⊎ (paid_of kept ≡ paid_of ps))
      × ((paid_of kept ≤ total + tolerance) ⊎ (paid_of kept ≡ not_cash_of ps))
      × (total + tolerance < paid_of ps → not_cash_of ps ≤ total → paid_of kept ≡ total)
unfolding give_change
give_change-paid total ps =
    let changed = move_change (paid_of ps - total) ps in
    ground (arith, drop_empty-paid changed, move_change-paid (paid_of ps - total) ps)

-- What the shop keeps of the payments that it accepts is the total of the sale, but for the slack of
-- half a unit a line, whatever was handed over: the excess is change and comes off the cash alone.
-- Where more than the total and a cent was handed over, and not more than the total by other means
-- than cash, exactly the total is kept.
pub check_payments_effect :
    (lines total : ℕ) (rs : List RawPayment) (kept : List SalePayment)
    → check_payments lines total rs ≡ ok kept
    → (ps : List SalePayment) × (read_payments rs ≡ ok ps)
      × (total ≤ paid_of kept + slack lines)
      × (paid_of kept ≤ total + slack lines)
      × (not_cash_of kept ≡ not_cash_of ps)
      × (total + tolerance < paid_of ps → not_cash_of ps ≤ total → paid_of kept ≡ total)
unfolding check_payments
check_payments_effect lines total rs kept h =
    let (ps, e, h₁) = >>=-eq-ok (read_payments rs) _ h in
    let (u, g, h₂) =
      >>=-eq-ok
        (raise_if (ltb (paid_of ps + tolerance) total && ltb (paid_of ps + slack lines) total)
          underpaid)
        _ h₁ in
    let (u', g', h₃) =
      >>=-eq-ok
        (raise_if
          (ltb (total + tolerance) (not_cash_of ps) && ltb (total + slack lines) (not_cash_of ps))
          overpaid)
        _ h₂ in
    let same : kept ≡ give_change total ps = cc in
    let changed = give_change-paid total ps in
    (
      ps,
      e,
      rw same (ground (arith, changed, slack-bounds lines)),
      rw same (ground (arith, changed, slack-bounds lines)),
      rw same (changed.0),
      rw same (changed.4),
    )
