-- ===== src/Inventory/CountLaws.antt =====
-- What applying a stock count does.
use retail_system.Prelude.{
  ℕ, suc, ◌≡◌, refl, ◌≢◌, ◌↔◌, inl, inr, not, ◌&&◌, none, some, List, [], ◌∷◌, arith, ◌==◌,
  if◌then◌else◌, Option-cases, ℤ, pos, ◌+ℤ◌, ◌-ℤ◌, eqb_ℤ, eq_of_parts, +ℤ_zero, err, ok, raise_if,
  >>=-eq-ok,
}
use retail_system.Inventory.Counts.{
  CountStatus, CountLine, StockCount, variance, count_request, apply_line, apply_lines, is_counting,
  stamp_counted, apply_count,
}
use retail_system.Inventory.Ledger.{IsConsistent, change, record_movement_effect}
use retail_system.Inventory.Movement.{may_go_negative, write_movement, record_movement}
use retail_system.Inventory.State.{
  StockItem, Stock, StockError, already_applied, find_item, quantity_of, ledger_total,
}
use retail_system.Inventory.Transit.{at_branch, rise_twice}

unfoldable pub line_change : Stock → ℕ → CountLine → ℤ
line_change s v l =
    if v == l.variant && s.tracked l.variant
    then elim (variance l) [ none ↦ pos 0 | some d ↦ d ]
    else pos 0

-- The differences that a count found for one product, where it is tracked.
unfoldable pub counted_change : Stock → ℕ → List CountLine → ℤ
counted_change s v [] = pos 0
counted_change s v (l ∷ ls) = line_change s v l +ℤ counted_change s v ls

pub counted_change_rules :
    (s s' : Stock) (v : ℕ) (ls : List CountLine)
    → s'.tracked ≡ s.tracked
    → counted_change s' v ls ≡ counted_change s v ls
unfolding counted_change line_change
counted_change_rules s s' v [] e = refl
counted_change_rules s s' v (l ∷ ls) e = rw (e, counted_change_rules s s' v ls e)

quantity_of-stamp_counted :
    (now : ℕ) (c : StockCount) (b v : ℕ) (is : List StockItem)
    → quantity_of b v (stamp_counted now c is) ≡ quantity_of b v is
unfolding quantity_of find_item stamp_counted
quantity_of-stamp_counted now c b v [] = refl
quantity_of-stamp_counted now c b v (i ∷ is) =
    ground (arith, quantity_of-stamp_counted now c b v is)

apply_line_effect :
    (c : StockCount) (l : CountLine) (n : ℕ) (s s' : Stock) (b v : ℕ)
    → apply_line c l s ≡ ok (n, s')
    → let d = at_branch b c.branch (line_change s v l) in
      (quantity_of b v s'.items ≡ quantity_of b v s.items +ℤ d)
      × (ledger_total b v s'.ledger ≡ ledger_total b v s.ledger +ℤ d)
      × (s'.tracked ≡ s.tracked)
unfolding apply_line line_change change variance
apply_line_effect c l n s s' b v h = elim (Option-cases l.counted_qty) [
  | inl e ↦ ground (arith, +ℤ_zero (quantity_of b v s.items), +ℤ_zero (ledger_total b v s.ledger))
  | inr (q, e) ↦ ground (
    arith,
    record_movement_effect (count_request c l (q -ℤ l.system_qty)) s s' b v,
    +ℤ_zero (quantity_of b v s.items),
    +ℤ_zero (ledger_total b v s.ledger),
    eq_of_parts (q -ℤ l.system_qty) (pos 0),
  )
]

apply_lines_effect :
    (c : StockCount) (ls : List CountLine) (n : ℕ) (s s' : Stock) (b v : ℕ)
    → apply_lines c ls s ≡ ok (n, s')
    → let d = at_branch b c.branch (counted_change s v ls) in
      (quantity_of b v s'.items ≡ quantity_of b v s.items +ℤ d)
      × (ledger_total b v s'.ledger ≡ ledger_total b v s.ledger +ℤ d)
      × (s'.tracked ≡ s.tracked)
unfolding apply_lines counted_change
apply_lines_effect c [] n s s' b v h =
    ground (arith, +ℤ_zero (quantity_of b v s.items), +ℤ_zero (ledger_total b v s.ledger))
apply_lines_effect c (l ∷ ls) n s s' b v h =
    let (p, e, h') = >>=-eq-ok (apply_line c l s) _ h in
    let (p', e', h'') = >>=-eq-ok (apply_lines c ls p.1) _ h' in
    ground (
      arith,
      apply_line_effect c l p.0 s p.1 b v e,
      apply_lines_effect c ls p'.0 p.1 p'.1 b v e',
      counted_change_rules s p.1 v ls,
      rise_twice b c.branch (quantity_of b v s.items) (quantity_of b v p.1.items)
          (quantity_of b v s'.items) (line_change s v l) (counted_change s v ls),
      rise_twice b c.branch (ledger_total b v s.ledger) (ledger_total b v p.1.ledger)
          (ledger_total b v s'.ledger) (line_change s v l) (counted_change s v ls),
    )

-- The lines that carry a difference.
unfoldable pub differing : List CountLine → ℕ
differing [] = 0
differing (l ∷ ls) =
    let rest = differing ls in
    elim (variance l) [ none ↦ rest | some d ↦ if eqb_ℤ d (pos 0) then rest else suc rest ]

apply_lines_count :
    (c : StockCount) (ls : List CountLine) (n : ℕ) (s s' : Stock)
    → apply_lines c ls s ≡ ok (n, s')
    → n ≡ differing ls
unfolding apply_lines apply_line differing variance
apply_lines_count c [] n s s' h = ground arith
apply_lines_count c (l ∷ ls) n s s' h =
    let (p, e, h') = >>=-eq-ok (apply_line c l s) _ h in
    let (p', e', h'') = >>=-eq-ok (apply_lines c ls p.1) _ h' in
    ground (arith, apply_lines_count c ls p'.0 p.1 p'.1 e')

-- An open count that is applied changes each quantity at its branch by the differences that it
-- found, and no other quantity; it reports the number of lines with a difference, keeps the cache
-- in step with the ledger, and cannot be applied again.
pub apply_count_effect :
    (now later n : ℕ) (c c' : StockCount) (s s' : Stock)
    → IsConsistent s
    → apply_count now c s ≡ ok (n, c', s')
    → (n ≡ differing c.lines)
      × ((b v : ℕ)
          → quantity_of b v s'.items
            ≡ quantity_of b v s.items +ℤ at_branch b c.branch (counted_change s v c.lines))
      × IsConsistent s'
      × (apply_count later c' s' ≡ err already_applied)
unfolding apply_count
apply_count_effect now later n c c' s s' k h =
    let (u, g, h₁) = >>=-eq-ok (raise_if (not (is_counting c.status)) already_applied) _ h in
    let (p, e, h₂) = >>=-eq-ok (apply_lines c c.lines s) _ h₁ in
    (
      ground (arith, apply_lines_count c c.lines p.0 s p.1 e),
      λ b v. ground (
        arith,
        apply_lines_effect c c.lines p.0 s p.1 b v e,
        quantity_of-stamp_counted now c b v p.1.items,
      ),
      λ b v. ground (
        arith,
        apply_lines_effect c c.lines p.0 s p.1 b v e,
        quantity_of-stamp_counted now c b v p.1.items,
        k b v,
      ),
      ground arith,
    )

pub apply_count_rules :
    (now n : ℕ) (c c' : StockCount) (s s' : Stock)
    → apply_count now c s ≡ ok (n, c', s')
    → s'.tracked ≡ s.tracked
unfolding apply_count
apply_count_rules now n c c' s s' h =
    let (u, g, h₁) = >>=-eq-ok (raise_if (not (is_counting c.status)) already_applied) _ h in
    let (p, e, h₂) = >>=-eq-ok (apply_lines c c.lines s) _ h₁ in
    ground (arith, apply_lines_effect c c.lines p.0 s p.1 0 0 e)

apply_line-ne-err :
    (c : StockCount) (l : CountLine) (s : Stock) (e : StockError) → apply_line c l s ≢ err e
unfolding apply_line record_movement write_movement may_go_negative
apply_line-ne-err c l s e = grind arith

apply_lines-ne-err :
    (c : StockCount) (ls : List CountLine) (s : Stock) (e : StockError) → apply_lines c ls s ≢ err e
unfolding apply_lines
apply_lines-ne-err c [] s e = λ h. cc
apply_lines-ne-err c (l ∷ ls) s e = grind (arith, apply_line-ne-err c l, apply_lines-ne-err c ls)

-- An open count is never refused, whatever the shop's setting says of stock below zero: the only
-- error is that it has been applied before.
pub apply_count_refused :
    (now : ℕ) (c : StockCount) (s : Stock) (e : StockError)
    → (apply_count now c s ≡ err e) ↔ ((c.status ≢ CountStatus.counting) × (e ≡ already_applied))
unfolding apply_count
apply_count_refused now c s e = grind (arith, apply_lines-ne-err c c.lines s)
