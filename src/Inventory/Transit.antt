-- ===== src/Inventory/Transit.antt =====
-- What a transfer does to the quantities of the two branches.
use retail_system.Prelude.{
  ℕ, ◌≡◌, refl, inl, inr, ◌&&◌, Option, List, [], ◌∷◌, arith, ◌==◌, if◌then◌else◌, Bool-cases, ℤ,
  pos, ◌+ℤ◌, ◌-ℤ◌, max_ℤ, int_laws, +ℤ_zero, -ℤ_zero_right, +ℤ_neg, ok, >>=-eq-ok,
}
use retail_system.Inventory.Adjustment.{get_stock_item_same}
use retail_system.Inventory.Ledger.{change, record_movement_effect}
use retail_system.Inventory.State.{Stock, get_stock_item, quantity_of, ledger_total}
use retail_system.Inventory.Transfers.{
  TransferLine, Transfer, out_request, send_line, send_lines, in_request, counted_qty, receive_line,
  receive_lines,
}

-- What a line takes out of one branch, for one variant.
unfoldable pub line_out : Stock → ℕ → TransferLine → ℤ
line_out s v l = if v == l.variant && s.tracked l.variant then l.qty_sent else pos 0

unfoldable pub sent_of : Stock → ℕ → List TransferLine → ℤ
sent_of s v [] = pos 0
sent_of s v (l ∷ ls) = line_out s v l +ℤ sent_of s v ls

-- What arrives at the other, where a count at nothing or less brings nothing in.
unfoldable pub line_in : Stock → ℕ → (ℕ → Option ℤ) → TransferLine → ℤ
line_in s v counted l =
    if v == l.variant && s.tracked l.variant then max_ℤ (pos 0) (counted_qty counted l) else pos 0

unfoldable pub received_of : Stock → ℕ → (ℕ → Option ℤ) → List TransferLine → ℤ
received_of s v counted [] = pos 0
received_of s v counted (l ∷ ls) = line_in s v counted l +ℤ received_of s v counted ls

abbrev pub at_branch : ℕ → ℕ → ℤ → ℤ
at_branch b b' q = if b == b' then q else pos 0

-- What stays the same along the loops: which products are tracked.
abbrev pub SameRules : Stock → Stock → Type 0
SameRules s s' = (s'.tracked ≡ s.tracked) × (s'.settings ≡ s.settings)

pub sent_of_rules :
    (s s' : Stock) (v : ℕ) (ls : List TransferLine)
    → s'.tracked ≡ s.tracked
    → sent_of s' v ls ≡ sent_of s v ls
unfolding sent_of line_out
sent_of_rules s s' v [] e = refl
sent_of_rules s s' v (l ∷ ls) e = rw (e, sent_of_rules s s' v ls e)

pub received_of_rules :
    (s s' : Stock) (v : ℕ) (counted : ℕ → Option ℤ) (ls : List TransferLine)
    → s'.tracked ≡ s.tracked
    → received_of s' v counted ls ≡ received_of s v counted ls
unfolding received_of line_in
received_of_rules s s' v counted [] e = refl
received_of_rules s s' v counted (l ∷ ls) e = rw (e, received_of_rules s s' v counted ls e)

-- A quantity falls at one branch by two amounts in turn.
pub fall_twice :
    (b f : ℕ) (q q' q'' x y : ℤ)
    → q' ≡ q -ℤ at_branch b f x
    → q'' ≡ q' -ℤ at_branch b f y
    → q'' ≡ q -ℤ at_branch b f (x +ℤ y)
fall_twice b f q q' q'' x y h k =
    rw (k, h)
      (elim (Bool-cases (b == f)) [ inl e ↦ rw e (omega int_laws) | inr e ↦ rw e (omega int_laws) ])

pub rise_twice :
    (b f : ℕ) (q q' q'' x y : ℤ)
    → q' ≡ q +ℤ at_branch b f x
    → q'' ≡ q' +ℤ at_branch b f y
    → q'' ≡ q +ℤ at_branch b f (x +ℤ y)
rise_twice b f q q' q'' x y h k =
    rw (k, h)
      (elim (Bool-cases (b == f)) [ inl e ↦ rw e (omega int_laws) | inr e ↦ rw e (omega int_laws) ])

send_line_effect :
    (t : Transfer) (l l' : TransferLine) (s s' : Stock) (b v : ℕ)
    → send_line t l s ≡ ok (l', s')
    → let out = at_branch b t.from_branch (line_out s v l) in
      (quantity_of b v s'.items ≡ quantity_of b v s.items -ℤ out)
      × (ledger_total b v s'.ledger ≡ ledger_total b v s.ledger -ℤ out)
      × SameRules s s'
unfolding send_line line_out change
send_line_effect t l l' s s' b v h =
    let items = (get_stock_item t.from_branch l.variant s.items).1 in
    ground (
      arith,
      get_stock_item_same t.from_branch l.variant b v s.items,
      record_movement_effect (out_request t l) (record s { items = items }) s' b v,
      +ℤ_neg (quantity_of b v s.items) l.qty_sent,
      +ℤ_neg (ledger_total b v s.ledger) l.qty_sent,
      +ℤ_zero (quantity_of b v s.items),
      +ℤ_zero (ledger_total b v s.ledger),
      -ℤ_zero_right (quantity_of b v s.items),
      -ℤ_zero_right (ledger_total b v s.ledger),
    )

pub send_lines_effect :
    (t : Transfer) (ls ls' : List TransferLine) (s s' : Stock) (b v : ℕ)
    → send_lines t ls s ≡ ok (ls', s')
    → let out = at_branch b t.from_branch (sent_of s v ls) in
      (quantity_of b v s'.items ≡ quantity_of b v s.items -ℤ out)
      × (ledger_total b v s'.ledger ≡ ledger_total b v s.ledger -ℤ out)
      × SameRules s s'
unfolding send_lines sent_of
send_lines_effect t [] ls' s s' b v h =
    ground
      (arith, -ℤ_zero_right (quantity_of b v s.items), -ℤ_zero_right (ledger_total b v s.ledger))
send_lines_effect t (l ∷ ls) ls' s s' b v h =
    let (p, e, h') = >>=-eq-ok (send_line t l s) _ h in
    let (p', e', h'') = >>=-eq-ok (send_lines t ls p.1) _ h' in
    let one = send_line_effect t l p.0 s p.1 b v e in
    let rest = send_lines_effect t ls p'.0 p.1 p'.1 b v e' in
    ground (
      arith,
      one,
      rest,
      sent_of_rules s p.1 v ls,
      fall_twice b t.from_branch (quantity_of b v s.items) (quantity_of b v p.1.items)
          (quantity_of b v s'.items) (line_out s v l) (sent_of s v ls),
      fall_twice b t.from_branch (ledger_total b v s.ledger) (ledger_total b v p.1.ledger)
          (ledger_total b v s'.ledger) (line_out s v l) (sent_of s v ls),
    )

receive_line_effect :
    (t : Transfer) (counted : ℕ → Option ℤ) (l l' : TransferLine) (s s' : Stock) (b v : ℕ)
    → receive_line t counted l s ≡ ok (l', s')
    → let come = at_branch b t.to_branch (line_in s v counted l) in
      (quantity_of b v s'.items ≡ quantity_of b v s.items +ℤ come)
      × (ledger_total b v s'.ledger ≡ ledger_total b v s.ledger +ℤ come)
      × SameRules s s'
unfolding receive_line line_in change max_ℤ
receive_line_effect t counted l l' s s' b v h = ground (
  arith,
  record_movement_effect (in_request t l (counted_qty counted l)) s s' b v,
  +ℤ_zero (quantity_of b v s.items),
  +ℤ_zero (ledger_total b v s.ledger),
)

pub receive_lines_effect :
    (t : Transfer) (counted : ℕ → Option ℤ) (ls ls' : List TransferLine) (s s' : Stock) (b v : ℕ)
    → receive_lines t counted ls s ≡ ok (ls', s')
    → let come = at_branch b t.to_branch (received_of s v counted ls) in
      (quantity_of b v s'.items ≡ quantity_of b v s.items +ℤ come)
      × (ledger_total b v s'.ledger ≡ ledger_total b v s.ledger +ℤ come)
      × SameRules s s'
unfolding receive_lines received_of
receive_lines_effect t counted [] ls' s s' b v h =
    ground (arith, +ℤ_zero (quantity_of b v s.items), +ℤ_zero (ledger_total b v s.ledger))
receive_lines_effect t counted (l ∷ ls) ls' s s' b v h =
    let (p, e, h') = >>=-eq-ok (receive_line t counted l s) _ h in
    let (p', e', h'') = >>=-eq-ok (receive_lines t counted ls p.1) _ h' in
    let one = receive_line_effect t counted l p.0 s p.1 b v e in
    let rest = receive_lines_effect t counted ls p'.0 p.1 p'.1 b v e' in
    ground (
      arith,
      one,
      rest,
      received_of_rules s p.1 v counted ls,
      rise_twice b t.to_branch (quantity_of b v s.items) (quantity_of b v p.1.items)
          (quantity_of b v s'.items) (line_in s v counted l) (received_of s v counted ls),
      rise_twice b t.to_branch (ledger_total b v s.ledger) (ledger_total b v p.1.ledger)
          (ledger_total b v s'.ledger) (line_in s v counted l) (received_of s v counted ls),
    )
