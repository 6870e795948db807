-- ===== src/Inventory/TransferLaws.antt =====
-- A whole transfer: sent by one branch, accepted by the other.
use retail_system.Prelude.{
  ℕ, ◌≡◌, refl, ◌≢◌, not, Option, none, List, [], ◌∷◌, arith, ℤ, pos, ◌+ℤ◌, ◌-ℤ◌, ◌≤ℤ◌, max_ℤ,
  eq_of_parts, int_laws, +ℤ_zero, -ℤ_zero_right, All, ok, err, raise_if, >>=-eq-ok,
}
use retail_system.Inventory.Ledger.{IsConsistent}
use retail_system.Inventory.State.{Stock, not_draft, not_sent, quantity_of, ledger_total}
use retail_system.Inventory.Transfers.{
  TransferLine, Transfer, send_line, send_lines, is_draft, is_sent, send_transfer, counted_qty,
  receive_lines, receive_transfer,
}
use retail_system.Inventory.Transit.{
  line_out, sent_of, line_in, received_of, at_branch, received_of_rules, send_lines_effect,
  receive_lines_effect,
}

-- An amount that leaves one quantity for another.
pour : (a b c : ℤ) → a -ℤ c +ℤ (b +ℤ c) ≡ a +ℤ b
pour a b c = omega int_laws

send_line_keeps :
    (t : Transfer) (l l' : TransferLine) (s s' : Stock)
    → send_line t l s ≡ ok (l', s')
    → (l'.pk ≡ l.pk) × (l'.variant ≡ l.variant) × (l'.qty_sent ≡ l.qty_sent)
unfolding send_line
send_line_keeps t l l' s s' h = ground arith

line_in_congr :
    (s : Stock) (v : ℕ) (counted : ℕ → Option ℤ) (l l' : TransferLine)
    → (l'.pk ≡ l.pk) × (l'.variant ≡ l.variant) × (l'.qty_sent ≡ l.qty_sent)
    → line_in s v counted l' ≡ line_in s v counted l
unfolding line_in counted_qty
line_in_congr s v counted l l' e = rw (e.0, e.1, e.2)

received_of-send_lines :
    (t : Transfer) (ls ls' : List TransferLine) (s s' s₀ : Stock) (v : ℕ) (counted : ℕ → Option ℤ)
    → send_lines t ls s ≡ ok (ls', s')
    → received_of s₀ v counted ls' ≡ received_of s₀ v counted ls
unfolding send_lines received_of
received_of-send_lines t [] ls' s s' s₀ v counted h = ground arith
received_of-send_lines t (l ∷ ls) ls' s s' s₀ v counted h =
    let (p, e, h') = >>=-eq-ok (send_line t l s) _ h in
    let (p', e', h'') = >>=-eq-ok (send_lines t ls p.1) _ h' in
    ground (
      arith,
      line_in_congr s₀ v counted l p.0 (send_line_keeps t l p.0 s p.1 e),
      received_of-send_lines t ls p'.0 p.1 p'.1 s₀ v counted e',
    )

-- Sending takes the sent quantities out of the sending branch alone and leaves the cache in step
-- with the ledger; the transfer is then marked sent, and cannot be sent again.
pub send_transfer_effect :
    (now later : ℕ) (t t' : Transfer) (s s' : Stock)
    → IsConsistent s
    → send_transfer now t s ≡ ok (t', s')
    → ((b v : ℕ)
        → quantity_of b v s'.items
          ≡ quantity_of b v s.items -ℤ at_branch b t.from_branch (sent_of s v t.lines))
      × IsConsistent s'
      × (send_transfer later t' s' ≡ err not_draft)
unfolding send_transfer
send_transfer_effect now later t t' s s' c h =
    let (u, g, h₁) = >>=-eq-ok (raise_if (not (is_draft t.status)) not_draft) _ h in
    let (p, e, h₂) = >>=-eq-ok (send_lines t t.lines s) _ h₁ in
    (
      λ b v. ground (arith, send_lines_effect t t.lines p.0 s p.1 b v e),
      λ b v. ground (arith, send_lines_effect t t.lines p.0 s p.1 b v e, c b v),
      ground arith,
    )

both_ways :
    (now later : ℕ) (t t' t'' : Transfer) (counted : ℕ → Option ℤ) (s s' s'' : Stock) (b v : ℕ)
    → send_transfer now t s ≡ ok (t', s')
    → receive_transfer later t' counted s' ≡ ok (t'', s'')
    → let out = at_branch b t.from_branch (sent_of s v t.lines) in
      let come = at_branch b t.to_branch (received_of s v counted t.lines) in
      (quantity_of b v s''.items ≡ quantity_of b v s.items -ℤ out +ℤ come)
      × (ledger_total b v s''.ledger ≡ ledger_total b v s.ledger -ℤ out +ℤ come)
unfolding send_transfer receive_transfer
both_ways now later t t' t'' counted s s' s'' b v h k =
    let (u, g, h₁) = >>=-eq-ok (raise_if (not (is_draft t.status)) not_draft) _ h in
    let (p, e, h₂) = >>=-eq-ok (send_lines t t.lines s) _ h₁ in
    let (u', g', k₁) = >>=-eq-ok (raise_if (not (is_sent t'.status)) not_sent) _ k in
    let (p', e', k₂) = >>=-eq-ok (receive_lines t' counted t'.lines s') _ k₁ in
    ground (
      arith,
      send_lines_effect t t.lines p.0 s p.1 b v e,
      receive_lines_effect t' counted t'.lines p'.0 s' p'.1 b v e',
      received_of_rules s s' v counted t.lines,
      received_of-send_lines t t.lines p.0 s p.1 s' v counted e,
    )

accepted_once :
    (later : ℕ) (t t' : Transfer) (counted : ℕ → Option ℤ) (s s' : Stock)
    → receive_transfer later t counted s ≡ ok (t', s')
    → receive_transfer later t' counted s' ≡ err not_sent
unfolding receive_transfer
accepted_once later t t' counted s s' h =
    let (u, g, h₁) = >>=-eq-ok (raise_if (not (is_sent t.status)) not_sent) _ h in
    let (p, e, h₂) = >>=-eq-ok (receive_lines t counted t.lines s) _ h₁ in ground arith

-- Sent and then accepted, a transfer takes what was sent out of one branch and brings what was
-- counted, where that is more than nothing, into the other; no other quantity moves, the cache
-- stays in step with the ledger, and the transfer cannot be accepted again.
pub transfer_effect :
    (now later : ℕ) (t t' t'' : Transfer) (counted : ℕ → Option ℤ) (s s' s'' : Stock)
    → IsConsistent s
    → send_transfer now t s ≡ ok (t', s')
    → receive_transfer later t' counted s' ≡ ok (t'', s'')
    → ((b v : ℕ)
        → quantity_of b v s''.items
          ≡ quantity_of b v s.items
            -ℤ at_branch b t.from_branch (sent_of s v t.lines)
            +ℤ at_branch b t.to_branch (received_of s v counted t.lines))
      × IsConsistent s''
      × (receive_transfer later t'' counted s'' ≡ err not_sent)
transfer_effect now later t t' t'' counted s s' s'' c h k = (
  λ b v. (both_ways now later t t' t'' counted s s' s'' b v h k).0,
  λ b v. ground (arith, both_ways now later t t' t'' counted s s' s'' b v h k, c b v),
  accepted_once later t' t'' counted s' s'' k,
)

-- No line is sent with less than nothing.
abbrev pub AllSent : List TransferLine → Type 0
AllSent = All λ l. pos 0 ≤ℤ l.qty_sent

received_of-none :
    (s : Stock) (v : ℕ) (ls : List TransferLine)
    → AllSent ls
    → received_of s v (λ _. none) ls ≡ sent_of s v ls
unfolding received_of sent_of line_in line_out counted_qty max_ℤ
received_of-none s v [] a = refl
received_of-none s v (l ∷ ls) a =
    ground (arith, received_of-none s v ls a.1, eq_of_parts l.qty_sent (pos 0))

-- Where the other branch counts nothing differently, nothing is lost on the road: what the two
-- branches hold of a product together is the same before and after.
pub transfer_conserves :
    (now later : ℕ) (t t' t'' : Transfer) (s s' s'' : Stock) (v : ℕ)
    → t.from_branch ≢ t.to_branch
    → AllSent t.lines
    → send_transfer now t s ≡ ok (t', s')
    → receive_transfer later t' (λ _. none) s' ≡ ok (t'', s'')
    → quantity_of t.from_branch v s''.items +ℤ quantity_of t.to_branch v s''.items
      ≡ quantity_of t.from_branch v s.items +ℤ quantity_of t.to_branch v s.items
transfer_conserves now later t t' t'' s s' s'' v ne a h k =
    let f = t.from_branch in
    let g = t.to_branch in
    let at_from = (both_ways now later t t' t'' (λ _. none) s s' s'' f v h k).0 in
    let at_to = (both_ways now later t t' t'' (λ _. none) s s' s'' g v h k).0 in
    ground (
      arith,
      at_from,
      at_to,
      received_of-none s v t.lines a,
      +ℤ_zero (quantity_of f v s.items -ℤ sent_of s v t.lines),
      -ℤ_zero_right (quantity_of g v s.items),
      pour (quantity_of f v s.items) (quantity_of g v s.items) (sent_of s v t.lines),
    )
