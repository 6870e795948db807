-- ===== src/Inventory/Refinement.antt =====
-- The services of apps/inventory/services.py keep what they promise of the quantities.
use mathlib.Core.Path.{fun_ext, subst, ap₂}
use retail_system.Prelude.{
  ℕ, ◌≡◌, refl, sym, ap, ◌∙◌, inl, inr, not, Option, List, [], ◌∷◌, arith, if◌then◌else◌, ℤ, ◌+ℤ◌,
  +ℤ_zero, Result, ok, raise_if, >>=-eq-ok, ok-injective, Result-cases,
}
use retail_system.Inventory.Adjustment.{Adjust, adjust, adjust_effect}
use retail_system.Inventory.CountLaws.{counted_change_rules, apply_count_effect, apply_count_rules}
use retail_system.Inventory.Counts.{StockCount, apply_count}
use retail_system.Inventory.Ledger.{IsConsistent, change, record_movement_effect}
use retail_system.Inventory.Movement.{Request, record_movement}
use retail_system.Inventory.Rebuild.{
  rebuild_stock_items, rebuild_stock_items_idle, ensure_stock_items,
}
use retail_system.Inventory.RebuildLaws.{ensure_stock_items_complete}
use retail_system.Inventory.Services.{
  Service, movement, adjustment, sending, arrival, counting, rebuilding, new_rows, perform, kept,
  run, was_accepted, accepted, empty_shop, promised, replay, holdings,
}
use retail_system.Inventory.State.{
  Stock, StockError, not_draft, not_sent, quantity_of, ledger_total,
}
use retail_system.Inventory.Transfers.{
  Transfer, send_lines, is_draft, is_sent, send_transfer, receive_lines, receive_transfer,
}
use retail_system.Inventory.Transit.{
  at_branch, sent_of_rules, received_of_rules, send_lines_effect, receive_lines_effect,
}

-- One service, accepted.
abbrev Keeps : Service → Stock → Stock → ℕ → ℕ → Type 0
Keeps x s s' b v =
    (quantity_of b v s'.items ≡ promised s.tracked x (holdings s) b v)
    × (ledger_total b v s'.ledger ≡ quantity_of b v s'.items)
    × (s'.tracked ≡ s.tracked)

movement-Keeps :
    (r : Request) (s s' : Stock) (b v : ℕ)
    → IsConsistent s
    → record_movement r s ≡ ok s'
    → Keeps (movement r) s s' b v
unfolding promised change
movement-Keeps r s s' b v c h =
    ground (arith, record_movement_effect r s s' b v h, c b v, +ℤ_zero (quantity_of b v s.items))

adjustment-Keeps :
    (a : Adjust) (s s' : Stock) (b v : ℕ)
    → IsConsistent s
    → adjust a s ≡ ok s'
    → Keeps (adjustment a) s s' b v
unfolding promised
adjustment-Keeps a s s' b v c h =
    let (q, l, t) = adjust_effect a s s' b v h in (q, l (c b v) ∙ sym q, t)

sending-Keeps :
    (now : ℕ) (t t' : Transfer) (s s' : Stock) (b v : ℕ)
    → IsConsistent s
    → send_transfer now t s ≡ ok (t', s')
    → Keeps (sending now t) s s' b v
unfolding send_transfer promised
sending-Keeps now t t' s s' b v c h =
    let (u, g, h₁) = >>=-eq-ok (raise_if (not (is_draft t.status)) not_draft) _ h in
    let (p, e, h₂) = >>=-eq-ok (send_lines t t.lines s) _ h₁ in
    ground (
      arith,
      send_lines_effect t t.lines p.0 s p.1 b v e,
      sent_of_rules (empty_shop s.tracked) s v t.lines,
      c b v,
    )

arrival-Keeps :
    (now : ℕ) (t t' : Transfer) (counted : ℕ → Option ℤ) (s s' : Stock) (b v : ℕ)
    → IsConsistent s
    → receive_transfer now t counted s ≡ ok (t', s')
    → Keeps (arrival now t counted) s s' b v
unfolding receive_transfer promised
arrival-Keeps now t t' counted s s' b v c h =
    let (u, g, h₁) = >>=-eq-ok (raise_if (not (is_sent t.status)) not_sent) _ h in
    let (p, e, h₂) = >>=-eq-ok (receive_lines t counted t.lines s) _ h₁ in
    ground (
      arith,
      receive_lines_effect t counted t.lines p.0 s p.1 b v e,
      received_of_rules (empty_shop s.tracked) s v counted t.lines,
      c b v,
    )

counting-Keeps :
    (now n : ℕ) (k k' : StockCount) (s s' : Stock) (b v : ℕ)
    → IsConsistent s
    → apply_count now k s ≡ ok (n, k', s')
    → Keeps (counting now k) s s' b v
unfolding promised
counting-Keeps now n k k' s s' b v c h =
    let (m, q, c', again) = apply_count_effect now now n k k' s s' c h in
    (
      q b v
          ∙ ap (λ x. quantity_of b v s.items +ℤ at_branch b k.branch x)
              (counted_change_rules (empty_shop s.tracked) s v k.lines refl),
      sym (c' b v),
      apply_count_rules now n k k' s s' h,
    )

rebuilding-Keeps :
    (b' : ℕ) (s : Stock) (b v : ℕ)
    → IsConsistent s
    → Keeps (rebuilding b') s (rebuild_stock_items b' s).1 b v
unfolding promised rebuild_stock_items
rebuilding-Keeps b' s b v c =
    let idle = rebuild_stock_items_idle b' b v s (c b' v) in (idle, sym (idle ∙ c b v), refl)

new_rows-Keeps :
    (b' : ℕ) (ids : List ℕ) (s : Stock) (b v : ℕ)
    → IsConsistent s
    → Keeps (new_rows b' ids) s (ensure_stock_items b' ids s).1 b v
unfolding promised ensure_stock_items
new_rows-Keeps b' ids s b v c =
    let (found, q, c') = ensure_stock_items_complete b' ids s c in (q b v, sym (c' b v), refl)

perform-Keeps :
    (x : Service) (s s' : Stock) (b v : ℕ) → IsConsistent s → perform x s ≡ ok s' → Keeps x s s' b v
unfolding perform
perform-Keeps (movement r) s s' b v c h = movement-Keeps r s s' b v c h
perform-Keeps (adjustment a) s s' b v c h = adjustment-Keeps a s s' b v c h
perform-Keeps (sending now t) s s' b v c h =
    let (p, e, k') = >>=-eq-ok (send_transfer now t s) _ h in
    subst (λ z. Keeps (sending now t) s z b v) (ok-injective k')
      (sending-Keeps now t p.0 s p.1 b v c e)
perform-Keeps (arrival now t counted) s s' b v c h =
    let (p, e, k') = >>=-eq-ok (receive_transfer now t counted s) _ h in
    subst (λ z. Keeps (arrival now t counted) s z b v) (ok-injective k')
      (arrival-Keeps now t p.0 counted s p.1 b v c e)
perform-Keeps (counting now k) s s' b v c h =
    let (p, e, k') = >>=-eq-ok (apply_count now k s) _ h in
    subst (λ z. Keeps (counting now k) s z b v) (ok-injective k')
      (counting-Keeps now p.0 k p.1 s p.2 b v c e)
perform-Keeps (rebuilding b') s s' b v c h =
    subst (λ z. Keeps (rebuilding b') s z b v) (ok-injective h) (rebuilding-Keeps b' s b v c)
perform-Keeps (new_rows b' ids) s s' b v c h =
    subst (λ z. Keeps (new_rows b' ids) s z b v) (ok-injective h) (new_rows-Keeps b' ids s b v c)

-- What is left to show after the first service of a run.
abbrev Refines : Service → List Service → Stock → Result StockError Stock → Type 0
Refines x xs s r =
    IsConsistent (run xs (kept s r))
    × (holdings (run xs (kept s r))
        ≡ replay s.tracked
            (if was_accepted r then x ∷ accepted xs (kept s r) else accepted xs (kept s r))
            (holdings s))

-- Over any sequence of movements, adjustments, transfers sent and received, counts, rebuilds and new
-- rows, of which the refused ones are rolled back, the cached quantities stay in step with the
-- ledger, and they are what the accepted services promise, one after the other, of the quantities
-- at the start.
pub run_refines :
    (xs : List Service) (s : Stock)
    → IsConsistent s
    → IsConsistent (run xs s)
      × (holdings (run xs s) ≡ replay s.tracked (accepted xs s) (holdings s))
unfolding run accepted replay kept
run_refines [] s c = (c, refl)
run_refines (x ∷ xs) s c = elim (Result-cases (perform x s)) [
  | inl (e, h) ↦ subst (Refines x xs s) (sym h) (run_refines xs s c)
  | inr (s', h) ↦
      let keeps = λ (b v : ℕ). perform-Keeps x s s' b v c h in
      let after : holdings s' ≡ promised s.tracked x (holdings s) =
        fun_ext λ b. fun_ext λ v. (keeps b v).0 in
      let (c', q) = run_refines xs s' (λ b v. sym (keeps b v).1) in
      subst (Refines x xs s) (sym h)
        (c', q ∙ ap₂ (λ t h. replay t (accepted xs s') h) (keeps 0 0).2 after)
]
