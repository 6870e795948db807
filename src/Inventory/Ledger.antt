-- ===== src/Inventory/Ledger.antt =====
-- What `record_movement` of apps/inventory/services.py does to the cached quantities and the ledger.
use retail_system.Prelude.{
  ℕ, ◌≡◌, ◌≢◌, ◌↔◌, true, false, ◌&&◌, arith, if◌then◌else◌, ℤ, pos, ◌+ℤ◌, neg, ◌<ℤ◌, eq_of_parts,
  +ℤ_zero, +ℤ_comm, ok, err,
}
use retail_system.Inventory.Movement.{
  Request, movement_of, item_after, may_go_negative, write_movement, record_movement,
}
use retail_system.Inventory.State.{
  Stock, insufficient_stock, is_at, item_or_new, quantity_of, ledger_total, quantity_of-save_item,
  item_or_new_at,
}

-- The cache holds what the ledger adds up to, at every branch and for every variant.
abbrev pub IsConsistent : Stock → Type 0
IsConsistent s = (b v : ℕ) → quantity_of b v s.items ≡ ledger_total b v s.ledger

-- The change that a request makes to the quantity of a variant at a branch.
unfoldable pub change : Stock → Request → ℕ → ℕ → ℤ
change s r b v = if is_at b v r.branch r.variant && s.tracked r.variant then r.qty_delta else pos 0

write_movement_effect :
    (r : Request) (s s' : Stock) (b v : ℕ)
    → write_movement s (item_or_new r.branch r.variant s.items) r ≡ ok s'
    → let d = if is_at b v r.branch r.variant then r.qty_delta else pos 0 in
      (quantity_of b v s'.items ≡ quantity_of b v s.items +ℤ d)
      × (ledger_total b v s'.ledger ≡ ledger_total b v s.ledger +ℤ d)
      × (s'.tracked ≡ s.tracked)
      × (s'.settings ≡ s.settings)
unfolding write_movement movement_of item_after ledger_total
write_movement_effect r s s' b v h = ground (
  arith,
  quantity_of-save_item b v (item_after s (item_or_new r.branch r.variant s.items) r) s.items,
  item_or_new_at r.branch r.variant s.items,
  +ℤ_zero (quantity_of b v s.items),
  +ℤ_zero (ledger_total b v s.ledger),
  +ℤ_comm r.qty_delta (ledger_total b v s.ledger),
)

-- A movement that is written changes the quantity and the ledger alike, at its own branch and
-- variant alone.
pub record_movement_effect :
    (r : Request) (s s' : Stock) (b v : ℕ)
    → record_movement r s ≡ ok s'
    → (quantity_of b v s'.items ≡ quantity_of b v s.items +ℤ change s r b v)
      × (ledger_total b v s'.ledger ≡ ledger_total b v s.ledger +ℤ change s r b v)
      × (s'.tracked ≡ s.tracked)
      × (s'.settings ≡ s.settings)
unfolding record_movement change
record_movement_effect r s s' b v h = ground (
  arith,
  write_movement_effect r s s' b v,
  +ℤ_zero (quantity_of b v s.items),
  +ℤ_zero (ledger_total b v s.ledger),
  eq_of_parts r.qty_delta (pos 0),
)

-- Every movement keeps the cache in step with the ledger, at every branch and for every variant.
pub record_movement-IsConsistent :
    (r : Request) (s s' : Stock) → IsConsistent s → record_movement r s ≡ ok s' → IsConsistent s'
record_movement-IsConsistent r s s' c h b v =
    ground (arith, record_movement_effect r s s' b v, c b v)

-- `InsufficientStock` is raised exactly for a tracked variant whose quantity would fall below zero
-- where neither the caller nor, if the caller leaves it open, the shop allows that.
pub record_movement_refused :
    (r : Request) (s : Stock)
    → let held = quantity_of r.branch r.variant s.items in
      (record_movement r s ≡ err (insufficient_stock held (neg r.qty_delta))) ↔ (
        (s.tracked r.variant ≡ true)
        × (may_go_negative s r ≡ false)
        × (r.qty_delta ≢ pos 0)
        × (held +ℤ r.qty_delta <ℤ pos 0))
unfolding record_movement write_movement
record_movement_refused r s =
    grind (arith, item_or_new_at r.branch r.variant s.items, eq_of_parts r.qty_delta (pos 0))
