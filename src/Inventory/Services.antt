-- ===== src/Inventory/Services.antt =====
-- Any sequence of the services of apps/inventory/services.py, and what it promises: a quantity for
-- each branch and product, which every service that is not refused changes at the places it names.
use retail_system.Prelude.{
  ℕ, Bool, true, false, ◌&&◌, Option, none, List, [], ◌∷◌, if◌then◌else◌, ℤ, ◌+ℤ◌, ◌-ℤ◌, Result,
  err, ok, ◌>>=◌,
}
use retail_system.Inventory.Adjustment.{Adjust, adjust}
use retail_system.Inventory.CountLaws.{counted_change}
use retail_system.Inventory.Counts.{StockCount, apply_count}
use retail_system.Inventory.Movement.{Request, record_movement}
use retail_system.Inventory.Rebuild.{rebuild_stock_items, ensure_stock_items}
use retail_system.Inventory.State.{Stock, StockError, is_at, quantity_of}
use retail_system.Inventory.Transfers.{Transfer, send_transfer, receive_transfer}
use retail_system.Inventory.Transit.{sent_of, received_of, at_branch}
use retail_system.Purchasing.Receipts.{wanted}

-- How much there is of a product at a branch.
abbrev pub Holdings : Type 0
Holdings = ℕ → ℕ → ℤ

pub data Service : Type 0 where
  movement : Request → Service
  adjustment : Adjust → Service
  sending : ℕ → Transfer → Service
  arrival : ℕ → Transfer → (ℕ → Option ℤ) → Service
  counting : ℕ → StockCount → Service
  rebuilding : ℕ → Service
  new_rows : ℕ → List ℕ → Service

-- The service, as the code runs it.
unfoldable pub perform : Service → Stock → Result StockError Stock
perform (movement r) s = record_movement r s
perform (adjustment a) s = adjust a s
perform (sending now t) s = send_transfer now t s >>= λ p. ok p.1
perform (arrival now t counted) s = receive_transfer now t counted s >>= λ p. ok p.1
perform (counting now c) s = apply_count now c s >>= λ p. ok p.2
perform (rebuilding b) s = ok (rebuild_stock_items b s).1
perform (new_rows b wanted) s = ok (ensure_stock_items b wanted s).1

-- A refused call is rolled back.
unfoldable pub kept : Stock → Result StockError Stock → Stock
kept s (err e) = s
kept s (ok s') = s'

unfoldable pub run : List Service → Stock → Stock
unfolding perform kept
run [] s = s
run (x ∷ xs) s = run xs (kept s (perform x s))

abbrev pub was_accepted : Result StockError Stock → Bool
was_accepted (err e) = false
was_accepted (ok s') = true

-- The calls of a run that were not refused.
unfoldable pub accepted : List Service → Stock → List Service
unfolding perform kept
accepted [] s = []
accepted (x ∷ xs) s =
    let rest = accepted xs (kept s (perform x s)) in
    if was_accepted (perform x s) then x ∷ rest else rest

-- A shop with nothing in it, for its choice of the products that keep count.
abbrev pub empty_shop : (ℕ → Bool) → Stock
empty_shop tracked = record {
  items = [];
  ledger = [];
  events = [];
  settings = none;
  tracked = tracked;
}

-- What a service that is accepted promises of the quantities.
unfoldable pub promised : (ℕ → Bool) → Service → Holdings → Holdings
promised tracked (movement r) h b v =
    if is_at b v r.branch r.variant && tracked r.variant then h b v +ℤ r.qty_delta else h b v
promised tracked (adjustment a) h b v =
    if is_at b v a.branch a.variant && tracked a.variant then a.new_qty else h b v
promised tracked (sending now t) h b v =
    h b v -ℤ at_branch b t.from_branch (sent_of (empty_shop tracked) v t.lines)
promised tracked (arrival now t counted) h b v =
    h b v +ℤ at_branch b t.to_branch (received_of (empty_shop tracked) v counted t.lines)
promised tracked (counting now c) h b v =
    h b v +ℤ at_branch b c.branch (counted_change (empty_shop tracked) v c.lines)
promised tracked (rebuilding b') h b v = h b v
promised tracked (new_rows b' wanted) h b v = h b v

unfoldable pub replay : (ℕ → Bool) → List Service → Holdings → Holdings
unfolding promised
replay tracked [] h = h
replay tracked (x ∷ xs) h = replay tracked xs (promised tracked x h)

-- What a shop holds, by its cached quantities.
abbrev pub holdings : Stock → Holdings
holdings s b v = quantity_of b v s.items
