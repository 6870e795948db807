-- ===== src/Inventory/Costs.antt =====
-- What a movement does to the average cost.
use native.Mathlib.Nat.{mul-le-mul_left}
use retail_system.Prelude.{
  ℕ, ◌+◌, ◌*◌, ◌≤◌, ◌≡◌, inl, inr, none, some, arith, ◌==◌, Bool-cases, Option-cases, pos, pos_part,
  ◌≤ℤ◌,
}
use retail_system.Inventory.Movement.{Request, weighted, cost_after}
use retail_system.Inventory.State.{StockItem, Stock}
use retail_system.Money.Rounding.{half_even_between}

-- The rounded average of two priced quantities lies between any bounds of the two prices.
pub weighted_bounds :
    (lo hi held avg qty unit : ℕ)
    → lo ≤ avg
    → avg ≤ hi
    → lo ≤ unit
    → unit ≤ hi
    → (lo ≤ weighted held avg qty unit) × (weighted held avg qty unit ≤ hi)
unfolding weighted
weighted_bounds lo hi held avg qty unit a b c d = elim (Bool-cases (held + qty == 0)) [
  | inl e ↦ rw e (c, d)
  | inr e ↦ rw e (
      half_even_between lo hi (held * avg + qty * unit) (held + qty) (ground arith)
        (omega (arith, mul-le-mul_left held a, mul-le-mul_left qty c))
        (omega (arith, mul-le-mul_left held b, mul-le-mul_left qty d)))
]

-- Goods that come in at a cost leave the average between the average so far and that cost; goods
-- that go out, or come in at no stated cost, leave it as it was.
pub cost_after_bounds :
    (s : Stock) (item : StockItem) (r : Request) (lo hi : ℕ)
    → lo ≤ item.avg_cost
    → item.avg_cost ≤ hi
    → ((c : ℕ) → r.unit_cost ≡ some c → (lo ≤ c) × (c ≤ hi))
    → (lo ≤ cost_after s item r)
      × (cost_after s item r ≤ hi)
      × (r.qty_delta ≤ℤ pos 0 → cost_after s item r ≡ item.avg_cost)
      × (r.unit_cost ≡ none → cost_after s item r ≡ item.avg_cost)
unfolding cost_after
cost_after_bounds s item r lo hi a b f = elim (Option-cases r.unit_cost) [
  | inl e ↦ ground arith
  | inr (c, e) ↦ ground (
    arith,
    f c e,
    weighted_bounds lo hi (pos_part item.qty_on_hand) item.avg_cost (pos_part r.qty_delta) c,
  )
]
