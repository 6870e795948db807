-- ===== src/Catalogue/Tiers.antt =====
-- About `price_for` of apps/catalog/models.py: the rows a page fetched before, and its query.
use retail_system.Prelude.{
  ℕ, ◌<◌, ◌≡◌, refl, inl, inr, none, some, List, [], ◌∷◌, arith, Option-cases, All,
}
use retail_system.Catalogue.{
  Price, deepest_tier, smallest_tier, tier_for, last_fit, first_row, cached_tier,
}

-- In the order of the breaks, no two of them the same: `unique_together`, and one default list.
abbrev pub IsAscending : List Price → Type 0
IsAscending [] = Unit
IsAscending (p ∷ ps) = All (λ r. p.min_qty < r.min_qty) ps × IsAscending ps

-- The deepest break that fits is none of those that are less deep.
deepest_above :
    (m qty : ℕ) (ps : List Price) (r : Price)
    → All (λ p. m < p.min_qty) ps
    → deepest_tier qty ps ≡ some r
    → m < r.min_qty
unfolding deepest_tier
deepest_above m qty [] r a h = cc
deepest_above m qty (p ∷ ps) r a h = elim (Option-cases (deepest_tier qty ps)) [
  | inl e ↦ ground arith
  | inr (r', e) ↦ ground (arith, deepest_above m qty ps r' a.1 e)
]

last_fit-eq-deepest :
    (qty : ℕ) (ps : List Price) → IsAscending ps → last_fit qty ps ≡ deepest_tier qty ps
unfolding last_fit deepest_tier
last_fit-eq-deepest qty [] a = refl
last_fit-eq-deepest qty (p ∷ ps) a = elim (Option-cases (deepest_tier qty ps)) [
  | inl e ↦ ground (arith, last_fit-eq-deepest qty ps a.1)
  | inr (r, e) ↦
      ground (arith, last_fit-eq-deepest qty ps a.1, deepest_above p.min_qty qty ps r a.0 e)
]

smallest_above :
    (m : ℕ) (ps : List Price) (r : Price)
    → All (λ p. m < p.min_qty) ps
    → smallest_tier ps ≡ some r
    → m < r.min_qty
unfolding smallest_tier
smallest_above m [] r a h = cc
smallest_above m (p ∷ ps) r a h = elim (Option-cases (smallest_tier ps)) [
  | inl e ↦ ground arith
  | inr (r', e) ↦ ground (arith, smallest_above m ps r' a.1 e)
]

first_row-eq-smallest : (ps : List Price) → IsAscending ps → first_row ps ≡ smallest_tier ps
unfolding first_row smallest_tier
first_row-eq-smallest [] a = refl
first_row-eq-smallest (p ∷ ps) a = elim (Option-cases (smallest_tier ps)) [
  | inl e ↦ ground arith
  | inr (r, e) ↦ ground (arith, smallest_above p.min_qty ps r a.0 e)
]

-- A list of products shows the price that the till asks: the row picked out of those fetched before,
-- in the order of their breaks, is the one that the query for the usual price finds.
pub cached_tier-eq-query :
    (qty : ℕ) (ps : List Price) → IsAscending ps → cached_tier qty ps ≡ tier_for none qty ps
unfolding cached_tier tier_for
cached_tier-eq-query qty ps a =
    ground (arith, last_fit-eq-deepest qty ps a, first_row-eq-smallest ps a)
