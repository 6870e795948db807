-- ===== src/Catalogue.antt =====
-- What a product sells at: `Variant.price_for` and `Price` of apps/catalog/models.py. A quantity
-- break begins at so many thousandths, an amount is in cents.
pub mod Tiers
mod Tests
use retail_system.Prelude.{
  ℕ, Bool, false, not, ◌&&◌, Option, none, some, List, [], ◌∷◌, ltb, leb, ◌==◌, if◌then◌else◌,
}

pub record Price : Type 0 where
  pub price_list : ℕ
  pub variant : ℕ
  pub amount : ℕ
  pub min_qty : ℕ

-- What selling reads of a product; `min_price` is 0 where it has none.
pub record Product : Type 0 where
  pub discount_allowed : Bool
  pub allows_decimal : Bool
  pub min_price : ℕ
  pub tax_rate : ℕ

pub record Catalogue : Type 0 where
  pub products : ℕ → Option Product
  pub prices : List Price
  pub is_active_list : ℕ → Bool
  pub is_default_list : ℕ → Bool

-- `self.prices.filter(price_list=…)`, or `price_list__is_default=True`.
unfoldable pub is_tier_of : Catalogue → Option ℕ → ℕ → Price → Bool
is_tier_of c list v p =
    p.variant == v
    && elim list [ none ↦ c.is_default_list p.price_list | some l ↦ p.price_list == l ]

unfoldable pub tiers_of : Catalogue → Option ℕ → ℕ → List Price → List Price
unfolding is_tier_of
tiers_of c list v [] = []
tiers_of c list v (p ∷ ps) =
    let rest = tiers_of c list v ps in if is_tier_of c list v p then p ∷ rest else rest

-- `.filter(min_qty__lte=qty).order_by("-min_qty").first()`
unfoldable pub deepest_tier : ℕ → List Price → Option Price
deepest_tier qty [] = none
deepest_tier qty (p ∷ ps) =
    let rest = deepest_tier qty ps in
    if leb p.min_qty qty
    then elim rest [ none ↦ some p | some r ↦ if ltb p.min_qty r.min_qty then some r else some p ]
    else rest

-- `.order_by("min_qty").first()`
unfoldable pub smallest_tier : List Price → Option Price
smallest_tier [] = none
smallest_tier (p ∷ ps) = elim (smallest_tier ps) [
  | none ↦ some p
  | some r ↦ if ltb r.min_qty p.min_qty then some r else some p
]

-- The end of `price_for`, on the rows of its query.
unfoldable pub tier_for : Option ℕ → ℕ → List Price → Option Price
unfolding deepest_tier smallest_tier
tier_for list qty ps = elim (deepest_tier qty ps) [
  | some p ↦ some p
  | none ↦ elim list [ none ↦ smallest_tier ps | some l ↦ none ]
]

abbrev pub amount_of : Option Price → Option ℕ
amount_of none = none
amount_of (some p) = some p.amount

unfoldable pub is_switched_off : Catalogue → Option ℕ → Bool
is_switched_off c none = false
is_switched_off c (some l) = not (c.is_active_list l)

unfoldable pub price_for : Catalogue → Option ℕ → ℕ → ℕ → Option ℕ
unfolding is_switched_off tiers_of tier_for
price_for c list v qty =
    if is_switched_off c list
    then none
    else amount_of (tier_for list qty (tiers_of c list v c.prices))

-- The same of rows that a page fetched before, in the order of their breaks: `fits[-1]`, else
-- `cached[0]`.
unfoldable pub last_fit : ℕ → List Price → Option Price
last_fit qty [] = none
last_fit qty (p ∷ ps) = elim (last_fit qty ps) [
  | none ↦ if leb p.min_qty qty then some p else none
  | some r ↦ some r
]

unfoldable pub first_row : List Price → Option Price
first_row [] = none
first_row (p ∷ ps) = some p

unfoldable pub cached_tier : ℕ → List Price → Option Price
unfolding last_fit first_row
cached_tier qty ps = elim (last_fit qty ps) [ none ↦ first_row ps | some p ↦ some p ]
