-- ===== src/Catalogue/Tests.antt =====
-- Prices of a bottle and a crate, in the order of their breaks.
use retail_system.Prelude.{◌≡◌, refl, none, some, List, [], ◌∷◌, arith}
use retail_system.Catalogue.{Price, tier_for, amount_of, cached_tier}
use retail_system.Catalogue.Tiers.{cached_tier-eq-query}

abbrev breaks : List Price
breaks =
    record { price_list = 1; variant = 5; amount = 1200; min_qty = 1000 }
    ∷ record { price_list = 1; variant = 5; amount = 1000; min_qty = 24_000 }
    ∷ []

cached_tier-eq-query_example : cached_tier 30_000 breaks ≡ tier_for none 30_000 breaks
cached_tier-eq-query_example = cached_tier-eq-query 30_000 breaks (omega arith)

-- The crate's price for thirty, the bottle's for half a bottle.
break_run :
    (amount_of (tier_for none 30_000 breaks) ≡ some 1000)
    × (amount_of (cached_tier 500 breaks) ≡ some 1200)
    × (amount_of (tier_for (some 2) 500 breaks) ≡ none)
unfolding tier_for cached_tier
break_run = (refl, refl, refl)
