-- ===== src/Till/Baskets.antt =====
-- `add_to_cart` of apps/pos/services.py: what stands in a basket, in the order in which it came.
use retail_system.Prelude.{
  ℕ, ◌+◌, ◌*◌, ◌/◌, Bool, ◌&&◌, Option, none, some, List, [], ◌∷◌, ◌++◌, ◌==◌, if◌then◌else◌,
  is_some, Result, err, ok,
}
use retail_system.Catalogue.{Catalogue, price_for}
use retail_system.Customers.Account.{is_some_of}
use retail_system.Money.{half_up}
use retail_system.Till.Amounts.{CartLine}

-- A price per unit is given, or looked up. Figures are in `f` parts of a thousandth and of a cent; a
-- line of the basket is in whole ones, to which `price()` rounds the price, and the column of the
-- database the quantity and the discount, a half up.
pub record Item : Type 0 where
  pub variant : Option ℕ
  pub qty : ℕ
  pub unit_price : Option ℕ
  pub discount : ℕ

pub data BasketError : Type 0 where
  not_priced : ℕ → BasketError

abbrev pub is_alike : ℕ → CartLine → CartLine → ℕ → Bool
is_alike f l k discount =
    is_some_of l.variant (elim k.variant [ none ↦ 0 | some v ↦ v ])
    && is_some k.variant
    && l.unit_price == k.unit_price
    && f * l.discount == discount

-- The quantity goes onto the first line that is alike, whose discount is the one that is given, and
-- else makes a line of its own.
unfoldable pub put_line : ℕ → Item → CartLine → List CartLine → List CartLine
unfolding half_up
put_line f i k [] = k ∷ []
put_line f i k (l ∷ ls) =
    if is_alike f l k i.discount
    then record l { qty = half_up (f * l.qty + i.qty) f } ∷ ls
    else l ∷ put_line f i k ls

-- `price(unit_price)`: as it is given, else of the cart's list, else the usual one.
unfoldable pub basket_price : ℕ → Catalogue → Option ℕ → ℕ → ℕ → Option ℕ → Option ℕ
unfolding half_up
basket_price f c list v qty (some a) = some (half_up a f)
basket_price f c list v qty none = elim (price_for c list v (qty / f)) [
  | none ↦ price_for c none v (qty / f)
  | some a ↦ some a
]

abbrev pub rate_of : Catalogue → ℕ → ℕ
rate_of c v = elim (c.products v) [ none ↦ 0 | some p ↦ p.tax_rate ]

-- An open item takes its typed price, and no discount.
abbrev pub open_line : ℕ → Item → CartLine
open_line f i = record {
  variant = none;
  qty = half_up i.qty f;
  unit_price = elim i.unit_price [ none ↦ 0 | some a ↦ half_up a f ];
  discount = 0;
  tax_rate = 0;
}

abbrev pub product_line : ℕ → Catalogue → Item → ℕ → ℕ → CartLine
product_line f c i v price = record {
  variant = some v;
  qty = half_up i.qty f;
  unit_price = price;
  discount = half_up i.discount f;
  tax_rate = rate_of c v;
}

unfoldable pub add_to_cart :
    ℕ → Catalogue → Option ℕ → Item → List CartLine → Result BasketError (List CartLine)
unfolding put_line basket_price half_up
add_to_cart f c list i ls = elim i.variant as (λ _. Result BasketError (List CartLine)) [
  | none ↦ ok (ls ++ open_line f i ∷ [])
  | some v ↦
      elim (basket_price f c list v i.qty i.unit_price)
        as (λ _. Result BasketError (List CartLine)) [
          | none ↦ err (not_priced v)
          | some price ↦ ok (put_line f i (product_line f c i v price) ls)
        ]
]
