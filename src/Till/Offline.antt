-- ===== src/Till/Offline.antt =====
-- `_store_offline_sale` of apps/sync/views.py: every sale that a till sends. The branch and the shift
-- are those of `_resolve_shift`, the list of the new cart is that of `new_cart`.
use retail_system.Prelude.{
  ℕ, Bool, false, Option, none, some, List, [], ◌∷◌, if◌then◌else◌, Result, err, ok, raise_if,
  ◌>>=◌, ◌>>◌,
}
use retail_system.Access.State.{mem_key}
use retail_system.Catalogue.{Catalogue}
use retail_system.Till.Acceptance.{SaleEntry, CheckedSale, ShopTables, check_sale}
use retail_system.Till.Amounts.{CartLine}
use retail_system.Till.Baskets.{Item, BasketError, add_to_cart}
use retail_system.Till.Checkout.{Checkout, complete_sale}
use retail_system.Till.State.{Sale, Till, TillError, find_uuid}
use retail_system.Till.Validation.{RawLine, CheckedLine, Cashier, PhoneLine, Buyer, Rejected}

pub record Place : Type 0 where
  pub branch : ℕ
  pub shift : Option ℕ
  pub cart_list : Option ℕ
  pub number : ℕ
  pub used_elsewhere : ℕ → Bool

pub data StoreError : Type 0 where
  uuid_used_elsewhere : StoreError
  of_check : Rejected → StoreError
  of_basket : BasketError → StoreError
  of_till : TillError → StoreError

abbrev pub lift_check {ℓ} : {A : Type ℓ} → Result Rejected A → Result StoreError A
lift_check (ok a) = ok a
lift_check (err e) = err (of_check e)

abbrev pub lift_basket {ℓ} : {A : Type ℓ} → Result BasketError A → Result StoreError A
lift_basket (ok a) = ok a
lift_basket (err e) = err (of_basket e)

abbrev pub lift_checkout {ℓ} : {A : Type ℓ} → Result TillError A → Result StoreError A
lift_checkout (ok a) = ok a
lift_checkout (err e) = err (of_till e)

abbrev pub item_of : CheckedLine → Item
item_of l = record {
  variant = l.variant;
  qty = l.qty;
  unit_price = some l.unit_price;
  discount = l.discount;
}

-- `for line in checked.lines: add_to_cart(…)`
unfoldable pub fill_cart :
    ℕ → Catalogue → Option ℕ → List CheckedLine → List CartLine → Result BasketError (List CartLine)
unfolding add_to_cart
fill_cart f c list [] cart = ok cart
fill_cart f c list (l ∷ ls) cart = do
  cart' ← add_to_cart f c list (item_of l) cart
  fill_cart f c list ls cart'

abbrev pub pk_of_buyer : Option Buyer → Option ℕ
pk_of_buyer none = none
pk_of_buyer (some b) = some b.pk

abbrev pub checkout_of : Place → CheckedSale → List CartLine → Checkout
checkout_of p k cart = record {
  branch = p.branch;
  customer = pk_of_buyer k.customer;
  lines = cart;
  payments = k.payments;
  shift = p.shift;
  client_uuid = some k.client_uuid;
  invoice = none;
  respect_stock_setting = false;
  number = p.number;
}

-- The basket lines that the entry names.
unfoldable pub named_lines : List RawLine → List ℕ
named_lines [] = []
named_lines (r ∷ rs) =
    let rest = named_lines rs in elim r.cart_line [ none ↦ rest | some k ↦ k.pk ∷ rest ]

-- `mark_basket_lines_sold`: a line that has been sold cannot vouch again.
unfoldable pub mark_sold : List ℕ → List PhoneLine → List PhoneLine
unfolding mem_key
mark_sold ids [] = []
mark_sold ids (p ∷ ps) =
    (if mem_key p.pk ids then record p { can_vouch = false } else p) ∷ mark_sold ids ps

unfoldable pub store_new_sale :
    Cashier
    → ShopTables
    → Place
    → SaleEntry
    → Till
    → Result StoreError (Sale × Till × List PhoneLine)
unfolding check_sale fill_cart complete_sale mark_sold named_lines
store_new_sale who s p entry t = do
  raise_if (p.used_elsewhere entry.client_uuid) uuid_used_elsewhere
  checked ← lift_check (check_sale who s t.account entry)
  cart ← lift_basket (fill_cart entry.parts s.catalogue p.cart_list checked.lines [])
  (sale, t') ← lift_checkout (complete_sale (checkout_of p checked cart) t)
  ok (sale, t', mark_sold (named_lines entry.lines) s.phone_lines)

-- With the basket lines as they are afterwards.
unfoldable pub store_offline_sale :
    Cashier
    → ShopTables
    → Place
    → SaleEntry
    → Till
    → Result StoreError (Sale × Till × List PhoneLine)
unfolding store_new_sale find_uuid
store_offline_sale who s p entry t = elim (find_uuid entry.client_uuid t.sales) [
  | some sale ↦ ok (sale, t, s.phone_lines)
  | none ↦ store_new_sale who s p entry t
]
