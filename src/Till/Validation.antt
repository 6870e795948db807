-- ===== src/Till/Validation.antt =====
-- What the server accepts from a till: `check_sale` of apps/pos/validation.py, whose payments are in
-- Tender. A device sends decimals of any length: `f` is the number of parts into which it divides a
-- thousandth of a quantity and a cent, and the figures of a line are whole numbers of such parts,
-- `none` where `decimal_or_none` reads no number. What the cashier may do is what `check_permission`
-- answers: Access.Resolve.
use retail_system.Prelude.{
  ℕ, ◌+◌, ◌*◌, ◌/◌, Bool, false, not, ◌&&◌, ◌||◌, Option, none, some, List, [], ◌∷◌, ◌++◌, ltb, leb,
  ◌==◌, if◌then◌else◌, ℤ, pos, pos_part, ◌+ℤ◌, ◌*ℤ◌, ltb_ℤ, Result, err, ok, raise_if, ◌>>◌,
}
use retail_system.Access.Resolve.{Decision}
use retail_system.Access.State.{mem_key}
use retail_system.Catalogue.{Product, Catalogue, price_for}
use retail_system.Till.Amounts.{exact}
use retail_system.Till.Tender.{SaleRejected, tolerance}

-- `cart_line_id` as it stands in the entry, equal tokens for equal values, and the key that
-- `decimal_or_none` reads from it: 5 and "5" are two values with one key.
pub record BasketId : Type 0 where
  pub spelling : ℕ
  pub pk : ℕ

-- `variant_id`, `cart_line_id` and the figures of a line that a device sends.
pub record RawLine : Type 0 where
  pub variant : Option ℕ
  pub cart_line : Option BasketId
  pub qty : Option ℤ
  pub unit_price : Option ℤ
  pub discount : Option ℤ

pub record CheckedLine : Type 0 where
  pub variant : Option ℕ
  pub qty : ℕ
  pub unit_price : ℕ
  pub discount : ℕ

-- The answers of `check_permission` to pos.discount, whose limit is in hundredths of a per cent, to
-- pos.open_item with a value in thousandths of a cent, a fraction, to credit.grant with one in cents,
-- and of `can` to pos.price_override.
pub record Cashier : Type 0 where
  pub discount : Decision
  pub open_item : ℕ → ℕ → Decision
  pub grant_credit : ℕ → Bool
  pub price_override : Bool

-- An open item of a basket that was built on a phone; `can_vouch` says that it was collected by code
-- and has not been sold since.
pub record PhoneLine : Type 0 where
  pub pk : ℕ
  pub can_vouch : Bool
  pub unit_price : ℕ
  pub qty : ℕ

pub record Buyer : Type 0 where
  pub pk : ℕ
  pub is_active : Bool
  pub price_list : Option ℕ
  pub credit_limit : ℤ

-- What is kept for the owner to look at.
pub data Review : Type 0 where
  customer_removed list_prices_used clock_ahead went_over_credit : Review
  -- By a till that rounds every line to a whole unit.
  rounded_total rounded_other : Review
  no_price_on_file below_today below_minimum : ℕ → Review

pub data LineRejected : Type 0 where
  bad_qty bad_price line_too_large bad_discount no_such_product : LineRejected
  open_item_refused keeps_its_price discount_too_deep whole_units_only : LineRejected

pub data Rejected : Type 0 where
  no_lines no_such_customer credit_without_customer credit_refused too_old : Rejected
  of_line : LineRejected → Rejected
  of_payments : SaleRejected → Rejected

-- MAX_QTY
abbrev pub max_qty : ℕ
max_qty = 100_000_000

-- A figure of a line within its bounds: `none` is out of them.
unfoldable pub read_within : ℤ → ℤ → Option ℤ → Option ℕ
read_within low high none = none
read_within low high (some n) = if ltb_ℤ n low || ltb_ℤ high n then none else some (pos_part n)

-- `raise SaleRejected` on a figure that is not there.
abbrev pub need {ℓ κ} : {E : Type ℓ} {A : Type κ} → Option A → E → Result E A
need none e = err e
need (some a) e = ok a

-- `_collected_open_item`
unfoldable pub vouches : ℕ → List PhoneLine → Option ℕ → ℕ → ℕ → Bool
vouches f ps none price qty = false
vouches f [] (some k) price qty = false
vouches f (p ∷ ps) (some k) price qty =
    let rest = vouches f ps (some k) price qty in
    if p.pk == k && p.can_vouch then f * p.unit_price == price && leb qty (f * p.qty) else rest

-- What a line stands on: a product of the catalogue, or nothing for an open item.
unfoldable pub find_product :
    ℕ
    → Catalogue
    → Cashier
    → List PhoneLine
    → List ℕ
    → RawLine
    → ℕ
    → ℕ
    → Result LineRejected (Option Product × List ℕ)
unfolding vouches mem_key
find_product f c who phone used r qty price =
    elim r.variant as (λ _. Result LineRejected (Option Product × List ℕ)) [
      | some v ↦ elim (c.products v) as (λ _. Result LineRejected (Option Product × List ℕ)) [
        | none ↦ err no_such_product
        | some p ↦ ok (some p, used)
      ]
      | none ↦ elim r.cart_line as (λ _. Result LineRejected (Option Product × List ℕ)) [
        | none ↦
            raise_if (not (who.open_item (qty * price) (f * f)).allowed) open_item_refused
            >> ok (none, used)
        | some k ↦
            if not (mem_key k.spelling used) && vouches f phone (some k.pk) price qty
            then ok (none, k.spelling ∷ used)
            else raise_if (not (who.open_item (qty * price) (f * f)).allowed) open_item_refused
              >> ok (none, used)
      ]
    ]

-- `percent > discount.limit + Decimal("0.01")`, without the division.
unfoldable pub is_too_deep : Decision → ℕ → ℕ → Bool
is_too_deep d exact discount = not d.allowed || elim d.limit [
  | none ↦ false
  | some l ↦ ltb_ℤ ((l +ℤ pos 1) *ℤ pos exact) (pos (10_000_000 * discount))
]

abbrev pub forbids_discount : Option Product → Bool
forbids_discount none = false
forbids_discount (some p) = not p.discount_allowed

abbrev pub needs_whole : Option Product → Bool
needs_whole none = false
needs_whole (some p) = not p.allows_decimal

-- The customer's list, else the usual price. A break begins at a whole number of thousandths, so the
-- quantity reaches it when its whole thousandths do.
unfoldable pub current_price : ℕ → Catalogue → Option ℕ → Option ℕ → ℕ → ℕ → Option ℕ
current_price f c own usual v qty =
    let standard = price_for c usual v (qty / f) in
    elim own [
      | none ↦ standard
      | some l ↦ elim (price_for c (some l) v (qty / f)) [ none ↦ standard | some a ↦ some a ]
    ]

unfoldable pub price_reviews : ℕ → Cashier → ℕ → Option ℕ → ℕ → List Review
price_reviews f who v current price = elim current [
  | none ↦ if who.price_override then [] else no_price_on_file v ∷ []
  | some a ↦
      if ltb (price + f * tolerance) (f * a) && not who.price_override
      then below_today v ∷ []
      else []
]

unfoldable pub floor_reviews : ℕ → ℕ → Option Product → ℕ → List Review
floor_reviews f v none price = []
floor_reviews f v (some p) price =
    if not (p.min_price == 0) && ltb (price + f * tolerance) (f * p.min_price)
    then below_minimum v ∷ []
    else []

unfoldable pub line_reviews :
    ℕ → Catalogue → Cashier → Option ℕ → Option ℕ → Option Product → CheckedLine → List Review
unfolding current_price price_reviews floor_reviews
line_reviews f c who own usual p l = elim l.variant [
  | none ↦ []
  | some v ↦
      price_reviews f who v (current_price f c own usual v l.qty) l.unit_price
      ++ floor_reviews f v p l.unit_price
]
