-- ===== src/Selling/Discounts.antt =====
-- What the shop and the product allow off: `combined_discount`, `check_discount`,
-- `check_product_rules` and `check_document_discounts` of apps/selling/services.py.
use retail_system.Prelude.{
  ℕ, ◌-◌, ◌*◌, Bool, not, ◌&&◌, ◌||◌, Option, none, some, List, [], ◌∷◌, ltb, ◌==◌, if◌then◌else◌,
  Result, ok, raise_if, ◌>>◌,
}
use retail_system.Money.{half_even}
use retail_system.Selling.Documents.{DocLine, Document}

-- `min_price` is 0 where the product has none, which the code reads as no floor either.
pub record Rules : Type 0 where
  pub max_document_discount : ℕ
  pub stock_out_on_invoice : Bool
  pub discount_allowed : ℕ → Bool
  pub min_price : ℕ → ℕ

pub data DiscountError : Type 0 where
  above_limit not_discountable below_floor : DiscountError

-- Of 100%, in hundredths: what the line leaves, of what the document leaves.
abbrev pub share_left : ℕ → ℕ → ℕ
share_left line document = (10_000 - line) * (10_000 - document)

unfoldable pub combined_discount : ℕ → ℕ → ℕ
unfolding half_even
combined_discount line document = half_even (100_000_000 - share_left line document) 10_000

unfoldable pub check_discount : Rules → ℕ → ℕ → Result DiscountError (Unit {0})
unfolding combined_discount
check_discount r line document =
    raise_if (ltb r.max_document_discount (combined_discount line document)) above_limit

-- `each < floor`, without the divisions: the rate is in millionths.
abbrev pub is_below_floor : ℕ → ℕ → ℕ → ℕ → ℕ → Bool
is_below_floor floor unit_price rate line document =
    ltb (unit_price * rate * share_left line document) (floor * 100_000_000_000_000)

unfoldable pub check_product_rules :
    Rules → Option ℕ → ℕ → ℕ → ℕ → ℕ → Result DiscountError (Unit {0})
check_product_rules r variant unit_price line document rate = elim variant [
  | none ↦ ok tt
  | some v ↦
      raise_if (not (r.discount_allowed v) && (not (line == 0) || not (document == 0)))
        not_discountable
      >> raise_if
          (not (r.min_price v == 0) && is_below_floor (r.min_price v) unit_price rate line document)
          below_floor
]

-- `max((line.discount_percent for line in lines), default=0)`
unfoldable pub deepest : List DocLine → ℕ
deepest [] = 0
deepest (l ∷ ls) =
    let rest = deepest ls in if ltb rest l.discount_percent then l.discount_percent else rest

unfoldable pub check_lines : Rules → Document → List DocLine → Result DiscountError (Unit {0})
unfolding check_product_rules
check_lines r d [] = ok tt
check_lines r d (l ∷ ls) =
    check_product_rules r l.variant l.unit_price l.discount_percent d.discount_percent
      d.exchange_rate
    >> check_lines r d ls

unfoldable pub check_document_discounts : Rules → Document → Result DiscountError (Unit {0})
unfolding check_discount deepest check_lines
check_document_discounts r d =
    check_discount r (deepest d.lines) d.discount_percent >> check_lines r d d.lines
