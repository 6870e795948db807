-- ===== src/Till/State.antt =====
-- The tables that selling writes: sales with their lines, payments and returns, beside the stock
-- and the customers' accounts. A sale is known by its number.
use retail_system.Prelude.{
  ℕ, Bool, true, false, Option, none, some, List, [], ◌∷◌, ◌==◌, if◌then◌else◌, ℤ, Result, err, ok,
}
use retail_system.Customers.Account.{Account, is_some_of}
use retail_system.Inventory.Batches.{BatchRow}
use retail_system.Inventory.State.{Stock, StockError}

pub data PaymentMethod : Type 0 where
  cash mpesa tigopesa airtelmoney card credit voucher : PaymentMethod

pub data SaleStatus : Type 0 where
  completed voided refunded part_refunded : SaleStatus

pub record SaleLine : Type 0 where
  pub pk : ℕ
  pub variant : Option ℕ
  pub batch : Option ℕ
  pub qty : ℕ
  pub unit_price : ℕ
  pub unit_cost : ℕ
  pub discount : ℕ
  pub tax_rate : ℕ
  pub tax_amount : ℤ
  pub line_total : ℤ

pub record SalePayment : Type 0 where
  pub method : PaymentMethod
  pub amount : ℕ
  pub change_given : ℕ

pub record ReturnLine : Type 0 where
  pub sale_line : ℕ
  pub qty : ℕ
  pub amount : ℤ

pub record Return : Type 0 where
  pub method : PaymentMethod
  pub shift : Option ℕ
  pub restock : Bool
  pub lines : List ReturnLine
  pub total : ℤ
  pub cash_amount : ℤ
  pub credit_amount : ℤ
  pub other_amount : ℤ

pub record Sale : Type 0 where
  pub number : ℕ
  pub client_uuid : Option ℕ
  pub branch : ℕ
  pub shift : Option ℕ
  pub customer : Option ℕ
  pub invoice : Option ℕ
  pub subtotal : ℕ
  pub discount_total : ℕ
  pub tax_total : ℤ
  pub total : ℤ
  pub status : SaleStatus
  pub lines : List SaleLine
  pub payments : List SalePayment
  pub returns : List Return

pub data SaleEvent : Type 0 where
  sale_completed sale_voided sale_returned : ℕ → SaleEvent
  credit_extended : ℕ → ℕ → ℤ → SaleEvent

-- `fiscal_provider` is `none` without the feature, the settings or the provider; `fiscal` are the
-- sales whose fiscal receipt is queued. The newest sale stands first.
pub record Till : Type 0 where
  pub stock : Stock
  pub batches : List BatchRow
  pub sales : List Sale
  pub account : Account
  pub fiscal_provider : Option ℕ
  pub fiscal : List ℕ
  pub events : List SaleEvent

pub data TillError : Type 0 where
  nothing_to_sell sale_not_found not_completed invoiced_sale : TillError
  voided_sale refund_as_paid nothing_returned no_drawer : TillError
  too_many_returned : ℕ → TillError
  of_stock : StockError → TillError

abbrev pub is_completed : SaleStatus → Bool
is_completed SaleStatus.completed = true
is_completed _ = false

abbrev pub is_voided : SaleStatus → Bool
is_voided SaleStatus.voided = true
is_voided _ = false

abbrev pub is_credit : PaymentMethod → Bool
is_credit PaymentMethod.credit = true
is_credit _ = false

abbrev pub is_cash : PaymentMethod → Bool
is_cash PaymentMethod.cash = true
is_cash _ = false

-- A raise of the stock services, passed on.
abbrev pub lift_stock {ℓ} : {A : Type ℓ} → Result StockError A → Result TillError A
lift_stock (ok a) = ok a
lift_stock (err e) = err (of_stock e)

-- `Sale.objects.filter(client_uuid=…).first()`
unfoldable pub find_uuid : ℕ → List Sale → Option Sale
find_uuid u [] = none
find_uuid u (s ∷ ss) = if is_some_of s.client_uuid u then some s else find_uuid u ss

-- `Sale.objects.get(pk=…)`
unfoldable pub find_sale : ℕ → List Sale → Option Sale
find_sale n [] = none
find_sale n (s ∷ ss) = if n == s.number then some s else find_sale n ss

-- `sale.save()`
unfoldable pub save_sale : Sale → List Sale → List Sale
save_sale s [] = []
save_sale s (r ∷ rs) = if s.number == r.number then s ∷ rs else r ∷ save_sale s rs
