-- ===== src/Till/Sample.antt =====
-- A shop with one product and a sale of three units of it, on which the theorems are tried.
use retail_system.Prelude.{
  ◌≡◌, refl, true, false, none, some, List, [], ◌∷◌, arith, pos, ◌+ℤ◌, ◌*ℤ◌, neg, +ℤ_zero, All, ok,
  get_ok,
}
use retail_system.Inventory.Ledger.{IsConsistent}
use retail_system.Inventory.Movement.{record_movement}
use retail_system.Inventory.State.{
  MovementReason, Stock, find_item, item_or_new, save_item, quantity_of, ledger_total,
}
use retail_system.Till.Amounts.{CartLine, IsCovered}
use retail_system.Till.Checkout.{Checkout, already_stored, complete_sale}
use retail_system.Till.CheckoutLaws.{complete_sale_effect}
use retail_system.Till.State.{PaymentMethod, SaleStatus, Sale, Till}

-- Ten units of product 5 at branch 1, at 1.80 each; product 6 is not in the tables yet.
abbrev pub goods : Stock
goods = record {
  items =
      record {
        branch = 1;
        variant = 5;
        qty_on_hand = pos 10_000;
        avg_cost = 180;
        reorder_level = none;
        last_counted_at = none;
      }
      ∷ [];
  ledger =
      record {
        branch = 1;
        variant = 5;
        batch = none;
        qty_delta = pos 10_000;
        unit_cost = 180;
        reason = MovementReason.purchase;
        source = none;
        balance_after = pos 10_000;
      }
      ∷ [];
  events = [];
  settings = none;
  tracked = λ _. true;
}

pub goods-IsConsistent : IsConsistent goods
unfolding quantity_of find_item ledger_total
goods-IsConsistent b v = ground (arith, +ℤ_zero (pos 10_000))

abbrev pub morning : Till
morning = record {
  stock = goods;
  batches = [];
  sales = [];
  account = [];
  fiscal_provider = none;
  fiscal = [];
  events = [];
}

-- Three units at 11.80 with 1.00 off, and a typed item.
abbrev pub basket : List CartLine
basket =
    record { variant = some 5; qty = 3000; unit_price = 1180; discount = 100; tax_rate = 1800 }
    ∷ record { variant = none; qty = 500; unit_price = 365; discount = 0; tax_rate = 0 }
    ∷ []

pub basket-IsCovered : All IsCovered basket
basket-IsCovered = omega arith

abbrev pub checkout : Checkout
checkout = record {
  branch = 1;
  customer = some 7;
  lines = basket;
  payments =
      record { method = PaymentMethod.cash; amount = 1623; change_given = 0 }
      ∷ record { method = PaymentMethod.credit; amount = 2000; change_given = 0 }
      ∷ [];
  shift = some 2;
  client_uuid = some 77;
  invoice = none;
  respect_stock_setting = false;
  number = 1;
}

abbrev pub no_sale : Sale
no_sale = record {
  number = 0;
  client_uuid = none;
  branch = 0;
  shift = none;
  customer = none;
  invoice = none;
  subtotal = 0;
  discount_total = 0;
  tax_total = pos 0;
  total = pos 0;
  status = SaleStatus.completed;
  lines = [];
  payments = [];
  returns = [];
}

abbrev pub done : Sale × Till
done = get_ok (no_sale, morning) (complete_sale checkout morning)

pub sale_run : complete_sale checkout morning ≡ ok (done.0, done.1)
unfolding complete_sale record_movement item_or_new find_item save_item ◌+ℤ◌ ◌*ℤ◌ neg
sale_run = refl

pub not_stored : already_stored checkout morning ≡ none
unfolding already_stored
not_stored = refl

pub done-IsConsistent : IsConsistent done.1.stock
done-IsConsistent =
    (complete_sale_effect checkout morning done.1 done.0 goods-IsConsistent not_stored sale_run).1
