-- ===== src/Till/Counter.antt =====
-- A shop, its cashier and a sale that its till sends.
use retail_system.Prelude.{
  ◌*◌, true, false, none, some, [], ◌∷◌, leb, ◌==◌, if◌then◌else◌, pos, get_ok,
}
use retail_system.Catalogue.{Product, Catalogue}
use retail_system.Till.Acceptance.{SaleEntry, CheckedSale, ShopTables, check_sale}
use retail_system.Till.Offline.{Place}
use retail_system.Till.State.{PaymentMethod}
use retail_system.Till.Validation.{RawLine, Cashier}

abbrev pub cement_bag : Product
cement_bag = record {
  discount_allowed = true;
  allows_decimal = false;
  min_price = 1000;
  tax_rate = 1800;
}

abbrev pub hardware : Catalogue
hardware = record {
  products = λ v. if v == 5 then some cement_bag else none;
  prices = record { price_list = 1; variant = 5; amount = 1180; min_qty = 1000 } ∷ [];
  is_active_list = λ l. true;
  is_default_list = λ l. l == 1;
}

abbrev pub corner_shop : ShopTables
corner_shop = record {
  catalogue = hardware;
  usual_list = some 1;
  buyers = λ k.
      if k == 7
      then some (record { pk = 7; is_active = true; price_list = none; credit_limit = pos 50_000 })
      else none;
  phone_lines = [];
  now = 2_000_000;
}

-- Up to 5% off, open items up to 10.00.
abbrev pub cashier : Cashier
cashier = record {
  discount = record { allowed = true; reason = none; limit = some (pos 500); can_override = false };
  open_item = λ n d. record {
    allowed = leb n (1_000_000 * d);
    reason = none;
    limit = some (pos 1_000_000);
    can_override = false;
  };
  grant_credit = λ n. leb n 5000;
  price_override = false;
}

abbrev pub three_bags : RawLine
three_bags = record {
  variant = some 5;
  cart_line = none;
  qty = some (pos 3000);
  unit_price = some (pos 1180);
  discount = some (pos 100);
}

abbrev pub typed_item : RawLine
typed_item = record {
  variant = none;
  cart_line = none;
  qty = some (pos 500);
  unit_price = some (pos 365);
  discount = none;
}

abbrev pub sent : SaleEntry
sent = record {
  parts = 1;
  client_uuid = 77;
  customer = some 7;
  lines = three_bags ∷ typed_item ∷ [];
  payments =
      record { method = PaymentMethod.cash; amount = pos 2000; change_given = pos 0 }
      ∷ record { method = PaymentMethod.credit; amount = pos 2000; change_given = pos 0 }
      ∷ [];
  sold_at = some 1_999_000;
}

abbrev pub no_check : CheckedSale
no_check = record {
  client_uuid = 0;
  lines = [];
  payments = [];
  customer = none;
  sold_at = 0;
  review = [];
  total = 0;
}

abbrev pub taken_in : CheckedSale
taken_in = get_ok no_check (check_sale cashier corner_shop [] sent)

abbrev pub here : Place
here = record {
  branch = 1;
  shift = some 2;
  cart_list = some 1;
  number = 1;
  used_elsewhere = λ u. false;
}
