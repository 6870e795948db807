-- ===== src/Selling/Sample.antt =====
-- A shop with one product and an order for it, on which the theorems are tried.
use retail_system.Prelude.{
  true, false, none, some, [], ◌∷◌, arith, ◌==◌, if◌then◌else◌, pos, +ℤ_zero,
}
use retail_system.Inventory.Ledger.{IsConsistent}
use retail_system.Inventory.State.{MovementReason, Stock, find_item, quantity_of, ledger_total}
use retail_system.Selling.Discounts.{Rules}
use retail_system.Selling.Documents.{DocLine, Document}
use retail_system.Selling.Quotations.{new_invoice}
use retail_system.Selling.State.{QuotationStatus, Quotation, Invoice, Office}
use retail_system.Till.State.{Till}

abbrev pub store : Stock
store = record {
  items =
      record {
        branch = 1;
        variant = 5;
        qty_on_hand = pos 10_000;
        avg_cost = 800;
        reorder_level = none;
        last_counted_at = none;
      }
      ∷ [];
  ledger =
      record {
        branch = 1;
        variant = 5;
        batch = none;
        qty_delta = pos 10_000;
        unit_cost = 800;
        reason = MovementReason.purchase;
        source = none;
        balance_after = pos 10_000;
      }
      ∷ [];
  events = [];
  settings = none;
  tracked = λ _. true;
}

pub store-IsConsistent : IsConsistent store
unfolding quantity_of find_item ledger_total
store-IsConsistent b v = ground (arith, +ℤ_zero (pos 10_000))

abbrev pub counter : Till
counter = record {
  stock = store;
  batches = [];
  sales = [];
  account = [];
  fiscal_provider = none;
  fiscal = [];
  events = [];
}

abbrev pub shop_rules : Rules
shop_rules = record {
  max_document_discount = 2000;
  stock_out_on_invoice = true;
  discount_allowed = λ _. true;
  min_price = λ v. if v == 5 then 900 else 0;
}

-- Three bags at 11.80 with 10% off, and half a day of labour at 3.65, given away.
abbrev pub bags : DocLine
bags = record {
  pk = 1;
  variant = some 5;
  qty = 3000;
  unit_price = 1180;
  tax_rate = 1800;
  discount_percent = 1000;
}

abbrev pub labour : DocLine
labour = record {
  pk = 2;
  variant = none;
  qty = 500;
  unit_price = 365;
  tax_rate = 0;
  discount_percent = 10_000;
}

abbrev pub order : Document
order = record {
  lines = bags ∷ [];
  discount_percent = 500;
  adds_vat = false;
  is_foreign = false;
  exchange_rate = 1_000_000;
}

abbrev pub offer : Quotation
offer = record {
  pk = 3;
  branch = 1;
  customer = 7;
  status = QuotationStatus.accepted;
  issued_on = 100;
  valid_until = 114;
  doc = order;
}

abbrev pub desk : Office
desk = record {
  quotations = offer ∷ [];
  invoices = [];
  notes = [];
  till = counter;
  drawer = record { shifts = []; cash_movements = []; events = [] };
  rules = shop_rules;
  credit_limit = λ _. pos 5000;
}

abbrev pub proforma : Invoice
proforma = new_invoice 4 101 14 offer

abbrev pub billed : Office
billed = record desk { invoices = proforma ∷ [] }
