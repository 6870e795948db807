-- ===== src/Till/OfflineRuns.antt =====
-- Sales that a till sends and that are not written as they were checked, or vouched for twice: runs
-- of apps/pos/validation.py and apps/sync/views.py.
use retail_system.Prelude.{
  ℕ, ◌≡◌, refl, true, false, none, some, List, [], ◌∷◌, pos, ◌+ℤ◌, ◌*ℤ◌, neg, err, get_ok,
}
use retail_system.Inventory.Movement.{record_movement}
use retail_system.Inventory.State.{find_item, item_or_new, save_item}
use retail_system.Till.Acceptance.{SaleEntry, ShopTables, check_sale}
use retail_system.Till.Counter.{corner_shop, cashier, three_bags, typed_item, sent, no_check, here}
use retail_system.Till.Offline.{store_offline_sale}
use retail_system.Till.Sample.{morning, no_sale}
use retail_system.Till.State.{PaymentMethod, find_uuid}
use retail_system.Till.Validation.{RawLine, Cashier, open_item_refused, of_line}

-- Two lines of one bag at 0.50 off each make one line of two bags with 0.50 off in all: the sale
-- comes to 0.50 more than what was checked and paid.
abbrev one_bag : RawLine
one_bag = record three_bags { qty = some (pos 1000); discount = some (pos 50) }

abbrev twice : SaleEntry
twice = record sent {
  lines = one_bag ∷ one_bag ∷ [];
  payments = record { method = PaymentMethod.cash; amount = pos 2260; change_given = pos 0 } ∷ [];
}

merged_run :
    ((get_ok no_check (check_sale cashier corner_shop [] twice)).total ≡ 2260)
    × ((get_ok
          (no_sale, morning, [])
          (store_offline_sale cashier corner_shop here twice morning)).0.total
        ≡ pos 2310)
unfolding store_offline_sale check_sale find_uuid record_movement item_or_new find_item save_item
    ◌+ℤ◌ ◌*ℤ◌ neg
merged_run = (refl, refl)

-- Finer figures, in ten parts. A thousand bags at 10.005 each are checked at 10,005.00 and written at
-- 10.01 each. A quantity of 0.0004 of a thing that is not in the catalogue is written as nothing.
abbrev fine : RawLine
fine = record {
  variant = some 5;
  cart_line = none;
  qty = some (pos 10_000_000);
  unit_price = some (pos 10_005);
  discount = none;
}

abbrev finely : List RawLine → ℕ → SaleEntry
finely lines paid = record sent {
  parts = 10;
  lines = lines;
  payments = record { method = PaymentMethod.cash; amount = pos paid; change_given = pos 0 } ∷ [];
}

abbrev speck : RawLine
speck = record typed_item { qty = some (pos 4); unit_price = some (pos 100_000) }

fine_run :
    ((get_ok no_check (check_sale cashier corner_shop [] (finely (fine ∷ []) 1_000_500))).total
      ≡ 1_000_500)
    × ((get_ok
          (no_sale, morning, [])
          (store_offline_sale cashier corner_shop here
            (finely (fine ∷ []) 1_000_500)
            morning)).0.total
        ≡ pos 1_001_000)
    × ((get_ok no_check (check_sale cashier corner_shop [] (finely (speck ∷ []) 4))).total ≡ 4)
    × ((get_ok
          (no_sale, morning, [])
          (store_offline_sale cashier corner_shop here (finely (speck ∷ []) 4) morning)).0.total
        ≡ pos 0)
unfolding store_offline_sale check_sale find_uuid record_movement item_or_new find_item save_item
    ◌+ℤ◌ ◌*ℤ◌ neg
fine_run = (refl, refl, refl, refl)

-- A basket line of one item at 3.65, built on a phone and collected: named as it stands and once more
-- in quotes, it vouches for two items that this cashier may not ring up.
abbrev strict : Cashier
strict = record cashier {
  open_item = λ n d. record { allowed = false; reason = none; limit = none; can_override = false };
}

abbrev collected : ShopTables
collected = record corner_shop {
  phone_lines = record { pk = 5; can_vouch = true; unit_price = 365; qty = 1000 } ∷ [];
}

abbrev named : ℕ → RawLine
named written = record typed_item {
  qty = some (pos 1000);
  cart_line = some (record { spelling = written; pk = 5 });
}

abbrev both : ℕ → SaleEntry
both other = record sent {
  lines = named 0 ∷ named other ∷ [];
  payments = record { method = PaymentMethod.cash; amount = pos 730; change_given = pos 0 } ∷ [];
}

named_run :
    (check_sale strict collected [] (both 0) ≡ err (of_line open_item_refused))
    × ((get_ok no_check (check_sale strict collected [] (both 1))).total ≡ 730)
unfolding check_sale ◌*ℤ◌ ◌+ℤ◌
named_run = (refl, refl)
