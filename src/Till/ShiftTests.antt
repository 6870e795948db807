-- ===== src/Till/ShiftTests.antt =====
-- The laws of the drawer at a concrete shift.
use retail_system.Prelude.{
  ◌≡◌, refl, false, none, some, [], ◌∷◌, arith, pos, negsuc, ◌+ℤ◌, ◌-ℤ◌, ok, get_ok,
}
use retail_system.Till.Checkout.{Checkout, new_sale, already_stored, complete_sale}
use retail_system.Till.ShiftLaws.{count_open, OneOpen, cash_of, complete_sale_cash}
use retail_system.Till.Shifts.{
  ShiftStatus, CashMovementKind, Shift, Drawer, compute_expected_cash, open_shift, close_shift,
}
use retail_system.Till.State.{PaymentMethod, Sale, Till}

abbrev till_2 : Drawer
till_2 = record { shifts = []; cash_movements = []; events = [] }

abbrev opened : Shift × Drawer
opened =
    get_ok
      (
        record {
          pk = 0;
          register = 0;
          status = ShiftStatus.closed;
          opening_float = pos 0;
          counted_cash = none;
          expected_cash = none;
          variance = none;
        },
        till_2,
      )
      (open_shift 9 2 (pos 50_000) till_2)

opened_run : open_shift 9 2 (pos 50_000) till_2 ≡ ok (opened.0, opened.1)
unfolding open_shift
opened_run = refl

none_open : OneOpen till_2
unfolding count_open
none_open r = omega arith

abbrev shift_9 : Shift
shift_9 = record {
  pk = 9;
  register = 2;
  status = ShiftStatus.opened;
  opening_float = pos 50_000;
  counted_cash = none;
  expected_cash = none;
  variance = none;
}

abbrev evening : Drawer
evening = record {
  shifts = shift_9 ∷ [];
  cash_movements = record { shift = 9; kind = CashMovementKind.drop; amount = negsuc 999 } ∷ [];
  events = [];
}

one_open : OneOpen evening
unfolding count_open
one_open r = ground arith

abbrev closed_up : Shift × Drawer
closed_up = get_ok (shift_9, evening) (close_shift shift_9 (pos 48_500) [] evening)

-- 490.00 is expected, and 485.00 was counted.
closed_run :
    (close_shift shift_9 (pos 48_500) [] evening ≡ ok (closed_up.0, closed_up.1))
    × (closed_up.0.variance ≡ some (negsuc 499))
unfolding close_shift compute_expected_cash ◌+ℤ◌ ◌-ℤ◌
closed_run = (refl, refl)

abbrev empty_till : Till
empty_till = record {
  stock = record { items = []; ledger = []; events = []; settings = none; tracked = λ _. false };
  batches = [];
  sales = [];
  account = [];
  fiscal_provider = none;
  fiscal = [];
  events = [];
}

abbrev counter_sale : Checkout
counter_sale = record {
  branch = 1;
  customer = none;
  lines = record { variant = none; qty = 2000; unit_price = 600; discount = 0; tax_rate = 0 } ∷ [];
  payments =
      record { method = PaymentMethod.cash; amount = 1000; change_given = 500 }
      ∷ record { method = PaymentMethod.mpesa; amount = 200; change_given = 0 }
      ∷ [];
  shift = some 9;
  client_uuid = none;
  invoice = none;
  respect_stock_setting = false;
  number = 1;
}

abbrev blank_sale : Sale
blank_sale = new_sale counter_sale []

abbrev sold_one : Sale × Till
sold_one = get_ok (blank_sale, empty_till) (complete_sale counter_sale empty_till)

sold_run : complete_sale counter_sale empty_till ≡ ok (sold_one.0, sold_one.1)
unfolding complete_sale
sold_run = refl

none_stored : already_stored counter_sale empty_till ≡ none
unfolding already_stored
none_stored = refl

complete_sale_cash_example :
    compute_expected_cash shift_9 sold_one.1.sales []
    ≡ compute_expected_cash shift_9 [] [] +ℤ cash_of counter_sale 9
complete_sale_cash_example =
    complete_sale_cash counter_sale empty_till sold_one.1 sold_one.0 shift_9 [] none_stored sold_run
