-- ===== src/Till/Shifts.antt =====
-- The cash drawer: `Shift` and `CashMovement` of apps/pos/models.py, `open_shift`, `close_shift`
-- and `record_cash_movement` of apps/pos/services.py.
use retail_system.Prelude.{
  ℕ, ◌+◌, Bool, true, false, not, ◌&&◌, Option, none, some, List, [], ◌∷◌, ◌==◌, if◌then◌else◌, ℤ,
  pos, ◌+ℤ◌, ◌-ℤ◌, eqb_ℤ, Result, err, ok, raise_if, ◌>>◌,
}
use retail_system.Customers.Account.{is_some_of}
use retail_system.Till.State.{SalePayment, Return, Sale, is_voided, is_cash}

-- OPEN and CLOSED.
pub data ShiftStatus : Type 0 where
  opened closed : ShiftStatus

pub data CashMovementKind : Type 0 where
  pay_in pay_out drop : CashMovementKind

pub record Shift : Type 0 where
  pub pk : ℕ
  pub register : ℕ
  pub status : ShiftStatus
  pub opening_float : ℤ
  pub counted_cash : Option ℤ
  pub expected_cash : Option ℤ
  pub variance : Option ℤ

-- The amount is signed by the caller: what is taken out is negative.
pub record CashMovement : Type 0 where
  pub shift : ℕ
  pub kind : CashMovementKind
  pub amount : ℤ

pub data DrawerEvent : Type 0 where
  shift_opened shift_closed : ℕ → DrawerEvent
  cash_variance : ℕ → ℤ → DrawerEvent

pub record Drawer : Type 0 where
  pub shifts : List Shift
  pub cash_movements : List CashMovement
  pub events : List DrawerEvent

pub data DrawerError : Type 0 where
  shift_already_open : ℕ → DrawerError
  already_closed : DrawerError

abbrev pub is_open : ShiftStatus → Bool
is_open ShiftStatus.opened = true
is_open ShiftStatus.closed = false

unfoldable pub cash_payments : List SalePayment → ℕ
cash_payments [] = 0
cash_payments (p ∷ ps) =
    let rest = cash_payments ps in if is_cash p.method then p.amount + rest else rest

-- `Shift.cash_taken`: a voided sale hands its money back.
unfoldable pub cash_taken : ℕ → List Sale → ℤ
unfolding cash_payments
cash_taken shift [] = pos 0
cash_taken shift (s ∷ ss) =
    let rest = cash_taken shift ss in
    if is_some_of s.shift shift && not (is_voided s.status)
    then pos (cash_payments s.payments) +ℤ rest
    else rest

unfoldable pub cash_returned : ℕ → List Return → ℤ
cash_returned shift [] = pos 0
cash_returned shift (r ∷ rs) =
    let rest = cash_returned shift rs in
    if is_some_of r.shift shift then r.cash_amount +ℤ rest else rest

-- `Shift.cash_refunded`, over the returns of every sale.
unfoldable pub cash_refunded : ℕ → List Sale → ℤ
unfolding cash_returned
cash_refunded shift [] = pos 0
cash_refunded shift (s ∷ ss) = cash_returned shift s.returns +ℤ cash_refunded shift ss

unfoldable pub cash_movements_total : ℕ → List CashMovement → ℤ
cash_movements_total shift [] = pos 0
cash_movements_total shift (m ∷ ms) =
    let rest = cash_movements_total shift ms in if shift == m.shift then m.amount +ℤ rest else rest

unfoldable pub compute_expected_cash : Shift → List Sale → List CashMovement → ℤ
unfolding cash_taken cash_refunded cash_movements_total
compute_expected_cash s sales moved =
    s.opening_float
    +ℤ cash_taken s.pk sales
    -ℤ cash_refunded s.pk sales
    +ℤ cash_movements_total s.pk moved

-- `Shift.objects.filter(register=…, status=OPEN).first()`
unfoldable pub open_at : ℕ → List Shift → Option Shift
open_at register [] = none
open_at register (s ∷ ss) =
    if register == s.register && is_open s.status then some s else open_at register ss

unfoldable pub open_shift : ℕ → ℕ → ℤ → Drawer → Result DrawerError (Shift × Drawer)
unfolding open_at
open_shift pk register opening_float d = elim (open_at register d.shifts) [
  | some existing ↦ err (shift_already_open existing.pk)
  | none ↦
      let shift : Shift = record {
        pk = pk;
        register = register;
        status = ShiftStatus.opened;
        opening_float = opening_float;
        counted_cash = none;
        expected_cash = none;
        variance = none;
      } in
      ok (shift, record d { shifts = shift ∷ d.shifts; events = shift_opened pk ∷ d.events })
]

unfoldable pub save_shift : Shift → List Shift → List Shift
save_shift s [] = []
save_shift s (r ∷ rs) = if s.pk == r.pk then s ∷ rs else r ∷ save_shift s rs

unfoldable pub closed_shift : Shift → ℤ → ℤ → Shift
closed_shift s expected counted = record s {
  expected_cash = some expected;
  counted_cash = some counted;
  variance = some (counted -ℤ expected);
  status = ShiftStatus.closed;
}

unfoldable pub close_events : ℕ → ℤ → List DrawerEvent → List DrawerEvent
close_events pk variance es =
    if eqb_ℤ variance (pos 0)
    then shift_closed pk ∷ es
    else cash_variance pk variance ∷ shift_closed pk ∷ es

unfoldable pub close_shift : Shift → ℤ → List Sale → Drawer → Result DrawerError (Shift × Drawer)
unfolding compute_expected_cash closed_shift save_shift close_events
close_shift s counted sales d = do
  raise_if (not (is_open s.status)) already_closed
  let expected = compute_expected_cash s sales d.cash_movements
  let closed = closed_shift s expected counted
  ok (
    closed,
    record d {
      shifts = save_shift closed d.shifts;
      events = close_events s.pk (counted -ℤ expected) d.events;
    },
  )

unfoldable pub record_cash_movement : ℕ → CashMovementKind → ℤ → Drawer → Drawer
record_cash_movement shift kind amount d = record d {
  cash_movements = record { shift = shift; kind = kind; amount = amount } ∷ d.cash_movements;
}
