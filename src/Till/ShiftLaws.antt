-- ===== src/Till/ShiftLaws.antt =====
-- About what the drawer is expected to hold, and the shifts of a register.
use retail_system.Prelude.{
  ℕ, ◌+◌, ◌≤◌, ◌≡◌, refl, inl, inr, ◌&&◌, none, some, List, [], ◌∷◌, arith, ◌==◌, if◌then◌else◌,
  Option-cases, ℤ, pos, ◌+ℤ◌, ◌-ℤ◌, int_laws, +ℤ_zero, +ℤ_comm, +ℤ_sub, err, ok,
}
use retail_system.Customers.Account.{is_some_of}
use retail_system.Till.Checkout.{Checkout, new_sale, write_sale, already_stored, complete_sale}
use retail_system.Till.Shifts.{
  ShiftStatus, Shift, CashMovement, Drawer, shift_already_open, already_closed, is_open,
  cash_payments, cash_taken, cash_returned, cash_refunded, compute_expected_cash, open_at,
  open_shift, save_shift, closed_shift, close_shift,
}
use retail_system.Till.State.{SaleLine, Sale, Till}
use retail_system.Till.VoidLaws.{write_sale_parts}

abbrev pub open_here : ℕ → Shift → ℕ
open_here register s = if register == s.register && is_open s.status then 1 else 0

unfoldable pub count_open : ℕ → List Shift → ℕ
count_open register [] = 0
count_open register (s ∷ ss) = open_here register s + count_open register ss

-- No register has two shifts open.
abbrev pub OneOpen : Drawer → Type 0
OneOpen d = (register : ℕ) → count_open register d.shifts ≤ 1

open_at-none :
    (register : ℕ) (ss : List Shift) → open_at register ss ≡ none → count_open register ss ≡ 0
unfolding open_at count_open
open_at-none register [] h = refl
open_at-none register (s ∷ ss) h = ground (arith, open_at-none register ss)

-- A register has one open shift at most, and stays so: another is refused.
pub open_shift-OneOpen :
    (pk register : ℕ) (opening_float : ℤ) (d d' : Drawer) (s : Shift)
    → OneOpen d
    → open_shift pk register opening_float d ≡ ok (s, d')
    → OneOpen d'
      × (count_open register d'.shifts ≡ 1)
      × (open_shift pk register opening_float d' ≡ err (shift_already_open pk))
unfolding open_shift open_at count_open
open_shift-OneOpen pk register opening_float d d' s k h =
    elim (Option-cases (open_at register d.shifts)) [
      | inl e ↦ (
        λ r. ground (arith, k r, open_at-none register d.shifts e),
        ground (arith, open_at-none register d.shifts e),
        ground arith,
      )
      | inr (x, e) ↦ absurd (ground arith)
    ]

save_shift-count :
    (register : ℕ) (s : Shift) (ss : List Shift)
    → s.status ≡ ShiftStatus.closed
    → count_open register (save_shift s ss) ≤ count_open register ss
unfolding save_shift count_open
save_shift-count register s [] h = omega arith
save_shift-count register s (r ∷ rs) h = ground (arith, save_shift-count register s rs h)

-- Closing a shift writes down what was counted beside what the drawer should hold, the difference
-- between them whatever its sign, opens no shift, and happens once.
pub close_shift_effect :
    (s s' : Shift) (counted : ℤ) (sales sales' : List Sale) (d d' : Drawer)
    → OneOpen d
    → close_shift s counted sales d ≡ ok (s', d')
    → (variance : ℤ) × (s'.variance ≡ some variance)
      × (compute_expected_cash s sales d.cash_movements +ℤ variance ≡ counted)
      × (s'.counted_cash ≡ some counted)
      × OneOpen d'
      × (close_shift s' counted sales' d' ≡ err already_closed)
unfolding close_shift closed_shift
close_shift_effect s s' counted sales sales' d d' k h =
    let expected = compute_expected_cash s sales d.cash_movements in
    let closed = closed_shift s expected counted in
    (
      counted -ℤ expected,
      ground arith,
      +ℤ_sub counted expected,
      ground arith,
      λ r. ground (arith, k r, save_shift-count r closed d.shifts refl),
      ground arith,
    )

-- What a sale, taken at a shift, leaves in its drawer.
abbrev pub cash_of : Checkout → ℕ → ℤ
cash_of c shift = if is_some_of c.shift shift then pos (cash_payments c.payments) else pos 0

cash_taken-write_sale :
    (c : Checkout) (lines : List SaleLine) (shift : ℕ) (ss : List Sale)
    → (cash_taken shift (new_sale c lines ∷ ss) ≡ cash_taken shift ss +ℤ cash_of c shift)
      × (cash_refunded shift (new_sale c lines ∷ ss) ≡ cash_refunded shift ss)
unfolding cash_taken cash_refunded cash_returned new_sale
cash_taken-write_sale c lines shift ss = ground (
  arith,
  +ℤ_comm (pos (cash_payments c.payments)) (cash_taken shift ss),
  +ℤ_zero (cash_taken shift ss),
  +ℤ_comm (pos 0) (cash_refunded shift ss),
  +ℤ_zero (cash_refunded shift ss),
)

-- The drawer of the shift that took a sale should hold its cash payments more, and no other drawer
-- is touched; what was paid by other means is in no drawer.
pub complete_sale_cash :
    (c : Checkout) (t t' : Till) (sale : Sale) (s : Shift) (moved : List CashMovement)
    → already_stored c t ≡ none
    → complete_sale c t ≡ ok (sale, t')
    → compute_expected_cash s t'.sales moved
      ≡ compute_expected_cash s t.sales moved +ℤ cash_of c s.pk
unfolding complete_sale compute_expected_cash
complete_sale_cash c t t' sale s moved n h =
    let w : write_sale c t ≡ ok (sale, t') = ground arith in
    let (lines, stock, written, made, stocked, listed, account) = write_sale_parts c t t' sale w in
    let after : t'.sales ≡ new_sale c lines ∷ t.sales = cc in
    rw
      (
        after,
        (cash_taken-write_sale c lines s.pk t.sales).0,
        (cash_taken-write_sale c lines s.pk t.sales).1,
      )
      (omega int_laws)
