-- ===== src/Purchasing/Bills.antt =====
-- The bills of a supplier and what is paid on them: `apply_advances` of
-- apps/purchasing/services.py. No query reads a table in the order in which it stands.
use retail_system.Prelude.{
  ℕ, Bool, not, ◌&&◌, ◌||◌, Option, none, some, List, [], ◌∷◌, ◌++◌, ltb, ◌==◌, if◌then◌else◌,
  is_some, ℤ, pos, ◌+ℤ◌, ◌-ℤ◌, ltb_ℤ, leb_ℤ,
}
use retail_system.Customers.Account.{is_some_of}

pub record SupplierInvoice : Type 0 where
  pub pk : ℕ
  pub supplier : ℕ
  pub receipt : Option ℕ
  pub number : List ℕ
  pub invoice_date : ℕ
  pub due_date : Option ℕ
  pub amount : ℤ

-- `batch` is what the rows of one payment share.
pub record SupplierPayment : Type 0 where
  pub pk : ℕ
  pub supplier : ℕ
  pub invoice : Option ℕ
  pub amount : ℤ
  pub paid_at : ℕ
  pub batch : Option ℕ
  pub cash_movement : Option ℕ

-- `aggregate(Sum("amount"))` over the rows that a filter keeps; no row counts as nothing.
unfoldable pub total_of : (SupplierPayment → Bool) → List SupplierPayment → ℤ
total_of kept [] = pos 0
total_of kept (p ∷ ps) = let rest = total_of kept ps in if kept p then p.amount +ℤ rest else rest

-- `SupplierInvoice.paid`
unfoldable pub paid_on : ℕ → List SupplierPayment → ℤ
unfolding total_of
paid_on k ps = total_of (λ p. is_some_of p.invoice k) ps

-- `SupplierInvoice.outstanding`
unfoldable pub bill_outstanding : SupplierInvoice → List SupplierPayment → ℤ
unfolding paid_on
bill_outstanding b ps = b.amount -ℤ paid_on b.pk ps

unfoldable pub invoiced : ℕ → List SupplierInvoice → ℤ
invoiced k [] = pos 0
invoiced k (b ∷ bs) = let rest = invoiced k bs in if b.supplier == k then b.amount +ℤ rest else rest

unfoldable pub paid_to : ℕ → List SupplierPayment → ℤ
unfolding total_of
paid_to k ps = total_of (λ p. p.supplier == k) ps

-- `Supplier.balance`
unfoldable pub supplier_balance : ℕ → List SupplierInvoice → List SupplierPayment → ℤ
unfolding invoiced paid_to
supplier_balance k bs ps = invoiced k bs -ℤ paid_to k ps

-- `supplier.payments.filter(invoice__isnull=True, amount__gt=0)`
unfoldable pub is_advance : ℕ → SupplierPayment → Bool
is_advance k p = p.supplier == k && not (is_some p.invoice) && ltb_ℤ (pos 0) p.amount

-- `order_by("paid_at", "pk")`
unfoldable pub is_paid_before : SupplierPayment → SupplierPayment → Bool
is_paid_before p q = ltb p.paid_at q.paid_at || (p.paid_at == q.paid_at && ltb p.pk q.pk)

unfoldable pub insert_payment : SupplierPayment → List SupplierPayment → List SupplierPayment
unfolding is_paid_before
insert_payment p [] = p ∷ []
insert_payment p (q ∷ qs) =
    let rest = insert_payment p qs in if is_paid_before q p then q ∷ rest else p ∷ q ∷ qs

-- The rows that stay as they are, and the advances, oldest first.
pub record Advances : Type 0 where
  pub rows : List SupplierPayment
  pub advances : List SupplierPayment

unfoldable pub find_advances : ℕ → List SupplierPayment → Advances
unfolding is_advance insert_payment
find_advances k [] = record { rows = []; advances = [] }
find_advances k (p ∷ ps) =
    let rest = find_advances k ps in
    if is_advance k p
    then record rest { advances = insert_payment p rest.advances }
    else record rest { rows = p ∷ rest.rows }

unfoldable pub is_billed_before : SupplierInvoice → SupplierInvoice → Bool
is_billed_before b c =
    ltb b.invoice_date c.invoice_date || (b.invoice_date == c.invoice_date && ltb b.pk c.pk)

unfoldable pub insert_bill : SupplierInvoice → List SupplierInvoice → List SupplierInvoice
unfolding is_billed_before
insert_bill b [] = b ∷ []
insert_bill b (c ∷ cs) =
    let rest = insert_bill b cs in if is_billed_before c b then c ∷ rest else b ∷ c ∷ cs

-- `[b for b in supplier.invoices.order_by("invoice_date", "pk") if b.outstanding > 0]`
unfoldable pub open_bills : ℕ → List SupplierPayment → List SupplierInvoice → List SupplierInvoice
unfolding bill_outstanding insert_bill
open_bills k ps [] = []
open_bills k ps (b ∷ bs) =
    let rest = open_bills k ps bs in
    if b.supplier == k && ltb_ℤ (pos 0) (bill_outstanding b ps) then insert_bill b rest else rest

-- The row that is split off an advance: it keeps the payment's batch, not its pay-out.
unfoldable pub split_row : ℕ → ℕ → SupplierInvoice → ℤ → SupplierPayment → SupplierPayment
split_row new_pk k b due a = record {
  pk = new_pk;
  supplier = k;
  invoice = some b.pk;
  amount = due;
  paid_at = a.paid_at;
  batch = a.batch;
  cash_movement = none;
}

-- The `while` loop: what it writes, and the advances that it leaves.
unfoldable pub settle_bill : ℕ → ℕ → SupplierInvoice → ℤ → List SupplierPayment → Advances
unfolding split_row
settle_bill new_pk k b due [] = record { rows = []; advances = [] }
settle_bill new_pk k b due (a ∷ later) =
    let rest = settle_bill new_pk k b (due -ℤ a.amount) later in
    if not (ltb_ℤ (pos 0) due)
    then record { rows = []; advances = a ∷ later }
    else if leb_ℤ a.amount due
    then record rest { rows = record a { invoice = some b.pk } ∷ rest.rows }
    else record {
      rows = split_row new_pk k b due a ∷ [];
      advances = record a { amount = a.amount -ℤ due } ∷ later;
    }

-- The `for` loop. A bill needs at most one new row, so that its key is a number of the bill.
unfoldable pub settle_bills : (ℕ → ℕ) → ℕ → List SupplierInvoice → Advances → Advances
unfolding settle_bill bill_outstanding
settle_bills new_pk k [] w = w
settle_bills new_pk k (b ∷ bs) w =
    let due = bill_outstanding b (w.rows ++ w.advances) in
    let one = settle_bill (new_pk b.pk) k b due w.advances in
    settle_bills new_pk k bs (record { rows = one.rows ++ w.rows; advances = one.advances })

unfoldable pub apply_advances :
    (ℕ → ℕ) → ℕ → List SupplierInvoice → List SupplierPayment → List SupplierPayment
unfolding find_advances settle_bills open_bills
apply_advances new_pk k bs ps =
    let after = settle_bills new_pk k (open_bills k ps bs) (find_advances k ps) in
    after.rows ++ after.advances
