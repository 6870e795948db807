-- ===== src/Selling/Invoices.antt =====
-- What is owed against an invoice: `issue`, `take_payment` and `refresh_payment_status` of
-- apps/selling/services.py.
use retail_system.Prelude.{
  ℕ, Bool, true, false, not, ◌&&◌, ◌||◌, Option, none, some, [], ◌∷◌, if◌then◌else◌, ℤ, pos, ◌+ℤ◌,
  ◌-ℤ◌, neg, ltb_ℤ, leb_ℤ, eqb_ℤ, Result, err, ok, raise_if, ◌>>=◌, ◌>>◌,
}
use retail_system.Customers.Account.{
  CreditKind, CreditTransaction, Account, balance, is_charge, is_some_of,
}
use retail_system.Selling.Deliveries.{send_everything}
use retail_system.Selling.Discounts.{check_document_discounts}
use retail_system.Selling.Documents.{Document, doc_total, to_main, total_main}
use retail_system.Selling.State.{
  InvoiceStatus, Invoice, Office, SellingError, invoice_not_found, over_credit_limit, nothing_paid,
  nothing_owed, more_than_owed, lift_discount, is_proforma, is_void, is_owed, find_invoice,
  save_invoice,
}
use retail_system.Till.Shifts.{CashMovementKind, Drawer, record_cash_movement}

abbrev pub is_payment : CreditTransaction → Bool
is_payment t = elim t.kind [
  | CreditKind.payment ↦ true
  | CreditKind.adjustment ↦ t.undoes
  | _ ↦ false
]

abbrev pub is_against : ℕ → CreditTransaction → Bool
is_against pk t = is_some_of t.invoice pk

-- `row.doc_amount if row.doc_amount is not None else row.amount`
abbrev pub doc_amount_of : CreditTransaction → ℤ
doc_amount_of t = elim t.doc_amount [ none ↦ t.amount | some a ↦ a ]

-- `Invoice.paid`
unfoldable pub invoice_paid : ℕ → Account → ℤ
invoice_paid pk [] = pos 0
invoice_paid pk (t ∷ ts) =
    let rest = invoice_paid pk ts in
    if is_against pk t && is_payment t then rest -ℤ doc_amount_of t else rest

unfoldable pub paid_main : ℕ → Account → ℤ
paid_main pk [] = pos 0
paid_main pk (t ∷ ts) =
    let rest = paid_main pk ts in if is_against pk t && is_payment t then rest -ℤ t.amount else rest

-- `Invoice.charged_main`: the newest charge against it.
unfoldable pub charged_main : Invoice → Account → ℤ
unfolding total_main
charged_main i [] = total_main i.doc
charged_main i (t ∷ ts) =
    let rest = charged_main i ts in if is_against i.pk t && is_charge t.kind then t.amount else rest

unfoldable pub balance_main : Invoice → Account → ℤ
unfolding charged_main paid_main
balance_main i ts = charged_main i ts -ℤ paid_main i.pk ts

-- `Invoice.balance`
unfoldable pub invoice_balance : Invoice → Account → ℤ
unfolding doc_total invoice_paid
invoice_balance i ts = doc_total i.doc -ℤ invoice_paid i.pk ts

-- An amount in the document's currency, where that is another one.
abbrev pub in_doc : Document → ℤ → Option ℤ
in_doc d a = if d.is_foreign then some a else none

unfoldable pub invoice_charge : Invoice → Account → CreditTransaction
unfolding total_main doc_total balance
invoice_charge i ts = record {
  customer = i.customer;
  kind = CreditKind.charge;
  amount = total_main i.doc;
  doc_amount = in_doc i.doc (doc_total i.doc);
  balance_after = balance i.customer ts +ℤ total_main i.doc;
  sale = none;
  invoice = some i.pk;
  undoes = false;
}

-- A limit of 0 means that none has been set.
unfoldable pub is_over_limit : ℤ → ℤ → Bool
is_over_limit limit owes = ltb_ℤ (pos 0) limit && ltb_ℤ limit owes

unfoldable pub charge_invoice : Invoice → Office → Office
unfolding save_invoice invoice_charge
charge_invoice i o = record o {
  invoices = save_invoice i o.invoices;
  till = record o.till { account = invoice_charge i o.till.account ∷ o.till.account };
}

-- The key of the delivery note and the number of the sale that issuing makes.
unfoldable pub issue_proforma : Invoice → ℕ → ℕ → Office → Result SellingError (Invoice × Office)
unfolding check_document_discounts total_main balance is_over_limit charge_invoice send_everything
issue_proforma i note number o = do
  lift_discount (check_document_discounts o.rules i.doc)
  let owes = balance i.customer o.till.account +ℤ total_main i.doc
  raise_if (is_over_limit (o.credit_limit i.customer) owes) over_credit_limit
  let issued = record i { status = InvoiceStatus.owed }
  o' ← elim o.rules.stock_out_on_invoice [
    | true ↦ send_everything issued note number (charge_invoice issued o)
    | false ↦ ok (charge_invoice issued o)
  ]
  ok (issued, o')

unfoldable pub issue_found : Invoice → ℕ → ℕ → Office → Result SellingError (Invoice × Office)
unfolding issue_proforma
issue_found i note number o = elim (is_proforma i.status) [
  | false ↦ ok (i, o)
  | true ↦ issue_proforma i note number o
]

unfoldable pub issue : ℕ → ℕ → ℕ → Office → Result SellingError (Invoice × Office)
unfolding find_invoice issue_found
issue pk note number o = elim (find_invoice pk o.invoices) [
  | none ↦ err invoice_not_found
  | some i ↦ issue_found i note number o
]

unfoldable pub status_after : Invoice → Account → InvoiceStatus
unfolding invoice_balance invoice_paid
status_after i ts =
    if leb_ℤ (invoice_balance i ts) (pos 0)
    then InvoiceStatus.paid
    else if ltb_ℤ (pos 0) (invoice_paid i.pk ts)
    then InvoiceStatus.part_paid
    else InvoiceStatus.owed

unfoldable pub refresh_payment_status : Invoice → Account → Invoice
unfolding status_after
refresh_payment_status i ts =
    if is_proforma i.status || is_void i.status then i else record i { status = status_after i ts }

-- What comes off the account, in the shop's own currency.
unfoldable pub payment_main : Invoice → ℤ → Account → ℤ
unfolding invoice_balance balance_main to_main
payment_main i amount ts =
    if i.doc.is_foreign
    then if eqb_ℤ amount (invoice_balance i ts) then balance_main i ts else to_main i.doc amount
    else amount

unfoldable pub payment_entry : Invoice → ℤ → Account → CreditTransaction
unfolding payment_main balance
payment_entry i amount ts = record {
  customer = i.customer;
  kind = CreditKind.payment;
  amount = neg (payment_main i amount ts);
  doc_amount = in_doc i.doc (neg amount);
  balance_after = balance i.customer ts -ℤ payment_main i amount ts;
  sale = none;
  invoice = some i.pk;
  undoes = false;
}

-- Cash in the shop's own currency goes in the drawer of the shift.
unfoldable pub pay_in_drawer : Invoice → ℤ → Bool → Option ℕ → Drawer → Drawer
unfolding record_cash_movement
pay_in_drawer i amount in_cash shift d = elim shift [
  | none ↦ d
  | some s ↦
      if in_cash && not i.doc.is_foreign
      then record_cash_movement s CashMovementKind.pay_in amount d
      else d
]

unfoldable pub payment_found : Invoice → ℤ → Bool → Option ℕ → Office → Result SellingError Office
unfolding is_owed invoice_balance payment_entry pay_in_drawer refresh_payment_status save_invoice
payment_found i amount in_cash shift o = do
  raise_if (not (is_owed i.status)) nothing_owed
  raise_if (ltb_ℤ (invoice_balance i o.till.account) amount) more_than_owed
  let account = payment_entry i amount o.till.account ∷ o.till.account
  ok (record o {
    invoices = save_invoice (refresh_payment_status i account) o.invoices;
    till = record o.till { account = account };
    drawer = pay_in_drawer i amount in_cash shift o.drawer;
  })

unfoldable pub take_payment : ℕ → ℤ → Bool → Option ℕ → Office → Result SellingError Office
unfolding payment_found find_invoice
take_payment pk amount in_cash shift o = do
  raise_if (leb_ℤ amount (pos 0)) nothing_paid
  elim (find_invoice pk o.invoices) [
    | none ↦ err invoice_not_found
    | some i ↦ payment_found i amount in_cash shift o
  ]
