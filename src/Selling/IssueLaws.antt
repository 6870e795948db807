-- ===== src/Selling/IssueLaws.antt =====
-- What issuing an invoice does.
use mathlib.Core.Path.{subst}
use retail_system.Prelude.{
  ℕ, ◌≡◌, refl, sym, ◌∙◌, Bool, true, false, some, arith, ◌==◌, if◌then◌else◌, ℤ, pos, ◌+ℤ◌, ◌-ℤ◌,
  ◌≤ℤ◌, ◌<ℤ◌, +ℤ_zero, -ℤ_zero_right, ok, raise_if, >>=-eq-ok,
}
use retail_system.Customers.Account.{balance, balance-cons}
use retail_system.Inventory.Ledger.{IsConsistent}
use retail_system.Inventory.State.{quantity_of}
use retail_system.Inventory.Transit.{at_branch}
use retail_system.Selling.Deliveries.{wanted_rows, send_everything}
use retail_system.Selling.DeliveryLaws.{goods_of, WentOut, send_everything-WentOut}
use retail_system.Selling.Discounts.{check_document_discounts}
use retail_system.Selling.Documents.{total_main}
use retail_system.Selling.Invoices.{
  invoice_charge, is_over_limit, charge_invoice, issue_proforma, issue_found, issue,
}
use retail_system.Selling.PaymentLaws.{find_invoice-pk, save_invoice-found}
use retail_system.Selling.State.{
  InvoiceStatus, Invoice, Office, over_credit_limit, lift_discount, is_proforma, find_invoice,
  save_invoice,
}

-- What an invoice puts on the account of a customer.
abbrev pub owed_by : Invoice → ℕ → ℤ
owed_by i customer = if customer == i.customer then total_main i.doc else pos 0

-- What an invoice sends out as it is issued.
abbrev pub sent_by : Office → Invoice → ℕ → ℤ
sent_by o i v =
    if o.rules.stock_out_on_invoice
    then goods_of o.till.stock v i.doc (wanted_rows o.notes i.doc.lines)
    else pos 0

charge_invoice-balance :
    (i : Invoice) (o : Office) (customer : ℕ)
    → balance customer (charge_invoice i o).till.account
      ≡ balance customer o.till.account +ℤ owed_by i customer
unfolding charge_invoice invoice_charge
charge_invoice-balance i o customer = ground (
  arith,
  balance-cons customer (invoice_charge i o.till.account) o.till.account,
  +ℤ_zero (balance customer o.till.account),
)

charge_invoice-rest :
    (i : Invoice) (o : Office)
    → let o' = charge_invoice i o in
      (o'.till.stock ≡ o.till.stock)
      × (o'.notes ≡ o.notes)
      × (o'.invoices ≡ save_invoice i o.invoices)
unfolding charge_invoice
charge_invoice-rest i o = (refl, refl, refl)

-- What issuing leaves behind, once the invoice is charged.
went_out :
    (i : Invoice) (note number : ℕ) (o o' : Office) (stock_out : Bool)
    → IsConsistent o.till.stock
    → find_invoice i.pk (save_invoice i o.invoices) ≡ some i
    → (elim stock_out [
      | true ↦ send_everything i note number (charge_invoice i o)
      | false ↦ ok (charge_invoice i o)
    ])
      ≡ ok o'
    → WentOut (charge_invoice i o) o' i.branch (λ v.
      if stock_out then goods_of o.till.stock v i.doc (wanted_rows o.notes i.doc.lines) else pos 0)
unfolding charge_invoice
went_out i note number o o' true k f h =
    send_everything-WentOut i note number (charge_invoice i o) o' k f h
went_out i note number o o' false k f h =
    let same : o' ≡ charge_invoice i o = cc in
    rw same (
      λ b v. ground (arith, -ℤ_zero_right (quantity_of b v o.till.stock.items)),
      k,
      λ customer. refl,
      refl,
    )

issue_proforma_effect :
    (i i' : Invoice) (note number : ℕ) (o o' : Office)
    → IsConsistent o.till.stock
    → find_invoice i.pk o.invoices ≡ some i
    → issue_proforma i note number o ≡ ok (i', o')
    → let issued = record i { status = InvoiceStatus.owed } in
      (i' ≡ issued)
      × (check_document_discounts o.rules i.doc ≡ ok tt)
      × (is_over_limit
            (o.credit_limit i.customer)
            (balance i.customer o.till.account +ℤ total_main i.doc)
          ≡ false)
      × WentOut (charge_invoice issued o) o' i.branch (sent_by o i)
unfolding issue_proforma
issue_proforma_effect i i' note number o o' k f h =
    let issued = record i { status = InvoiceStatus.owed } in
    let (u, g, h₁) = >>=-eq-ok (lift_discount (check_document_discounts o.rules i.doc)) _ h in
    let owes = balance i.customer o.till.account +ℤ total_main i.doc in
    let (u', g', h₂) =
      >>=-eq-ok (raise_if (is_over_limit (o.credit_limit i.customer) owes) over_credit_limit) _
        h₁ in
    let (p, e, h₃) =
      >>=-eq-ok
        (elim o.rules.stock_out_on_invoice [
          | true ↦ send_everything issued note number (charge_invoice issued o)
          | false ↦ ok (charge_invoice issued o)
        ])
        _ h₂ in
    let saved = save_invoice-found i.pk i issued o.invoices f refl in
    let out = went_out issued note number o p o.rules.stock_out_on_invoice k saved e in
    let same : o' ≡ p = ground arith in (ground arith, ground arith, ground arith, rw same out)

-- A proforma that is issued stands as owed, and its total, in the shop's own currency, is on the
-- account of its customer and on no other. Every line was allowed, and a customer with a limit is
-- within it. Where the shop takes an invoice for the sale, all that was still to go out has left the
-- stock of its branch alone, with nothing charged twice, and otherwise the stock is as it was. The
-- cache stays in step, and issuing it again does nothing.
pub issue_effect :
    (pk note note' number number' : ℕ) (o o' : Office) (i i' : Invoice)
    → find_invoice pk o.invoices ≡ some i
    → is_proforma i.status ≡ true
    → IsConsistent o.till.stock
    → issue pk note number o ≡ ok (i', o')
    → (i' ≡ record i { status = InvoiceStatus.owed })
      × (find_invoice pk o'.invoices ≡ some i')
      × (check_document_discounts o.rules i.doc ≡ ok tt)
      × (pos 0 <ℤ o.credit_limit i.customer
          → balance i.customer o'.till.account ≤ℤ o.credit_limit i.customer)
      × ((customer : ℕ)
          → balance customer o'.till.account
            ≡ balance customer o.till.account +ℤ owed_by i customer)
      × ((b v : ℕ)
          → quantity_of b v o'.till.stock.items
            ≡ quantity_of b v o.till.stock.items -ℤ at_branch b i.branch (sent_by o i v))
      × IsConsistent o'.till.stock
      × (issue pk note' number' o' ≡ ok (i', o'))
unfolding issue issue_found charge_invoice is_over_limit
issue_effect pk note note' number number' o o' i i' f d k h =
    let issued = record i { status = InvoiceStatus.owed } in
    let found : issue_proforma i note number o ≡ ok (i', o') = ground arith in
    let f' =
      subst (λ key. find_invoice key o.invoices ≡ some i) (sym (find_invoice-pk pk i o.invoices f))
        f in
    let (row, allowed, within, out) = issue_proforma_effect i i' note number o o' k f' found in
    let saved : find_invoice pk o'.invoices ≡ some i' =
      rw (out.3, row) (save_invoice-found pk i issued o.invoices f refl) in
    let owes = λ (customer : ℕ). out.2 customer ∙ charge_invoice-balance issued o customer in
    (
      row,
      saved,
      allowed,
      λ limited. ground (arith, within, owes i.customer),
      owes,
      out.0,
      out.1,
      ground arith,
    )
