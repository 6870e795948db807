-- ===== src/Selling/VoidInvoiceLaws.antt =====
-- Cancelling an invoice after it was issued.
use mathlib.Core.Path.{subst}
use retail_system.Prelude.{
  ℕ, ◌≡◌, refl, sym, ap, ◌∙◌, inl, Bool, true, false, not, some, [], ◌∷◌, arith, ℤ, pos, ◌+ℤ◌, neg,
  ltb_ℤ, int_laws, ok, raise_if, >>=-eq-ok,
}
use retail_system.Customers.Account.{Account, balance, balance-cons}
use retail_system.Inventory.Ledger.{IsConsistent}
use retail_system.Inventory.State.{quantity_of}
use retail_system.Selling.CancelLaws.{Sent, send_everything-Sent, cancel_each-undoes}
use retail_system.Selling.Cancelling.{
  live_notes, all_auto_sent, cancel_each, void_entry, account_after_void, void_standing,
  void_invoice_found, void_invoice,
}
use retail_system.Selling.Deliveries.{send_everything}
use retail_system.Selling.Discounts.{check_document_discounts}
use retail_system.Selling.Documents.{total_main}
use retail_system.Selling.Invoices.{
  invoice_paid, charged_main, invoice_charge, is_over_limit, charge_invoice, issue_proforma,
  issue_found, issue,
}
use retail_system.Selling.IssueLaws.{issue_effect}
use retail_system.Selling.PaymentLaws.{find_invoice-pk, save_invoice-found}
use retail_system.Selling.State.{
  InvoiceStatus, Invoice, Office, over_credit_limit, already_paid, already_delivered, lift_discount,
  is_proforma, find_invoice, save_invoice,
}
use retail_system.Till.Reversal.{IsFresh}

there_and_back : (a b : ℤ) → a +ℤ b +ℤ neg b ≡ a
there_and_back a b = omega int_laws

-- What issuing charges and what cancelling takes back cancel out.
charge_undone :
    (i : Invoice) (ts : Account) (customer : ℕ)
    → let charged = invoice_charge i ts ∷ ts in
      balance customer (void_entry i charged ∷ charged) ≡ balance customer ts
unfolding void_entry charged_main invoice_charge
charge_undone i ts customer =
    let charge = invoice_charge i ts in
    ground (
      arith,
      balance-cons customer (void_entry i (charge ∷ ts)) (charge ∷ ts),
      balance-cons customer charge ts,
      there_and_back (balance customer ts) (total_main i.doc),
    )

charge-IsFresh :
    (i : Invoice) (number : ℕ) (ts : Account)
    → IsFresh number ts
    → IsFresh number (invoice_charge i ts ∷ ts)
unfolding invoice_charge
charge-IsFresh i number ts f = (refl, f)

issued_by :
    (i : Invoice) (note number : ℕ) (o o' : Office) (stock_out : Bool)
    → find_invoice i.pk (save_invoice i o.invoices) ≡ some i
    → (elim stock_out [
      | true ↦ send_everything i note number (charge_invoice i o)
      | false ↦ ok (charge_invoice i o)
    ])
      ≡ ok o'
    → Sent i note number (charge_invoice i o) o'
unfolding charge_invoice
issued_by i note number o o' true f h =
    send_everything-Sent i note number (charge_invoice i o) o' f h
issued_by i note number o o' false f h = inl cc

issue_proforma-Sent :
    (i i' : Invoice) (note number : ℕ) (o o' : Office)
    → find_invoice i.pk o.invoices ≡ some i
    → issue_proforma i note number o ≡ ok (i', o')
    → let issued = record i { status = InvoiceStatus.owed } in
      (i' ≡ issued) × Sent issued note number (charge_invoice issued o) o'
unfolding issue_proforma
issue_proforma-Sent i i' note number o o' f h =
    let issued = record i { status = InvoiceStatus.owed } in
    let (u, g, h₁) = >>=-eq-ok (lift_discount (check_document_discounts o.rules i.doc)) _ h in
    let owes = balance i.customer o.till.account +ℤ total_main i.doc in
    let (u', g', h₂) =
      >>=-eq-ok (raise_if (is_over_limit (o.credit_limit i.customer) owes) over_credit_limit) _
        h₁ in
    let (p, e, h₃) =
      >>=-eq-ok
        (elim o.rules.stock_out_on_invoice [
          | true ↦ send_everything issued note number (charge_invoice issued o)
          | false ↦ ok (charge_invoice issued o)
        ])
        _ h₂ in
    let saved = save_invoice-found i.pk i issued o.invoices f refl in
    let same : o' ≡ p = ground arith in
    (ground arith, rw same (issued_by issued note number o p o.rules.stock_out_on_invoice saved e))

void_standing-parts :
    (i i' : Invoice) (o o' : Office)
    → i.status ≡ InvoiceStatus.owed
    → void_standing i o ≡ ok (i', o')
    → (m : Office) × (cancel_each (live_notes i.pk o.notes) o ≡ ok m)
      × (i' ≡ record i { status = InvoiceStatus.void })
      × (o'.till.stock ≡ m.till.stock)
      × (o'.till.account ≡ void_entry i m.till.account ∷ m.till.account)
      × (o'.invoices ≡ save_invoice i' m.invoices)
unfolding void_standing account_after_void
void_standing-parts i i' o o' s h =
    let (u, g, h₁) =
      >>=-eq-ok (raise_if (ltb_ℤ (pos 0) (invoice_paid i.pk o.till.account)) already_paid) _ h in
    let (u', g', h₂) =
      >>=-eq-ok (raise_if (not (all_auto_sent (live_notes i.pk o.notes))) already_delivered) _ h₁ in
    let (m, e, h₃) = >>=-eq-ok (cancel_each (live_notes i.pk o.notes) o) _ h₂ in
    (m, e, ground arith, ground arith, ground arith, ground arith)

-- The office as it was, but for the invoice, which stands as cancelled.
abbrev pub IsUndone : ℕ → Invoice → Office → Office → Type 0
IsUndone pk i o o' =
    ((b v : ℕ) → quantity_of b v o'.till.stock.items ≡ quantity_of b v o.till.stock.items)
    × ((customer : ℕ) → balance customer o'.till.account ≡ balance customer o.till.account)
    × IsConsistent o'.till.stock
    × (find_invoice pk o'.invoices ≡ some (record i { status = InvoiceStatus.void }))

charged_back :
    (i : Invoice) (o m o' : Office) (customer : ℕ)
    → m.till.account ≡ (charge_invoice i o).till.account
    → o'.till.account ≡ void_entry i m.till.account ∷ m.till.account
    → balance customer o'.till.account ≡ balance customer o.till.account
unfolding charge_invoice
charged_back i o m o' customer e f = rw (f, e) (charge_undone i o.till.account customer)

listed_as_void :
    (pk : ℕ) (i issued gone : Invoice) (o m o' : Office)
    → find_invoice pk o.invoices ≡ some i
    → issued.pk ≡ i.pk
    → gone.pk ≡ issued.pk
    → m.invoices ≡ (charge_invoice issued o).invoices
    → o'.invoices ≡ save_invoice gone m.invoices
    → find_invoice pk o'.invoices ≡ some gone
unfolding charge_invoice
listed_as_void pk i issued gone o m o' f e e' h h' =
    rw (h', h)
      (save_invoice-found pk issued gone (save_invoice issued o.invoices)
        (save_invoice-found pk i issued o.invoices f e) e')

void_standing-undoes :
    (pk note number : ℕ) (o o' o'' : Office) (i issued i'' : Invoice)
    → find_invoice pk o.invoices ≡ some i
    → issued ≡ record i { status = InvoiceStatus.owed }
    → IsConsistent o.till.stock
    → IsFresh number o.till.account
    → live_notes issued.pk o.notes ≡ []
    → Sent issued note number (charge_invoice issued o) o'
    → void_standing issued o' ≡ ok (i'', o'')
    → (i'' ≡ record issued { status = InvoiceStatus.void }) × IsUndone pk issued o o''
unfolding charge_invoice
void_standing-undoes pk note number o o' o'' i issued i'' f e k n l sent h =
    let (m, cancelled, gone, stock, account, rows) =
      void_standing-parts issued i'' o' o'' (ap (λ x. x.status) e) h in
    let (till, invoices) =
      cancel_each-undoes issued note number (charge_invoice issued o) o' m k
        (charge-IsFresh issued number o.till.account n) l sent cancelled in
    (
      gone,
      (
        (λ b v. ap (λ s. quantity_of b v s.items) stock ∙ till.0 b v),
        (λ c. charged_back issued o m o'' c till.2 account),
        subst IsConsistent (sym stock) till.1,
        listed_as_void pk i issued (record issued { status = InvoiceStatus.void }) o m o'' f
            (ap (λ x. x.pk) e) refl invoices (rows ∙ ap (λ x. save_invoice x m.invoices) gone),
      ),
    )

-- An invoice that was issued by mistake and is cancelled leaves no trace in what the shop holds and
-- in what its customers owe: every quantity at every branch and every balance is what it was before,
-- with the goods back that issuing sent and the debt taken off, the cache is in step with the ledger,
-- and the invoice stands as cancelled. It was a proforma with no delivery, and the number of the sale
-- that issuing made had no entry on an account yet.
pub void_undoes_issue :
    (pk note number : ℕ) (o o' o'' : Office) (i i' i'' : Invoice)
    → find_invoice pk o.invoices ≡ some i
    → is_proforma i.status ≡ true
    → IsConsistent o.till.stock
    → IsFresh number o.till.account
    → live_notes i.pk o.notes ≡ []
    → issue pk note number o ≡ ok (i', o')
    → void_invoice pk o' ≡ ok (i'', o'')
    → IsUndone pk i o o''
unfolding issue issue_found void_invoice void_invoice_found
void_undoes_issue pk note number o o' o'' i i' i'' f d k n l h h' =
    let made : issue_proforma i note number o ≡ ok (i', o') = ground arith in
    let f' =
      subst (λ key. find_invoice key o.invoices ≡ some i) (sym (find_invoice-pk pk i o.invoices f))
        f in
    let (row, sent) = issue_proforma-Sent i i' note number o o' f' made in
    let found = (issue_effect pk note note number number o o' i i' f d k h).1 in
    let stands : void_standing (record i { status = InvoiceStatus.owed }) o' ≡ ok (i'', o'') =
      ground arith in
    (void_standing-undoes pk note number o o' o'' i (record i { status = InvoiceStatus.owed }) i'' f
      refl k n l sent stands).1
