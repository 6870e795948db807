-- ===== src/Selling/Cancelling.antt =====
-- Taking an invoice back: `void_invoice` of apps/selling/services.py.
use retail_system.Prelude.{
  ℕ, Bool, true, false, not, ◌&&◌, none, some, List, [], ◌∷◌, ◌==◌, if◌then◌else◌, pos, ◌-ℤ◌, neg,
  ltb_ℤ, Result, err, ok, raise_if, ◌>>=◌, ◌>>◌,
}
use retail_system.Customers.Account.{CreditKind, CreditTransaction, Account, balance}
use retail_system.Selling.Deliveries.{cancel_delivery}
use retail_system.Selling.Documents.{doc_total}
use retail_system.Selling.Invoices.{invoice_paid, charged_main, in_doc}
use retail_system.Selling.State.{
  InvoiceStatus, Invoice, DeliveryNote, Office, SellingError, invoice_not_found, already_paid,
  already_delivered, is_void, is_open_invoice, find_invoice, save_invoice,
}

-- `invoice.deliveries.filter(voided_at__isnull=True)`
unfoldable pub live_notes : ℕ → List DeliveryNote → List DeliveryNote
live_notes invoice [] = []
live_notes invoice (n ∷ ns) =
    let rest = live_notes invoice ns in
    if invoice == n.invoice && not n.voided then n ∷ rest else rest

unfoldable pub all_auto_sent : List DeliveryNote → Bool
all_auto_sent [] = true
all_auto_sent (n ∷ ns) = let rest = all_auto_sent ns in n.auto_sent && rest

unfoldable pub cancel_each : List DeliveryNote → Office → Result SellingError Office
unfolding cancel_delivery
cancel_each [] o = ok o
cancel_each (n ∷ ns) o = do o' ← cancel_delivery n.pk o; cancel_each ns o'

unfoldable pub void_entry : Invoice → Account → CreditTransaction
unfolding charged_main doc_total balance
void_entry i ts = record {
  customer = i.customer;
  kind = CreditKind.adjustment;
  amount = neg (charged_main i ts);
  doc_amount = in_doc i.doc (neg (doc_total i.doc));
  balance_after = balance i.customer ts -ℤ charged_main i ts;
  sale = none;
  invoice = some i.pk;
  undoes = false;
}

unfoldable pub account_after_void : Invoice → Account → Account
unfolding void_entry
account_after_void i ts = if is_open_invoice i.status then void_entry i ts ∷ ts else ts

-- `void_invoice` behind its first return.
unfoldable pub void_standing : Invoice → Office → Result SellingError (Invoice × Office)
unfolding invoice_paid live_notes all_auto_sent cancel_each account_after_void save_invoice
void_standing i o = do
  raise_if (ltb_ℤ (pos 0) (invoice_paid i.pk o.till.account)) already_paid
  let live = live_notes i.pk o.notes
  raise_if (not (all_auto_sent live)) already_delivered
  o' ← cancel_each live o
  let cancelled = record i { status = InvoiceStatus.void }
  ok (
    cancelled,
    record o' {
      invoices = save_invoice cancelled o'.invoices;
      till = record o'.till { account = account_after_void i o'.till.account };
    },
  )

unfoldable pub void_invoice_found : Invoice → Office → Result SellingError (Invoice × Office)
unfolding void_standing
void_invoice_found i o = elim (is_void i.status) [ true ↦ ok (i, o) | false ↦ void_standing i o ]

unfoldable pub void_invoice : ℕ → Office → Result SellingError (Invoice × Office)
unfolding void_invoice_found find_invoice
void_invoice pk o = elim (find_invoice pk o.invoices) [
  | none ↦ err invoice_not_found
  | some i ↦ void_invoice_found i o
]
