-- ===== src/Selling/Quotations.antt =====
-- The life of a quotation: `send`, `decide`, `expire_overdue` and `invoice_from_quotation` of
-- apps/selling/services.py.
use retail_system.Prelude.{
  ℕ, ◌+◌, Bool, not, ◌&&◌, Option, none, some, List, [], ◌∷◌, ltb, if◌then◌else◌, Result, err, ok,
  raise_if, ◌>>=◌, ◌>>◌,
}
use retail_system.Customers.Account.{is_some_of}
use retail_system.Selling.Discounts.{Rules, DiscountError, check_document_discounts}
use retail_system.Selling.State.{
  QuotationStatus, Quotation, InvoiceStatus, Invoice, Office, SellingError, not_sent_out,
  not_accepted, quotation_not_found, already_invoiced, lift_discount, was_sent, is_accepted,
  is_undecided, is_void, find_quotation, save_quotation,
}

-- `Quotation.has_expired`
unfoldable pub has_expired : ℕ → Quotation → Bool
has_expired today q = is_undecided q.status && ltb q.valid_until today

unfoldable pub send : Rules → Quotation → Result DiscountError Quotation
unfolding check_document_discounts
send r q = check_document_discounts r q.doc >> ok (record q { status = QuotationStatus.sent })

unfoldable pub decide_found : Bool → Quotation → Result SellingError Quotation
decide_found accepted q = do
  raise_if (not (was_sent q.status)) not_sent_out
  ok (record q { status = if accepted then QuotationStatus.accepted else QuotationStatus.declined })

unfoldable pub decide : ℕ → Bool → Office → Result SellingError (Quotation × Office)
unfolding find_quotation save_quotation decide_found
decide pk accepted o = elim (find_quotation pk o.quotations) [
  | none ↦ err quotation_not_found
  | some q ↦ do
    q' ← decide_found accepted q
    ok (q', record o { quotations = save_quotation q' o.quotations })
]

unfoldable pub expire : ℕ → Quotation → Quotation
unfolding has_expired
expire today q = if has_expired today q then record q { status = QuotationStatus.expired } else q

-- The number of rows that the update changes is not kept.
unfoldable pub expire_overdue : ℕ → List Quotation → List Quotation
unfolding expire
expire_overdue today [] = []
expire_overdue today (q ∷ qs) = expire today q ∷ expire_overdue today qs

-- An invoice of the quotation that is not cancelled.
abbrev pub is_live_of : ℕ → Invoice → Bool
is_live_of quotation i = is_some_of i.quotation quotation && not (is_void i.status)

-- `quotation.invoices.exclude(status=VOID).first()`
unfoldable pub live_invoice : ℕ → List Invoice → Option Invoice
live_invoice quotation [] = none
live_invoice quotation (i ∷ is) =
    if is_live_of quotation i then some i else live_invoice quotation is

unfoldable pub new_invoice : ℕ → ℕ → ℕ → Quotation → Invoice
new_invoice pk today terms_days q = record {
  pk = pk;
  branch = q.branch;
  customer = q.customer;
  quotation = some q.pk;
  status = InvoiceStatus.draft;
  issued_on = today;
  due_on = today + terms_days;
  doc = q.doc;
}

unfoldable pub invoice_found :
    ℕ → ℕ → ℕ → Quotation → Office → Result SellingError (Invoice × Office)
unfolding live_invoice new_invoice check_document_discounts
invoice_found pk today terms_days q o = do
  raise_if (not (is_accepted q.status)) not_accepted
  elim (live_invoice q.pk o.invoices) [
    | some existing ↦ err (already_invoiced existing.pk)
    | none ↦ do
      lift_discount (check_document_discounts o.rules q.doc)
      let invoice = new_invoice pk today terms_days q
      ok (invoice, record o { invoices = invoice ∷ o.invoices })
  ]

-- The lines are copied, so the invoice has new lines of its own with what the offer says on each.
unfoldable pub invoice_from_quotation :
    ℕ → ℕ → ℕ → ℕ → Office → Result SellingError (Invoice × Office)
unfolding find_quotation invoice_found
invoice_from_quotation quotation pk today terms_days o =
    elim (find_quotation quotation o.quotations) [
      | none ↦ err quotation_not_found
      | some q ↦ invoice_found pk today terms_days q o
    ]
