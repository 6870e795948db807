-- ===== src/Selling/State.antt =====
-- The tables of apps/selling/models.py beside those of the till: quotations, invoices and delivery
-- notes, and what the shop says of its paperwork.
use retail_system.Prelude.{
  ℕ, Bool, true, false, Option, none, some, List, [], ◌∷◌, ◌==◌, if◌then◌else◌, ℤ, Result, err, ok,
}
use retail_system.Selling.Discounts.{Rules, DiscountError}
use retail_system.Selling.Documents.{DocLine, Document}
use retail_system.Till.Shifts.{Drawer}
use retail_system.Till.State.{Till, TillError}

pub data QuotationStatus : Type 0 where
  draft sent accepted declined expired : QuotationStatus

pub record Quotation : Type 0 where
  pub pk : ℕ
  pub branch : ℕ
  pub customer : ℕ
  pub status : QuotationStatus
  pub issued_on : ℕ
  pub valid_until : ℕ
  pub doc : Document

-- `owed` is the OPEN of the source.
pub data InvoiceStatus : Type 0 where
  draft owed part_paid paid void : InvoiceStatus

pub record Invoice : Type 0 where
  pub pk : ℕ
  pub branch : ℕ
  pub customer : ℕ
  pub quotation : Option ℕ
  pub status : InvoiceStatus
  pub issued_on : ℕ
  pub due_on : ℕ
  pub doc : Document

-- A row holds the invoice line that it points at: an issued invoice keeps its lines.
pub record DeliveryLine : Type 0 where
  pub invoice_line : DocLine
  pub qty : ℕ

-- `auto_sent` says that the note is AUTO_SENT, `voided` that `voided_at` is set.
pub record DeliveryNote : Type 0 where
  pub pk : ℕ
  pub branch : ℕ
  pub invoice : ℕ
  pub auto_sent : Bool
  pub sale : Option ℕ
  pub voided : Bool
  pub lines : List DeliveryLine

-- `credit_limit` is that of each customer.
pub record Office : Type 0 where
  pub quotations : List Quotation
  pub invoices : List Invoice
  pub notes : List DeliveryNote
  pub till : Till
  pub drawer : Drawer
  pub rules : Rules
  pub credit_limit : ℕ → ℤ

pub data SellingError : Type 0 where
  not_sent_out not_accepted quotation_not_found invoice_not_found note_not_found : SellingError
  over_credit_limit nothing_paid nothing_owed more_than_owed : SellingError
  already_paid already_delivered already_cancelled nothing_on_note only_left : SellingError
  already_invoiced : ℕ → SellingError
  of_discount : DiscountError → SellingError
  of_till : TillError → SellingError

abbrev pub lift_discount {ℓ} : {A : Type ℓ} → Result DiscountError A → Result SellingError A
lift_discount (ok a) = ok a
lift_discount (err e) = err (of_discount e)

abbrev pub lift_till {ℓ} : {A : Type ℓ} → Result TillError A → Result SellingError A
lift_till (ok a) = ok a
lift_till (err e) = err (of_till e)

abbrev pub was_sent : QuotationStatus → Bool
was_sent QuotationStatus.sent = true
was_sent _ = false

abbrev pub is_accepted : QuotationStatus → Bool
is_accepted QuotationStatus.accepted = true
is_accepted _ = false

-- `Quotation.is_open`
abbrev pub is_undecided : QuotationStatus → Bool
is_undecided QuotationStatus.draft = true
is_undecided QuotationStatus.sent = true
is_undecided _ = false

abbrev pub is_proforma : InvoiceStatus → Bool
is_proforma InvoiceStatus.draft = true
is_proforma _ = false

abbrev pub is_void : InvoiceStatus → Bool
is_void InvoiceStatus.void = true
is_void _ = false

abbrev pub is_open_invoice : InvoiceStatus → Bool
is_open_invoice InvoiceStatus.owed = true
is_open_invoice _ = false

-- `Invoice.is_owed`
unfoldable pub is_owed : InvoiceStatus → Bool
is_owed InvoiceStatus.owed = true
is_owed InvoiceStatus.part_paid = true
is_owed _ = false

unfoldable pub find_quotation : ℕ → List Quotation → Option Quotation
find_quotation pk [] = none
find_quotation pk (q ∷ qs) = if pk == q.pk then some q else find_quotation pk qs

unfoldable pub save_quotation : Quotation → List Quotation → List Quotation
save_quotation q [] = []
save_quotation q (r ∷ rs) = if q.pk == r.pk then q ∷ rs else r ∷ save_quotation q rs

unfoldable pub find_invoice : ℕ → List Invoice → Option Invoice
find_invoice pk [] = none
find_invoice pk (i ∷ is) = if pk == i.pk then some i else find_invoice pk is

unfoldable pub save_invoice : Invoice → List Invoice → List Invoice
save_invoice i [] = []
save_invoice i (r ∷ rs) = if i.pk == r.pk then i ∷ rs else r ∷ save_invoice i rs

unfoldable pub find_note : ℕ → List DeliveryNote → Option DeliveryNote
find_note pk [] = none
find_note pk (n ∷ ns) = if pk == n.pk then some n else find_note pk ns

unfoldable pub save_note : DeliveryNote → List DeliveryNote → List DeliveryNote
save_note n [] = []
save_note n (r ∷ rs) = if n.pk == r.pk then n ∷ rs else r ∷ save_note n rs
