-- ===== src/Selling/QuotationLaws.antt =====
-- About the life of a quotation and the invoice made from it.
use retail_system.Prelude.{
  ℕ, suc, ◌≤◌, ◌≡◌, refl, ap, ◌∙◌, inl, inr, Bool, true, not, none, some, List, [], ◌∷◌, arith,
  if◌then◌else◌, Option-cases, err, ok,
}
use retail_system.Selling.Quotations.{
  has_expired, decide_found, expire, is_live_of, live_invoice, new_invoice, invoice_found,
  invoice_from_quotation,
}
use retail_system.Selling.State.{
  QuotationStatus, Quotation, Invoice, Office, already_invoiced, is_undecided, find_quotation,
}

-- One step in the life of a quotation: what the services do to its status.
pub data QuotationStep (q : Quotation) : Quotation → Type 0 where
  decided :
      (accepted : Bool) (q' : Quotation) → decide_found accepted q ≡ ok q' → QuotationStep q q'
  expired_on : (today : ℕ) → QuotationStep q (expire today q)

pub data QuotationSteps : Quotation → Quotation → Type 0 where
  stay : (q : Quotation) → QuotationSteps q q
  step : (q q' q'' : Quotation) → QuotationStep q q' → QuotationSteps q' q'' → QuotationSteps q q''

abbrev pub is_over : QuotationStatus → Bool
is_over s = not (is_undecided s)

over-step : (q q' : Quotation) → is_over q.status ≡ true → QuotationStep q q' → q' ≡ q
unfolding decide_found expire has_expired
over-step q _ h (decided accepted q' e) = ground arith
over-step q _ h (expired_on today) = ground arith

-- An answer is final: a quotation that was accepted, declined or has expired stays exactly as it is,
-- whatever is answered and whatever nights pass afterwards.
pub answer_is_final : (q q' : Quotation) → is_over q.status ≡ true → QuotationSteps q q' → q' ≡ q
answer_is_final q _ h (stay _) = refl
answer_is_final q q' h (step _ m _ s ss) =
    let same = over-step q m h s in
    answer_is_final m q' (ap (λ x. is_over x.status) same ∙ h) ss ∙ same

unfoldable pub count_live : ℕ → List Invoice → ℕ
count_live quotation [] = 0
count_live quotation (i ∷ is) =
    let rest = count_live quotation is in if is_live_of quotation i then suc rest else rest

abbrev pub BilledOnce : Office → Type 0
BilledOnce o = (quotation : ℕ) → count_live quotation o.invoices ≤ 1

live_invoice-none : (q : ℕ) (is : List Invoice) → live_invoice q is ≡ none → count_live q is ≡ 0
unfolding live_invoice count_live
live_invoice-none q [] h = refl
live_invoice-none q (i ∷ is) h = ground (arith, live_invoice-none q is)

invoice_found_effect :
    (pk pk' today terms_days : ℕ) (q : Quotation) (o o' : Office) (i : Invoice)
    → BilledOnce o
    → invoice_found pk today terms_days q o ≡ ok (i, o')
    → (q.status ≡ QuotationStatus.accepted)
      × (i.doc ≡ q.doc)
      × (i.customer ≡ q.customer)
      × BilledOnce o'
      × (o'.quotations ≡ o.quotations)
      × (invoice_found pk' today terms_days q o' ≡ err (already_invoiced pk))
unfolding invoice_found live_invoice count_live new_invoice
invoice_found_effect pk pk' today terms_days q o o' i k h =
    let none_yet = live_invoice-none q.pk o.invoices in
    (
      ground arith,
      ground arith,
      ground arith,
      λ r. ground (arith, k r, none_yet),
      ground arith,
      ground arith,
    )

-- An offer is billed once, as it was accepted: the invoice has the lines, the discount, the currency
-- and the way of adding VAT of the offer, no offer has two invoices that stand, and a second one is
-- refused.
pub invoice_from_quotation_effect :
    (quotation pk pk' today terms_days : ℕ) (o o' : Office) (i : Invoice)
    → BilledOnce o
    → invoice_from_quotation quotation pk today terms_days o ≡ ok (i, o')
    → (q : Quotation) × (find_quotation quotation o.quotations ≡ some q)
      × (q.status ≡ QuotationStatus.accepted)
      × (i.doc ≡ q.doc)
      × (i.customer ≡ q.customer)
      × BilledOnce o'
      × (invoice_from_quotation quotation pk' today terms_days o' ≡ err (already_invoiced pk))
unfolding invoice_from_quotation
invoice_from_quotation_effect quotation pk pk' today terms_days o o' i k h =
    elim (Option-cases (find_quotation quotation o.quotations)) [
      | inl e ↦ absurd (ground arith)
      | inr (q, e) ↦
          let found : invoice_found pk today terms_days q o ≡ ok (i, o') = ground arith in
          let (status, doc, customer, once, kept, again) =
            invoice_found_effect pk pk' today terms_days q o o' i k found in
          (q, e, status, doc, customer, once, ground arith)
    ]
