-- ===== src/Selling/DocumentTests.antt =====
-- Quotations and the money of a document, on the order of the sample shop.
use retail_system.Prelude.{
  ◌+◌, ◌*◌, ◌≤◌, ◌≡◌, refl, ◌↔◌, ◌⊎◌, some, [], ◌∷◌, arith, pos, negsuc, ◌+ℤ◌, ◌-ℤ◌, ◌*ℤ◌, neg,
  ◌≤ℤ◌, All, err, ok,
}
use retail_system.Selling.DiscountLaws.{IsAllowed, check_document_discounts_iff}
use retail_system.Selling.Discounts.{combined_discount, check_document_discounts}
use retail_system.Selling.DocumentLaws.{doc_line_total_cases}
use retail_system.Selling.Documents.{
  doc_gross_total, doc_discount, doc_line_total, doc_tax, doc_total,
}
use retail_system.Selling.QuotationLaws.{count_live, BilledOnce, invoice_from_quotation_effect}
use retail_system.Selling.Quotations.{invoice_from_quotation}
use retail_system.Selling.Sample.{shop_rules, bags, labour, order, offer, desk, proforma, billed}
use retail_system.Selling.State.{QuotationStatus, Quotation, already_invoiced, find_quotation}

-- 35.40 with 3.54 off, and 5% off that.
order_run :
    (doc_total order ≡ pos 3027) × (doc_tax order ≡ pos 462) × (combined_discount 4000 4000 ≡ 6400)
unfolding doc_total doc_tax combined_discount ◌+ℤ◌ ◌-ℤ◌ ◌*ℤ◌
order_run = (refl, refl, refl)

-- The labour given away costs a cent less than nothing.
labour_run : doc_line_total labour ≡ negsuc 0
unfolding doc_line_total neg
labour_run = refl

doc_line_total_cases_example :
    ((doc_line_total labour +ℤ pos (doc_discount labour) ≡ pos (doc_gross_total labour))
      × (pos 0 ≤ℤ doc_line_total labour))
    ⊎ ((doc_line_total labour ≡ negsuc 0)
        × (500 * 365 + 500 ≡ 1000 * doc_discount labour)
        × (labour.discount_percent ≡ 10_000))
doc_line_total_cases_example = doc_line_total_cases labour (omega arith)

order-lines : All (λ l. pos 0 ≤ℤ doc_line_total l) order.lines
unfolding doc_line_total
order-lines = (omega arith, tt)

check_document_discounts_iff_example :
    (check_document_discounts shop_rules order ≡ ok tt)
    ↔ ((combined_discount 0 500 ≤ 2000) × All (IsAllowed shop_rules order) (bags ∷ []))
check_document_discounts_iff_example = check_document_discounts_iff shop_rules order

desk-BilledOnce : BilledOnce desk
unfolding count_live
desk-BilledOnce q = omega arith

billed_run : invoice_from_quotation 3 4 101 14 desk ≡ ok (proforma, billed)
unfolding invoice_from_quotation
billed_run = refl

invoice_from_quotation_effect_example :
    (q : Quotation) × (find_quotation 3 (offer ∷ []) ≡ some q)
    × (q.status ≡ QuotationStatus.accepted)
    × (proforma.doc ≡ q.doc)
    × (proforma.customer ≡ q.customer)
    × BilledOnce billed
    × (invoice_from_quotation 3 9 101 14 billed ≡ err (already_invoiced 4))
invoice_from_quotation_effect_example =
    invoice_from_quotation_effect 3 4 9 101 14 desk billed proforma desk-BilledOnce billed_run
