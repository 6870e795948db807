-- ===== src/Selling/PaymentLaws.antt =====
-- Money against an invoice.
use mathlib.Core.Path.{subst}
use retail_system.Prelude.{
  ℕ, ◌≡◌, refl, sym, ap, ◌∙◌, Bool, true, Option, some, List, [], ◌∷◌, arith, ◌==◌, if◌then◌else◌,
  ℤ, pos, pos_part, neg_part, ◌+ℤ◌, ◌-ℤ◌, ◌≤ℤ◌, ◌<ℤ◌, leb_ℤ, eqb_ℤ, +ℤ_parts, -ℤ_parts, -ℤ_sub, ok,
  raise_if, >>=-eq-ok,
}
use retail_system.Customers.Account.{Account, balance}
use retail_system.Selling.Documents.{doc_total}
use retail_system.Selling.Invoices.{
  invoice_paid, paid_main, charged_main, invoice_balance, status_after, refresh_payment_status,
  payment_main, payment_found, take_payment,
}
use retail_system.Selling.PaymentEntries.{payment_cleared, payment_found_effect}
use retail_system.Selling.State.{
  InvoiceStatus, Invoice, Office, nothing_paid, is_owed, find_invoice, save_invoice,
}
use retail_system.Till.AmountLaws.{charged}

save_invoice-find :
    (i i' : Invoice) (is : List Invoice)
    → find_invoice i'.pk is ≡ some i
    → find_invoice i'.pk (save_invoice i' is) ≡ some i'
unfolding find_invoice save_invoice
save_invoice-find i i' [] h = cc
save_invoice-find i i' (r ∷ rs) h = ground (arith, save_invoice-find i i' rs)

pub find_invoice-pk :
    (pk : ℕ) (i : Invoice) (is : List Invoice) → find_invoice pk is ≡ some i → i.pk ≡ pk
unfolding find_invoice
find_invoice-pk pk i [] h = cc
find_invoice-pk pk i (r ∷ rs) h = ground (arith, find_invoice-pk pk i rs)

pub save_invoice-found :
    (pk : ℕ) (i i' : Invoice) (is : List Invoice)
    → find_invoice pk is ≡ some i
    → i'.pk ≡ i.pk
    → find_invoice pk (save_invoice i' is) ≡ some i'
save_invoice-found pk i i' is h e =
    let same : i'.pk ≡ pk = e ∙ find_invoice-pk pk i is h in
    subst (λ k. find_invoice k (save_invoice i' is) ≡ some i') same
      (save_invoice-find i i' is (subst (λ k. find_invoice k is ≡ some i) (sym same) h))

invoice_balance-payment :
    (i : Invoice) (amount : ℤ) (ts ts' : Account)
    → invoice_paid i.pk ts' ≡ invoice_paid i.pk ts +ℤ amount
    → invoice_balance i ts' ≡ invoice_balance i ts -ℤ amount
unfolding invoice_balance
invoice_balance-payment i amount ts ts' h =
    rw (h, ← -ℤ_sub (doc_total i.doc) (invoice_paid i.pk ts) amount) refl

refresh_payment_status-eq :
    (i : Invoice) (ts : Account)
    → is_owed i.status ≡ true
    → refresh_payment_status i ts ≡ record i { status = status_after i ts }
unfolding refresh_payment_status is_owed
refresh_payment_status-eq i ts h = ground arith

-- Paid when the payment was all that was left, part paid before that.
abbrev pub paid_or_part : Invoice → ℤ → Account → InvoiceStatus
paid_or_part i amount ts =
    if eqb_ℤ amount (invoice_balance i ts) then InvoiceStatus.paid else InvoiceStatus.part_paid

status_after-payment :
    (i : Invoice) (amount : ℤ) (ts ts' : Account)
    → pos 0 <ℤ amount
    → amount ≤ℤ invoice_balance i ts
    → pos 0 ≤ℤ invoice_paid i.pk ts
    → invoice_paid i.pk ts' ≡ invoice_paid i.pk ts +ℤ amount
    → status_after i ts' ≡ paid_or_part i amount ts
unfolding status_after
status_after-payment i amount ts ts' p q n h = ground (
  arith,
  invoice_balance-payment i amount ts ts' h,
  -ℤ_parts (invoice_balance i ts) amount,
  +ℤ_parts (invoice_paid i.pk ts) amount,
  ap pos_part h,
  ap neg_part h,
)

payment_found-saves :
    (i : Invoice) (amount : ℤ) (in_cash : Bool) (shift : Option ℕ) (o o' : Office)
    → find_invoice i.pk o.invoices ≡ some i
    → pos 0 <ℤ amount
    → pos 0 ≤ℤ invoice_paid i.pk o.till.account
    → payment_found i amount in_cash shift o ≡ ok o'
    → find_invoice i.pk o'.invoices
      ≡ some (record i { status = paid_or_part i amount o.till.account })
payment_found-saves i amount in_cash shift o o' f p n h =
    let (within, more, main, charged, account, rows, owed) =
      payment_found_effect i amount in_cash shift o o' 0 h in
    let ts' = o'.till.account in
    let status = status_after-payment i amount o.till.account ts' p within n more in
    let row : refresh_payment_status i ts'
        ≡ record i { status = paid_or_part i amount o.till.account } =
      refresh_payment_status-eq i ts' owed ∙ ap (λ x. record i { status = x }) status in
    rw (rows, row)
      (save_invoice-found i.pk i (record i { status = paid_or_part i amount o.till.account })
        o.invoices f refl)

-- A payment taken against an invoice is above nothing and no more than what is owed on it. It comes
-- off what is owed on the invoice, and off the account of its customer alone. The invoice then
-- stands as paid exactly when nothing is left, and as part paid otherwise. The payment that clears an
-- invoice in another currency takes exactly what is left of its charge in the shop's own. Payments
-- so far were not negative.
pub take_payment_effect :
    (pk : ℕ) (amount : ℤ) (in_cash : Bool) (shift : Option ℕ) (o o' : Office) (i : Invoice)
    → find_invoice pk o.invoices ≡ some i
    → pos 0 ≤ℤ invoice_paid pk o.till.account
    → take_payment pk amount in_cash shift o ≡ ok o'
    → let ts = o.till.account in
      let ts' = o'.till.account in
      (pos 0 <ℤ amount)
      × (amount ≤ℤ invoice_balance i ts)
      × (invoice_balance i ts' ≡ invoice_balance i ts -ℤ amount)
      × ((customer : ℕ)
          → balance customer ts' ≡ (
              if customer == i.customer
              then balance customer ts -ℤ payment_main i amount ts
              else balance customer ts))
      × (find_invoice pk o'.invoices ≡ some (record i { status = paid_or_part i amount ts }))
      × (i.doc.is_foreign ≡ true
          → amount ≡ invoice_balance i ts
          → paid_main pk ts' ≡ charged_main i ts')
unfolding take_payment
take_payment_effect pk amount in_cash shift o o' i f n h =
    let (u, g, h') = >>=-eq-ok (raise_if (leb_ℤ amount (pos 0)) nothing_paid) _ h in
    let p : pos 0 <ℤ amount = ground arith in
    let found : payment_found i amount in_cash shift o ≡ ok o' = ground arith in
    let same = find_invoice-pk pk i o.invoices f in
    let f' = subst (λ k. find_invoice k o.invoices ≡ some i) (sym same) f in
    let n' = subst (λ k. pos 0 ≤ℤ invoice_paid k o.till.account) (sym same) n in
    let (within, more, main, charged, account, rows, owed) =
      payment_found_effect i amount in_cash shift o o' 0 found in
    let saved = payment_found-saves i amount in_cash shift o o' f' p n' found in
    (
      p,
      within,
      invoice_balance-payment i amount o.till.account o'.till.account more,
      λ c. (payment_found_effect i amount in_cash shift o o' c found).4,
      subst
          (λ k.
            find_invoice k o'.invoices
            ≡ some (record i { status = paid_or_part i amount o.till.account }))
          same saved,
      λ foreign cleared.
          subst (λ k. paid_main k o'.till.account ≡ charged_main i o'.till.account) same
            (main ∙ payment_cleared i amount o.till.account foreign cleared ∙ sym charged),
    )
