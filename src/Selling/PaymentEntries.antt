-- ===== src/Selling/PaymentEntries.antt =====
-- What one payment writes on the account: `take_payment` of apps/selling/services.py.
use retail_system.Prelude.{
  ℕ, ◌≡◌, Bool, true, false, not, Option, ◌∷◌, arith, ◌==◌, if◌then◌else◌, ℤ, ◌+ℤ◌, ◌-ℤ◌, neg, ◌≤ℤ◌,
  ltb_ℤ, int_laws, +ℤ_sub, ok, raise_if, >>=-eq-ok,
}
use retail_system.Customers.Account.{Account, balance}
use retail_system.Selling.Invoices.{
  doc_amount_of, invoice_paid, paid_main, charged_main, balance_main, invoice_balance,
  refresh_payment_status, payment_main, payment_entry, payment_found,
}
use retail_system.Selling.State.{
  Invoice, Office, nothing_owed, more_than_owed, is_owed, save_invoice,
}

payment_main-home :
    (i : Invoice) (amount : ℤ) (ts : Account)
    → i.doc.is_foreign ≡ false
    → payment_main i amount ts ≡ amount
unfolding payment_main
payment_main-home i amount ts h = ground arith

payment_entry-doc_amount :
    (i : Invoice) (amount : ℤ) (ts : Account)
    → doc_amount_of (payment_entry i amount ts) ≡ neg amount
unfolding payment_entry
payment_entry-doc_amount i amount ts = ground (arith, payment_main-home i amount ts)

-ℤ_neg : (a b : ℤ) → a -ℤ neg b ≡ a +ℤ b
-ℤ_neg a b = omega int_laws

neg-+ℤ : (a b : ℤ) → neg a +ℤ b ≡ b -ℤ a
neg-+ℤ a b = omega int_laws

-- What one payment does to what has been paid against an invoice, in both currencies.
payment_entry_effect :
    (i : Invoice) (amount : ℤ) (ts : Account) (customer : ℕ)
    → let ts' = payment_entry i amount ts ∷ ts in
      let main = payment_main i amount ts in
      (invoice_paid i.pk ts' ≡ invoice_paid i.pk ts +ℤ amount)
      × (paid_main i.pk ts' ≡ paid_main i.pk ts +ℤ main)
      × (charged_main i ts' ≡ charged_main i ts)
      × (balance customer ts'
          ≡ (if customer == i.customer then balance customer ts -ℤ main else balance customer ts))
unfolding invoice_paid paid_main charged_main payment_entry
payment_entry_effect i amount ts customer =
    let main = payment_main i amount ts in
    ground (
      arith,
      payment_entry-doc_amount i amount ts,
      -ℤ_neg (invoice_paid i.pk ts) amount,
      -ℤ_neg (paid_main i.pk ts) main,
      neg-+ℤ main (balance customer ts),
    )

pub payment_cleared :
    (i : Invoice) (amount : ℤ) (ts : Account)
    → i.doc.is_foreign ≡ true
    → amount ≡ invoice_balance i ts
    → paid_main i.pk ts +ℤ payment_main i amount ts ≡ charged_main i ts
unfolding payment_main balance_main
payment_cleared i amount ts f e = ground (arith, +ℤ_sub (charged_main i ts) (paid_main i.pk ts))

pub payment_found_effect :
    (i : Invoice) (amount : ℤ) (in_cash : Bool) (shift : Option ℕ) (o o' : Office) (customer : ℕ)
    → payment_found i amount in_cash shift o ≡ ok o'
    → let main = payment_main i amount o.till.account in
      let ts' = o'.till.account in
      (amount ≤ℤ invoice_balance i o.till.account)
      × (invoice_paid i.pk ts' ≡ invoice_paid i.pk o.till.account +ℤ amount)
      × (paid_main i.pk ts' ≡ paid_main i.pk o.till.account +ℤ main)
      × (charged_main i ts' ≡ charged_main i o.till.account)
      × (balance customer ts' ≡ (
          if customer == i.customer
          then balance customer o.till.account -ℤ main
          else balance customer o.till.account))
      × (o'.invoices ≡ save_invoice (refresh_payment_status i ts') o.invoices)
      × (is_owed i.status ≡ true)
unfolding payment_found
payment_found_effect i amount in_cash shift o o' customer h =
    let (u, g, h₁) = >>=-eq-ok (raise_if (not (is_owed i.status)) nothing_owed) _ h in
    let (u', g', h₂) =
      >>=-eq-ok (raise_if (ltb_ℤ (invoice_balance i o.till.account) amount) more_than_owed) _ h₁ in
    ground (arith, payment_entry_effect i amount o.till.account customer)
