-- ===== src/Purchasing/SettlingLaws.antt =====
-- One turn of the loop over the open bills.
use retail_system.Prelude.{
  ℕ, ◌≡◌, sym, ◌≢◌, ◌⊎◌, List, [], ◌++◌, arith, ◌==◌, pos, ◌+ℤ◌, ◌≤ℤ◌, +ℤ_parts, -ℤ_parts, int_laws,
  +ℤ_zero, +ℤ_comm, All-append,
}
use retail_system.Customers.Account.{is_some_of}
use retail_system.Purchasing.AdvanceLaws.{
  AllAdvances, NoneAdvance, total_of-append, paid_on-advances,
}
use retail_system.Purchasing.Bills.{
  SupplierInvoice, SupplierPayment, paid_on, bill_outstanding, paid_to, Advances, settle_bill,
}
use retail_system.Purchasing.SettleLaws.{
  settle_bill_kinds, settle_bill_total, settle_bill_paid, settle_bill_due,
}

abbrev pub Settled : ℕ → Advances → Type 0
Settled k w = NoneAdvance k w.rows × AllAdvances k w.advances

-- The tables once the loop has settled one bill.
abbrev pub settle_one : (ℕ → ℕ) → ℕ → SupplierInvoice → Advances → Advances
settle_one new_pk k b w =
    let due = bill_outstanding b (w.rows ++ w.advances) in
    let one = settle_bill (new_pk b.pk) k b due w.advances in
    record { rows = one.rows ++ w.rows; advances = one.advances }

pub paid_on-all :
    (j k : ℕ) (w : Advances) → Settled k w → paid_on j (w.rows ++ w.advances) ≡ paid_on j w.rows
unfolding paid_on
paid_on-all j k w h = ground (
  arith,
  total_of-append (λ p. is_some_of p.invoice j) w.rows w.advances,
  paid_on-advances k j w.advances h.1,
  +ℤ_zero (paid_on j w.rows),
)

pub paid_on-append :
    (j : ℕ) (ps qs : List SupplierPayment) → paid_on j (ps ++ qs) ≡ paid_on j ps +ℤ paid_on j qs
unfolding paid_on
paid_on-append j ps qs = total_of-append (λ p. is_some_of p.invoice j) ps qs

pub paid_to-append :
    (x : ℕ) (ps qs : List SupplierPayment) → paid_to x (ps ++ qs) ≡ paid_to x ps +ℤ paid_to x qs
unfolding paid_to
paid_to-append x ps qs = total_of-append (λ p. p.supplier == x) ps qs

module _ (new_pk : ℕ → ℕ) (k : ℕ) where
  pub settle_one-Settled :
      (b : SupplierInvoice) (w : Advances) → Settled k w → Settled k (settle_one new_pk k b w)
  settle_one-Settled b w h =
      let due = bill_outstanding b (w.rows ++ w.advances) in
      let one = settle_bill (new_pk b.pk) k b due w.advances in
      let kinds = settle_bill_kinds (new_pk b.pk) k b due w.advances h.1 in
      (All-append _ one.rows w.rows kinds.0 h.0, kinds.1)

  pub settle_one-total :
      (x : ℕ) (b : SupplierInvoice) (w : Advances)
      → Settled k w
      → let w' = settle_one new_pk k b w in
        paid_to x (w'.rows ++ w'.advances) ≡ paid_to x (w.rows ++ w.advances)
  settle_one-total x b w h =
      let due = bill_outstanding b (w.rows ++ w.advances) in
      let one = settle_bill (new_pk b.pk) k b due w.advances in
      let e = settle_bill_total (new_pk b.pk) k b x due w.advances h.1 in
      rw
        (
          paid_to-append x (one.rows ++ w.rows) one.advances,
          paid_to-append x one.rows w.rows,
          paid_to-append x w.rows w.advances,
          sym e,
        )
        (omega int_laws)

  pub settle_one-paid :
      (j : ℕ) (b : SupplierInvoice) (w : Advances)
      → Settled k w
      → let w' = settle_one new_pk k b w in
        (paid_on j w.rows ≤ℤ paid_on j w'.rows)
        × (b.pk ≢ j → paid_on j w'.rows ≡ paid_on j w.rows)
        × ((paid_on b.pk w'.rows ≤ℤ b.amount) ⊎ (w'.rows ≡ w.rows))
        × ((w'.advances ≡ []) ⊎ (b.amount ≤ℤ paid_on b.pk w'.rows))
  unfolding bill_outstanding
  settle_one-paid j b w h =
      let due = bill_outstanding b (w.rows ++ w.advances) in
      let one = settle_bill (new_pk b.pk) k b due w.advances in
      let paid = settle_bill_paid (new_pk b.pk) k b j due w.advances h.1 in
      let ended = settle_bill_due (new_pk b.pk) k b due w.advances h.1 in
      let e = paid_on-append j one.rows w.rows in
      let f = paid_on-append b.pk one.rows w.rows in
      let g = paid_on-all b.pk k w h in
      let u = -ℤ_parts b.amount (paid_on b.pk (w.rows ++ w.advances)) in
      let v = +ℤ_parts (paid_on b.pk one.rows) (paid_on b.pk w.rows) in
      (
        ground (arith, paid, e, +ℤ_parts (paid_on j one.rows) (paid_on j w.rows)),
        λ ne.
            ground (arith, paid, e, +ℤ_comm (pos 0) (paid_on j w.rows), +ℤ_zero (paid_on j w.rows)),
        ground (arith, ended.0, f, g, u, v),
        ground (arith, ended.1, f, g, u, v),
      )
