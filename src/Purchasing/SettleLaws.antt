-- ===== src/Purchasing/SettleLaws.antt =====
-- The loop that settles one bill out of advances.
use retail_system.Prelude.{
  ℕ, ◌≡◌, refl, ◌≢◌, ◌⊎◌, inl, inr, List, [], ◌∷◌, arith, ℤ, pos, ◌+ℤ◌, ◌-ℤ◌, ◌≤ℤ◌, +ℤ_parts,
  -ℤ_parts, int_laws, +ℤ_zero, +ℤ_comm, +ℤ_sub, +ℤ_assoc,
}
use retail_system.Purchasing.AdvanceLaws.{AllAdvances, NoneAdvance, is_advance_facts}
use retail_system.Purchasing.Bills.{
  SupplierInvoice, SupplierPayment, total_of, paid_on, paid_to, is_advance, split_row, settle_bill,
}

module _ (n k : ℕ) (b : SupplierInvoice) where
  pub settle_bill_kinds :
      (due : ℤ) (advances : List SupplierPayment)
      → AllAdvances k advances
      → let r = settle_bill n k b due advances in NoneAdvance k r.rows × AllAdvances k r.advances
  unfolding settle_bill is_advance split_row
  settle_bill_kinds due [] h = (tt, tt)
  settle_bill_kinds due (a ∷ later) h =
      ground (arith, settle_bill_kinds (due -ℤ a.amount) later h.1, -ℤ_parts a.amount due)

  -- Money moves between rows of the same supplier.
  pub settle_bill_total :
      (x : ℕ) (due : ℤ) (advances : List SupplierPayment)
      → AllAdvances k advances
      → let r = settle_bill n k b due advances in
        paid_to x r.rows +ℤ paid_to x r.advances ≡ paid_to x advances
  unfolding settle_bill split_row paid_to total_of
  settle_bill_total x due [] h = omega int_laws
  settle_bill_total x due (a ∷ later) h =
      let r = settle_bill n k b (due -ℤ a.amount) later in
      ground (
        arith,
        settle_bill_total x (due -ℤ a.amount) later h.1,
        is_advance_facts k a h.0,
        +ℤ_assoc a.amount (paid_to x r.rows) (paid_to x r.advances),
        +ℤ_assoc due (a.amount -ℤ due) (paid_to x later),
        +ℤ_sub a.amount due,
        +ℤ_zero due,
        +ℤ_comm (pos 0) (paid_to x later),
        +ℤ_zero (paid_to x later),
        +ℤ_comm (pos 0) (a.amount +ℤ paid_to x later),
        +ℤ_zero (a.amount +ℤ paid_to x later),
      )

  -- What is written stands for this bill, and no row takes anything away.
  pub settle_bill_paid :
      (j : ℕ) (due : ℤ) (advances : List SupplierPayment)
      → AllAdvances k advances
      → let r = settle_bill n k b due advances in
        (pos 0 ≤ℤ paid_on j r.rows) × (b.pk ≢ j → paid_on j r.rows ≡ pos 0)
  unfolding settle_bill split_row paid_on total_of
  settle_bill_paid j due [] h = (omega arith, λ ne. refl)
  settle_bill_paid j due (a ∷ later) h =
      let r = settle_bill n k b (due -ℤ a.amount) later in
      let rest = settle_bill_paid j (due -ℤ a.amount) later h.1 in
      ground
        (arith, rest, is_advance_facts k a h.0, +ℤ_parts a.amount (paid_on j r.rows), +ℤ_zero due)

  -- The bill is never paid beyond what is due, and the advances run out before it is left open.
  pub settle_bill_due :
      (due : ℤ) (advances : List SupplierPayment)
      → AllAdvances k advances
      → let r = settle_bill n k b due advances in
        ((paid_on b.pk r.rows ≤ℤ due) ⊎ (r.rows ≡ []))
        × ((r.advances ≡ []) ⊎ (due ≤ℤ paid_on b.pk r.rows))
  unfolding settle_bill split_row paid_on total_of
  settle_bill_due due [] h = (inr refl, inl refl)
  settle_bill_due due (a ∷ later) h =
      let r = settle_bill n k b (due -ℤ a.amount) later in
      let rest = settle_bill_due (due -ℤ a.amount) later h.1 in
      ground (
        arith,
        rest,
        is_advance_facts k a h.0,
        +ℤ_parts a.amount (paid_on b.pk r.rows),
        -ℤ_parts due a.amount,
        +ℤ_zero due,
        +ℤ_zero a.amount,
      )
