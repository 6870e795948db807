-- ===== src/Purchasing/AppliedLaws.antt =====
-- `apply_advances` of apps/purchasing/services.py as a whole.
use retail_system.Prelude.{
  ℕ, ◌≡◌, refl, ◌∙◌, ◌⊎◌, inl, inr, Bool, true, false, ◌&&◌, List, [], ◌∷◌, ◌++◌, arith, ◌==◌,
  if◌then◌else◌, Bool-cases, ℤ, pos, ◌≤ℤ◌, ltb_ℤ, -ℤ_parts, +ℤ_zero, All, All-append, All-map,
}
use retail_system.Customers.Account.{is_some_of}
use retail_system.Purchasing.AdvanceLaws.{
  total_of-find, find_advances_kinds, find_advances-none, paid_on-advances,
}
use retail_system.Purchasing.ApplyLaws.{
  AllKeyed, settle_bills-Settled, settle_bills-total, settle_bills_grow, settle_bills_within,
  settle_bills_complete,
}
use retail_system.Purchasing.Bills.{
  SupplierInvoice, SupplierPayment, paid_on, bill_outstanding, paid_to, supplier_balance,
  find_advances, is_billed_before, insert_bill, open_bills, settle_bills, apply_advances,
}
use retail_system.Purchasing.SettlingLaws.{paid_on-all, paid_to-append}

module _ {κ} (P : SupplierInvoice → Type κ) where
  All-insert_bill :
      (b : SupplierInvoice) (bs : List SupplierInvoice) → P b → All P bs → All P (insert_bill b bs)
  unfolding insert_bill
  All-insert_bill b [] p h = (p, tt)
  All-insert_bill b (c ∷ cs) p h = elim (Bool-cases (is_billed_before c b)) [
    | inl e ↦ rw e (h.0, All-insert_bill b cs p h.1)
    | inr e ↦ rw e (p, h)
  ]

  All-uninsert_bill :
      (b : SupplierInvoice) (bs : List SupplierInvoice) → All P (insert_bill b bs) → P b × All P bs
  unfolding insert_bill
  All-uninsert_bill b [] h = h
  All-uninsert_bill b (c ∷ cs) h = elim (Bool-cases (is_billed_before c b)) [
    | inl e ↦ ground (arith, All-uninsert_bill b cs)
    | inr e ↦ ground arith
  ]

  All-uninsert_if :
      (c : Bool) (b : SupplierInvoice) (bs : List SupplierInvoice)
      → All P (if c then insert_bill b bs else bs)
      → (c ≡ true → P b) × All P bs
  All-uninsert_if true b bs h = let r = All-uninsert_bill b bs h in (λ _. r.0, r.1)
  All-uninsert_if false b bs h = (λ e. cc, h)

open_bills-All :
    (k : ℕ) (ps : List SupplierPayment) (j : ℕ) (amount : ℤ) (bs : List SupplierInvoice)
    → AllKeyed j amount bs
    → AllKeyed j amount (open_bills k ps bs)
unfolding open_bills
open_bills-All k ps j amount [] h = tt
open_bills-All k ps j amount (b ∷ bs) h =
    let rest = open_bills-All k ps j amount bs h.1 in
    elim (Bool-cases (b.supplier == k && ltb_ℤ (pos 0) (bill_outstanding b ps))) [
      | inl e ↦ rw e (All-insert_bill _ b (open_bills k ps bs) h.0 rest)
      | inr e ↦ rw e rest
    ]

-- The bills that were not open stay settled, so that what holds of the open ones holds of all.
open_bills_cover :
    (k : ℕ) (ps qs : List SupplierPayment) (bs : List SupplierInvoice)
    → ((j : ℕ) → paid_on j ps ≤ℤ paid_on j qs)
    → All (λ c. c.amount ≤ℤ paid_on c.pk qs) (open_bills k ps bs)
    → All (λ c. c.supplier ≡ k → c.amount ≤ℤ paid_on c.pk qs) bs
unfolding open_bills bill_outstanding
open_bills_cover k ps qs [] grow h = tt
open_bills_cover k ps qs (b ∷ bs) grow h =
    let is_open = b.supplier == k && ltb_ℤ (pos 0) (bill_outstanding b ps) in
    let r = All-uninsert_if _ is_open b (open_bills k ps bs) h in
    (
      λ f. ground (arith, r.0, grow b.pk, -ℤ_parts b.amount (paid_on b.pk ps)),
      open_bills_cover k ps qs bs grow r.1,
    )

paid_on-find :
    (j k : ℕ) (ps : List SupplierPayment) → paid_on j (find_advances k ps).rows ≡ paid_on j ps
unfolding paid_on
paid_on-find j k ps =
    let w = find_advances k ps in
    ground (
      arith,
      total_of-find (λ p. is_some_of p.invoice j) k ps,
      paid_on-advances k j w.advances (find_advances_kinds k ps).1,
      +ℤ_zero (paid_on j w.rows),
    )

paid_to-find :
    (x k : ℕ) (ps : List SupplierPayment)
    → let w = find_advances k ps in paid_to x (w.rows ++ w.advances) ≡ paid_to x ps
unfolding paid_to
paid_to-find x k ps =
    let w = find_advances k ps in
    paid_to-append x w.rows w.advances ∙ total_of-find (λ p. p.supplier == x) k ps

-- What `apply_advances` leaves on each bill, and what it leaves of the advances.
apply_advances_rows :
    (new_pk : ℕ → ℕ) (k : ℕ) (bs : List SupplierInvoice) (ps : List SupplierPayment) (j : ℕ)
    → paid_on j (apply_advances new_pk k bs ps)
      ≡ paid_on j (settle_bills new_pk k (open_bills k ps bs) (find_advances k ps)).rows
unfolding apply_advances
apply_advances_rows new_pk k bs ps j =
    let w = find_advances k ps in
    paid_on-all j k (settle_bills new_pk k (open_bills k ps bs) w)
      (settle_bills-Settled new_pk k (open_bills k ps bs) w (find_advances_kinds k ps))

apply_advances_grow :
    (new_pk : ℕ → ℕ) (k : ℕ) (bs : List SupplierInvoice) (ps : List SupplierPayment) (j : ℕ)
    → paid_on j ps ≤ℤ paid_on j (apply_advances new_pk k bs ps)
apply_advances_grow new_pk k bs ps j =
    let w = find_advances k ps in
    ground (
      arith,
      apply_advances_rows new_pk k bs ps j,
      paid_on-find j k ps,
      settle_bills_grow new_pk k j (open_bills k ps bs) w (find_advances_kinds k ps),
    )

apply_advances_within :
    (new_pk : ℕ → ℕ) (k : ℕ) (bs : List SupplierInvoice) (ps : List SupplierPayment)
    → (b : SupplierInvoice) → AllKeyed b.pk b.amount bs
    → paid_on b.pk ps ≤ℤ b.amount
    → paid_on b.pk (apply_advances new_pk k bs ps) ≤ℤ b.amount
apply_advances_within new_pk k bs ps b keyed p =
    let w = find_advances k ps in
    let bills = open_bills k ps bs in
    ground (
      arith,
      apply_advances_rows new_pk k bs ps b.pk,
      paid_on-find b.pk k ps,
      settle_bills_within new_pk k b.pk b.amount bills w (find_advances_kinds k ps)
          (open_bills-All k ps b.pk b.amount bs keyed),
    )

pub apply_advances-total :
    (new_pk : ℕ → ℕ) (k : ℕ) (bs : List SupplierInvoice) (ps : List SupplierPayment) (x : ℕ)
    → paid_to x (apply_advances new_pk k bs ps) ≡ paid_to x ps
unfolding apply_advances
apply_advances-total new_pk k bs ps x =
    settle_bills-total new_pk k x (open_bills k ps bs) (find_advances k ps)
      (find_advances_kinds k ps)
    ∙ paid_to-find x k ps

apply_advances_complete :
    (new_pk : ℕ → ℕ) (k : ℕ) (bs : List SupplierInvoice) (ps : List SupplierPayment)
    → let ps' = apply_advances new_pk k bs ps in
      ((j : ℕ) → paid_on j ps ≤ℤ paid_on j ps')
      → ((find_advances k ps').advances ≡ [])
        ⊎ All (λ b. b.supplier ≡ k → b.amount ≤ℤ paid_on b.pk ps') bs
unfolding apply_advances
apply_advances_complete new_pk k bs ps grow =
    let w = find_advances k ps in
    let bills = open_bills k ps bs in
    let w' = settle_bills new_pk k bills w in
    let s = settle_bills-Settled new_pk k bills w (find_advances_kinds k ps) in
    let rows = apply_advances_rows new_pk k bs ps in
    elim (settle_bills_complete new_pk k bills w (find_advances_kinds k ps)) [
      | inl e ↦ inl (
          find_advances-none k (w'.rows ++ w'.advances)
            (All-append _ w'.rows w'.advances s.0 (rw e tt)))
      | inr h ↦ inr (
          open_bills_cover k ps (w'.rows ++ w'.advances) bs grow
            (All-map _ _ bills (λ c m. ground (arith, rows c.pk)) h))
    ]

open_bills-none :
    (k : ℕ) (ps : List SupplierPayment) (bs : List SupplierInvoice)
    → All (λ b. b.supplier ≡ k → b.amount ≤ℤ paid_on b.pk ps) bs
    → open_bills k ps bs ≡ []
unfolding open_bills bill_outstanding
open_bills-none k ps [] h = refl
open_bills-none k ps (b ∷ bs) h =
    ground (arith, open_bills-none k ps bs h.1, -ℤ_parts b.amount (paid_on b.pk ps))

-- The money paid ahead to a supplier settles its bills: what is owed to any supplier stays the
-- same; a bill that is not overpaid, whose key names no bill of another amount, loses no payment
-- and is still not overpaid; and afterwards either no advance is left or no bill of the supplier
-- is open.
pub apply_advances_effect :
    (new_pk : ℕ → ℕ) (k : ℕ) (bs : List SupplierInvoice) (ps : List SupplierPayment)
    → (b : SupplierInvoice) → AllKeyed b.pk b.amount bs
    → pos 0 ≤ℤ bill_outstanding b ps
    → let ps' = apply_advances new_pk k bs ps in
      ((x : ℕ) → supplier_balance x bs ps' ≡ supplier_balance x bs ps)
      × (bill_outstanding b ps' ≤ℤ bill_outstanding b ps)
      × (pos 0 ≤ℤ bill_outstanding b ps')
      × (((find_advances k ps').advances ≡ []) ⊎ (open_bills k ps' bs ≡ []))
unfolding supplier_balance bill_outstanding
apply_advances_effect new_pk k bs ps b keyed p =
    let ps' = apply_advances new_pk k bs ps in
    let grow = apply_advances_grow new_pk k bs ps in
    let u = -ℤ_parts b.amount (paid_on b.pk ps) in
    let v = -ℤ_parts b.amount (paid_on b.pk ps') in
    (
      λ x. rw (apply_advances-total new_pk k bs ps x) refl,
      omega (arith, u, v, grow b.pk),
      omega (arith, v, apply_advances_within new_pk k bs ps b keyed (omega (arith, u, p))),
      elim (apply_advances_complete new_pk k bs ps grow) [
        | inl e ↦ inl e
        | inr h ↦ inr (open_bills-none k ps' bs h)
      ],
    )
