-- ===== src/Purchasing/AdvanceLaws.antt =====
-- What settling bills out of advances does to the balance of the supplier and to each bill.
use retail_system.Prelude.{
  ℕ, ◌≡◌, refl, Bool, true, false, List, [], ◌∷◌, ◌++◌, arith, ℤ, pos, ◌+ℤ◌, ◌<ℤ◌, int_laws,
  +ℤ_assoc, All,
}
use retail_system.Customers.Account.{is_some_of}
use retail_system.Purchasing.Bills.{
  SupplierPayment, total_of, paid_on, is_advance, insert_payment, find_advances,
}

abbrev pub AllAdvances : ℕ → List SupplierPayment → Type 0
AllAdvances k = All λ a. is_advance k a ≡ true

abbrev pub NoneAdvance : ℕ → List SupplierPayment → Type 0
NoneAdvance k = All λ a. is_advance k a ≡ false

pub total_of-append :
    (kept : SupplierPayment → Bool) (ps qs : List SupplierPayment)
    → total_of kept (ps ++ qs) ≡ total_of kept ps +ℤ total_of kept qs
unfolding total_of
total_of-append kept [] qs = omega int_laws
total_of-append kept (p ∷ ps) qs =
    ground
      (arith, total_of-append kept ps qs, +ℤ_assoc p.amount (total_of kept ps) (total_of kept qs))

swap : (a b c : ℤ) → a +ℤ (b +ℤ c) ≡ b +ℤ (a +ℤ c)
swap a b c = omega int_laws

total_of-insert :
    (kept : SupplierPayment → Bool) (p : SupplierPayment) (qs : List SupplierPayment)
    → total_of kept (insert_payment p qs) ≡ total_of kept (p ∷ qs)
unfolding total_of insert_payment
total_of-insert kept p [] = refl
total_of-insert kept p (q ∷ qs) =
    ground (arith, total_of-insert kept p qs, swap p.amount q.amount (total_of kept qs))

pub total_of-find :
    (kept : SupplierPayment → Bool) (k : ℕ) (ps : List SupplierPayment)
    → let w = find_advances k ps in
      total_of kept w.rows +ℤ total_of kept w.advances ≡ total_of kept ps
unfolding total_of find_advances
total_of-find kept k [] = omega int_laws
total_of-find kept k (p ∷ ps) =
    let w = find_advances k ps in
    ground (
      arith,
      total_of-find kept k ps,
      total_of-insert kept p w.advances,
      swap p.amount (total_of kept w.rows) (total_of kept w.advances),
      +ℤ_assoc p.amount (total_of kept w.rows) (total_of kept w.advances),
    )

All-insert_payment :
    (k : ℕ) (p : SupplierPayment) (qs : List SupplierPayment)
    → is_advance k p ≡ true
    → AllAdvances k qs
    → AllAdvances k (insert_payment p qs)
unfolding insert_payment
All-insert_payment k p [] h a = (h, tt)
All-insert_payment k p (q ∷ qs) h a = ground (arith, All-insert_payment k p qs h a.1)

pub find_advances_kinds :
    (k : ℕ) (ps : List SupplierPayment)
    → let w = find_advances k ps in NoneAdvance k w.rows × AllAdvances k w.advances
unfolding find_advances
find_advances_kinds k [] = (tt, tt)
find_advances_kinds k (p ∷ ps) =
    let w = find_advances k ps in
    ground (arith, find_advances_kinds k ps, All-insert_payment k p w.advances)

pub find_advances-none :
    (k : ℕ) (ps : List SupplierPayment) → NoneAdvance k ps → (find_advances k ps).advances ≡ []
unfolding find_advances
find_advances-none k [] a = refl
find_advances-none k (p ∷ ps) a = ground (arith, find_advances-none k ps a.1)

-- An advance is money of the supplier that stands for no bill.
pub is_advance_facts :
    (k : ℕ) (a : SupplierPayment)
    → is_advance k a ≡ true
    → (a.supplier ≡ k) × (pos 0 <ℤ a.amount) × ((j : ℕ) → is_some_of a.invoice j ≡ false)
unfolding is_advance
is_advance_facts k a h = (ground arith, ground arith, λ j. ground arith)

-- No advance is paid on a bill.
pub paid_on-advances :
    (k j : ℕ) (as' : List SupplierPayment) → AllAdvances k as' → paid_on j as' ≡ pos 0
unfolding paid_on total_of
paid_on-advances k j [] h = refl
paid_on-advances k j (a ∷ later) h =
    let (e, m, n) = is_advance_facts k a h.0 in rw (n j) (paid_on-advances k j later h.1)
