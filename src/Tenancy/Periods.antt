-- ===== src/Tenancy/Periods.antt =====
-- The periods of the invoices of apps/tenancy/billing.py that are not void, and rows that replace others.
use mathlib.Core.Path.{subst}
use retail_system.Prelude.{
  ◌<◌, ◌≡◌, ◌⊎◌, inl, inr, true, false, some, List, [], ◌∷◌, arith, ◌==◌, Bool-cases, All, All-map,
}
use retail_system.Tenancy.Billing.{is_covered}
use retail_system.Tenancy.State.{BillInvoice, is_bill_void, find_bill, save_bill}

-- Two invoices of which one is void, or whose periods have no day in common.
abbrev pub AreDisjoint : BillInvoice → BillInvoice → Type 0
AreDisjoint i j =
    (is_bill_void i.status ≡ true)
    ⊎ ((is_bill_void j.status ≡ true)
        ⊎ ((i.period_end < j.period_start) ⊎ (j.period_end < i.period_start)))

-- No two invoices that are not void cover a day.
abbrev pub NoOverlap : List BillInvoice → Type 0
NoOverlap [] = Unit
NoOverlap (i ∷ is) = All (AreDisjoint i) is × NoOverlap is

-- A row that replaces one of the same period, and is void where that was.
abbrev pub IsUpdate : BillInvoice → BillInvoice → Type 0
IsUpdate i j =
    (i.pk ≡ j.pk)
    × (i.period_start ≡ j.period_start)
    × (i.period_end ≡ j.period_end)
    × (is_bill_void j.status ≡ true → is_bill_void i.status ≡ true)

AreDisjoint-left : (i j k : BillInvoice) → IsUpdate i j → AreDisjoint j k → AreDisjoint i k
AreDisjoint-left i j k u a = ground (arith, u, a)

AreDisjoint-right : (i j k : BillInvoice) → IsUpdate i j → AreDisjoint k j → AreDisjoint k i
AreDisjoint-right i j k u a = ground (arith, u, a)

All-save_bill :
    (i j k : BillInvoice) (is : List BillInvoice)
    → find_bill i.pk is ≡ some j
    → IsUpdate i j
    → All (AreDisjoint k) is
    → All (AreDisjoint k) (save_bill i is)
unfolding save_bill find_bill
All-save_bill i j k [] f u a = tt
All-save_bill i j k (l ∷ ls) f u a = elim (Bool-cases (l.pk == i.pk)) [
  | inl e ↦
      let same : l ≡ j = ground (arith, f, e) in
      let here : (i.pk == l.pk) ≡ true = ground (arith, e) in
      rw here (AreDisjoint-right i j k u (subst (AreDisjoint k) same a.0), a.1)
  | inr e ↦
      let there : (i.pk == l.pk) ≡ false = ground (arith, e) in
      rw there (a.0, All-save_bill i j k ls (ground (arith, f, e)) u a.1)
]

pub NoOverlap-save_bill :
    (i j : BillInvoice) (is : List BillInvoice)
    → find_bill i.pk is ≡ some j
    → IsUpdate i j
    → NoOverlap is
    → NoOverlap (save_bill i is)
unfolding save_bill find_bill
NoOverlap-save_bill i j [] f u n = tt
NoOverlap-save_bill i j (l ∷ ls) f u n = elim (Bool-cases (l.pk == i.pk)) [
  | inl e ↦
      let same : l ≡ j = ground (arith, f, e) in
      let here : (i.pk == l.pk) ≡ true = ground (arith, e) in
      rw here (
        All-map (AreDisjoint l) (AreDisjoint i) ls
            (λ k a. AreDisjoint-left i j k u (subst (λ x. AreDisjoint x k) same a)) n.0,
        n.1,
      )
  | inr e ↦
      let there : (i.pk == l.pk) ≡ false = ground (arith, e) in
      let rest : find_bill i.pk ls ≡ some j = ground (arith, f, e) in
      rw there (All-save_bill i j l ls rest u n.0, NoOverlap-save_bill i j ls rest u n.1)
]

-- What the check for a clash leaves apart.
pub apart_of_covered :
    (i : BillInvoice) (is : List BillInvoice)
    → is_covered i.period_start i.period_end is ≡ false
    → All (AreDisjoint i) is
unfolding is_covered
apart_of_covered i [] h = tt
apart_of_covered i (j ∷ js) h = (ground arith, apart_of_covered i js (ground arith))
