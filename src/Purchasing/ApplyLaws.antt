-- ===== src/Purchasing/ApplyLaws.antt =====
-- The loop over the open bills.
use retail_system.Prelude.{
  ℕ, ◌≡◌, refl, ◌∙◌, ◌⊎◌, inl, inr, List, [], ◌∷◌, ◌++◌, arith, ℤ, ◌≤ℤ◌, All,
}
use retail_system.Purchasing.Bills.{
  SupplierInvoice, paid_on, paid_to, Advances, settle_bill, settle_bills,
}
use retail_system.Purchasing.SettlingLaws.{
  Settled, settle_one, settle_one-Settled, settle_one-total, settle_one-paid,
}

-- Every bill of that key has that amount: a key names one bill.
abbrev pub AllKeyed : ℕ → ℤ → List SupplierInvoice → Type 0
AllKeyed j amount = All λ c. c.pk ≡ j → c.amount ≡ amount

module _ (new_pk : ℕ → ℕ) (k : ℕ) where
  pub settle_bills-Settled :
      (bs : List SupplierInvoice) (w : Advances)
      → Settled k w
      → Settled k (settle_bills new_pk k bs w)
  unfolding settle_bills
  settle_bills-Settled [] w h = h
  settle_bills-Settled (b ∷ bs) w h =
      settle_bills-Settled bs (settle_one new_pk k b w) (settle_one-Settled new_pk k b w h)

  pub settle_bills-total :
      (x : ℕ) (bs : List SupplierInvoice) (w : Advances)
      → Settled k w
      → let w' = settle_bills new_pk k bs w in
        paid_to x (w'.rows ++ w'.advances) ≡ paid_to x (w.rows ++ w.advances)
  unfolding settle_bills
  settle_bills-total x [] w h = refl
  settle_bills-total x (b ∷ bs) w h =
      settle_bills-total x bs (settle_one new_pk k b w) (settle_one-Settled new_pk k b w h)
      ∙ settle_one-total new_pk k x b w h

  pub settle_bills_grow :
      (j : ℕ) (bs : List SupplierInvoice) (w : Advances)
      → Settled k w
      → paid_on j w.rows ≤ℤ paid_on j (settle_bills new_pk k bs w).rows
  unfolding settle_bills
  settle_bills_grow j [] w h = omega arith
  settle_bills_grow j (b ∷ bs) w h =
      let w' = settle_one new_pk k b w in
      let one = (settle_one-paid new_pk k j b w h).0 in
      let rest = settle_bills_grow j bs w' (settle_one-Settled new_pk k b w h) in
      omega (arith, one, rest)

  pub settle_bills_within :
      (j : ℕ) (amount : ℤ) (bs : List SupplierInvoice) (w : Advances)
      → Settled k w
      → AllKeyed j amount bs
      → paid_on j w.rows ≤ℤ amount
      → paid_on j (settle_bills new_pk k bs w).rows ≤ℤ amount
  unfolding settle_bills
  settle_bills_within j amount [] w h keyed p = p
  settle_bills_within j amount (b ∷ bs) w h keyed p =
      let w' = settle_one new_pk k b w in
      let one = settle_one-paid new_pk k j b w h in
      settle_bills_within j amount bs w' (settle_one-Settled new_pk k b w h) keyed.1
        (ground (arith, one, keyed.0))

  pub settle_bills_spent :
      (bs : List SupplierInvoice) (w : Advances)
      → w.advances ≡ []
      → (settle_bills new_pk k bs w).advances ≡ []
  unfolding settle_bills settle_bill
  settle_bills_spent [] w e = e
  settle_bills_spent (b ∷ bs) w e = settle_bills_spent bs (settle_one new_pk k b w) (rw e refl)

  pub settle_bills_complete :
      (bs : List SupplierInvoice) (w : Advances)
      → Settled k w
      → let w' = settle_bills new_pk k bs w in
        (w'.advances ≡ []) ⊎ All (λ c. c.amount ≤ℤ paid_on c.pk w'.rows) bs
  unfolding settle_bills
  settle_bills_complete [] w h = inr tt
  settle_bills_complete (b ∷ bs) w h =
      let w' = settle_one new_pk k b w in
      let s = settle_one-Settled new_pk k b w h in
      let one = settle_one-paid new_pk k b.pk b w h in
      let grow = settle_bills_grow b.pk bs w' s in
      elim one.3 [
        | inl e ↦ inl (settle_bills_spent bs w' e)
        | inr e ↦ elim (settle_bills_complete bs w' s) [
          | inl f ↦ inl f
          | inr f ↦ inr (omega (arith, e, grow), f)
        ]
      ]
