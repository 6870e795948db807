-- ===== src/Selling/DeliveryLaws.antt =====
-- What sending goods does to the stock and the accounts.
use retail_system.Prelude.{
  ℕ, ◌≡◌, refl, ap, ◌∙◌, inl, inr, true, none, some, List, [], ◌∷◌, arith, Bool-cases, ℤ, pos, ◌+ℤ◌,
  ◌-ℤ◌, +ℤ_zero, -ℤ_zero_right, ok, raise_if, >>=-eq-ok,
}
use retail_system.Customers.Account.{balance}
use retail_system.Inventory.Ledger.{IsConsistent}
use retail_system.Inventory.State.{Stock, quantity_of}
use retail_system.Inventory.Transit.{at_branch}
use retail_system.Selling.Deliveries.{
  delivery_cart, delivery_checkout, check_left, is_empty_note, deliver_for, deliver, wanted_rows,
  full_note, send_everything,
}
use retail_system.Selling.Documents.{Document}
use retail_system.Selling.State.{
  Invoice, DeliveryLine, DeliveryNote, Office, nothing_on_note, lift_till, find_invoice,
}
use retail_system.Till.Checkout.{already_stored, complete_sale}
use retail_system.Till.CheckoutLaws.{credit_charged, complete_sale_effect}
use retail_system.Till.Sold.{sold}
use retail_system.Till.State.{Till}

-- The quantities that go out, of one product.
unfoldable pub goods_of : Stock → ℕ → Document → List DeliveryLine → ℤ
goods_of s v d rs = sold s v (delivery_cart d rs)

-- What a delivery leaves behind: its goods are out of the stock of its branch, and no account, no
-- invoice and no rule has changed.
abbrev pub WentOut : Office → Office → ℕ → (ℕ → ℤ) → Type 0
WentOut o o' branch out =
    ((b v : ℕ)
      → quantity_of b v o'.till.stock.items
        ≡ quantity_of b v o.till.stock.items -ℤ at_branch b branch (out v))
    × IsConsistent o'.till.stock
    × ((customer : ℕ) → balance customer o'.till.account ≡ balance customer o.till.account)
    × (o'.invoices ≡ o.invoices)

delivery-already_stored :
    (i : Invoice) (n : DeliveryNote) (number : ℕ) (t : Till)
    → already_stored (delivery_checkout i n number) t ≡ none
unfolding already_stored delivery_checkout
delivery-already_stored i n number t = refl

-- The invoice charged its customer when it was issued.
delivery-credit_charged :
    (i : Invoice) (n : DeliveryNote) (number customer : ℕ)
    → credit_charged (delivery_checkout i n number) customer ≡ pos 0
unfolding credit_charged delivery_checkout
delivery-credit_charged i n number customer = ground arith

delivery-sold :
    (i : Invoice) (n : DeliveryNote) (number : ℕ) (s : Stock) (b v : ℕ)
    → let c = delivery_checkout i n number in
      at_branch b c.branch (sold s v c.lines) ≡ at_branch b n.branch (goods_of s v i.doc n.lines)
unfolding goods_of delivery_checkout
delivery-sold i n number s b v = refl

deliver_for-WentOut :
    (i : Invoice) (n : DeliveryNote) (number : ℕ) (o o' : Office)
    → IsConsistent o.till.stock
    → deliver_for i n number o ≡ ok o'
    → WentOut o o' n.branch (λ v. goods_of o.till.stock v i.doc n.lines)
unfolding deliver_for goods_of
deliver_for-WentOut i n number o o' k h =
    let (u, g, h₁) = >>=-eq-ok (raise_if (is_empty_note n.lines) nothing_on_note) _ h in
    let (u', g', h₂) = >>=-eq-ok (check_left o.notes n.lines) _ h₁ in
    let (p, e, h₃) =
      >>=-eq-ok (lift_till (complete_sale (delivery_checkout i n number) o.till)) _ h₂ in
    let c = delivery_checkout i n number in
    let made : complete_sale c o.till ≡ ok (p.0, p.1) = ground arith in
    let effect =
      complete_sale_effect c o.till p.1 p.0 k (delivery-already_stored i n number o.till) made in
    let till : o'.till ≡ p.1 = ground arith in
    let invoices : o'.invoices ≡ o.invoices = ground arith in
    rw till (
      λ b v.
          effect.0 b v
          ∙ ap (λ x. quantity_of b v o.till.stock.items -ℤ x)
              (delivery-sold i n number o.till.stock b v),
      effect.1,
      λ customer.
          effect.2 customer
          ∙ ap (λ x. balance customer o.till.account +ℤ x)
              (delivery-credit_charged i n number customer)
          ∙ +ℤ_zero (balance customer o.till.account),
      invoices,
    )

goods_of-nil : (s : Stock) (v : ℕ) (d : Document) → goods_of s v d [] ≡ pos 0
unfolding goods_of sold delivery_cart
goods_of-nil s v d = refl

nothing_out :
    (i : Invoice) (o o' : Office) (rs : List DeliveryLine)
    → is_empty_note rs ≡ true
    → IsConsistent o.till.stock
    → o' ≡ o
    → WentOut o o' i.branch (λ v. goods_of o.till.stock v i.doc rs)
unfolding goods_of
nothing_out i o o' [] e k h = rw h (
  λ b v. ground (
    arith,
    -ℤ_zero_right (quantity_of b v o.till.stock.items),
    goods_of-nil o.till.stock v i.doc,
  ),
  k,
  λ customer. refl,
  refl,
)
nothing_out i o o' (r ∷ rs) e k h = cc

pub send_everything-WentOut :
    (i : Invoice) (pk number : ℕ) (o o' : Office)
    → IsConsistent o.till.stock
    → find_invoice i.pk o.invoices ≡ some i
    → send_everything i pk number o ≡ ok o'
    → WentOut o o' i.branch (λ v. goods_of o.till.stock v i.doc (wanted_rows o.notes i.doc.lines))
unfolding send_everything full_note deliver goods_of
send_everything-WentOut i pk number o o' k f h =
    elim (Bool-cases (is_empty_note (wanted_rows o.notes i.doc.lines))) [
      | inl e ↦ nothing_out i o o' (wanted_rows o.notes i.doc.lines) e k (ground arith)
      | inr e ↦
          let n = full_note i pk o.notes in
          deliver_for-WentOut i n number (record o { notes = n ∷ o.notes }) o' k (ground arith)
    ]
