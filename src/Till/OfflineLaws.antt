-- ===== src/Till/OfflineLaws.antt =====
-- A sale that a till sends, from the check to the books: about `_store_offline_sale` of
-- apps/sync/views.py.
use retail_system.Prelude.{
  ℕ, ◌+◌, ◌≤◌, ◌<◌, ◌≡◌, sym, ap, ◌∙◌, false, ◌&&◌, none, some, List, [], ◌∷◌, map, arith, pos,
  ◌+ℤ◌, ◌-ℤ◌, length, All, Result, err, ok, raise_if, >>=-eq-ok, ok-injective,
}
use retail_system.Access.State.{mem_key}
use retail_system.Catalogue.{Catalogue}
use retail_system.Customers.Account.{balance}
use retail_system.Inventory.Services.{accepted}
use retail_system.Inventory.State.{quantity_of}
use retail_system.Inventory.Transit.{at_branch}
use retail_system.Till.Acceptance.{SaleEntry, CheckedSale, ShopTables, check_sale}
use retail_system.Till.AmountLaws.{total-eq-line_totals}
use retail_system.Till.Checkout.{complete_sale}
use retail_system.Till.CheckoutLaws.{credit_charged, complete_sale-write}
use retail_system.Till.Filling.{
  cart_line, AreApart, IsOpenAtPrice, AreNew, fill_cart-apart, IsWhole, line_charges-totals,
}
use retail_system.Till.Offline.{
  Place, uuid_used_elsewhere, lift_checkout, checkout_of, named_lines, mark_sold, store_new_sale,
  store_offline_sale,
}
use retail_system.Till.SaleLaws.{check_sale_lem}
use retail_system.Till.SaleSteps.{check_sale-uuid}
use retail_system.Till.Sold.{sold}
use retail_system.Till.State.{Sale, Till, TillError, find_uuid}
use retail_system.Till.Tender.{paid_of, slack}
use retail_system.Till.Validation.{CheckedLine, Cashier, PhoneLine, vouches}

lift_checkout-ok {ℓ} :
    {A : Type ℓ} (r : Result TillError A) {a : A} → lift_checkout r ≡ ok a → r ≡ ok a
lift_checkout-ok (ok b) h = cc
lift_checkout-ok (err e) h = cc

none_in : (f : ℕ) (c : Catalogue) (ls : List CheckedLine) → AreNew f c [] ls
none_in f c [] = tt
none_in f c (l ∷ ls) = (tt, none_in f c ls)

vouches-mark_sold :
    (f : ℕ) (ids : List ℕ) (ps : List PhoneLine) (k price qty : ℕ)
    → (mem_key k ids && vouches f (mark_sold ids ps) (some k) price qty) ≡ false
unfolding mark_sold vouches
vouches-mark_sold f ids [] k price qty = ground arith
vouches-mark_sold f ids (p ∷ ps) k price qty =
    ground (arith, vouches-mark_sold f ids ps k price qty)

-- The basket of an accepted sale whose lines stand apart.
store_new_sale-checkout :
    (who : Cashier) (s : ShopTables) (p : Place) (entry : SaleEntry) (k : CheckedSale) (t t' : Till)
    (sale : Sale) (phone : List PhoneLine)
    → check_sale who s t.account entry ≡ ok k
    → AreApart entry.parts s.catalogue k.lines
    → store_new_sale who s p entry t ≡ ok (sale, t', phone)
    → (complete_sale (checkout_of p k (map (cart_line entry.parts s.catalogue) k.lines)) t
        ≡ ok (sale, t'))
      × (mark_sold (named_lines entry.lines) s.phone_lines ≡ phone)
unfolding store_new_sale
store_new_sale-checkout who s p entry k t t' sale phone e a h =
    let (u, g, h₁) =
      >>=-eq-ok (raise_if (p.used_elsewhere entry.client_uuid) uuid_used_elsewhere) _ h in
    let filled =
      fill_cart-apart entry.parts s.catalogue p.cart_list k.lines [] a
        (none_in entry.parts s.catalogue k.lines) in
    let c = checkout_of p k (map (cart_line entry.parts s.catalogue) k.lines) in
    let (x, done, h₂) = >>=-eq-ok (lift_checkout (complete_sale c t)) _ (rw (e, filled) at h₁) in
    let same = ok-injective h₂ in
    (lift_checkout-ok _ done ∙ ap (λ z. ok (z.0, z.1)) same, ap (λ z. z.2) same)

-- Where quantities come in whole thousandths and prices and discounts in whole cents, the sale that
-- is written is the one that was checked: its total, to the cent, is the one against which the
-- payments were held, and so what the shop keeps of them is the total of the sale but for half a
-- unit a line. Its goods come out of the stock of the branch alone, what is on account is charged
-- to the customer alone, and a basket line that the till named cannot vouch for an open item again.
-- No two lines of it are alike, nothing is taken off one that has no product, and it has not been
-- stored before.
pub store_offline_sale_effect :
    (who : Cashier) (s : ShopTables) (p : Place) (entry : SaleEntry) (k : CheckedSale) (t t' : Till)
    (sale : Sale) (phone : List PhoneLine)
    → check_sale who s t.account entry ≡ ok k
    → AreApart entry.parts s.catalogue k.lines
    → All IsOpenAtPrice k.lines
    → 0 < entry.parts
    → All (IsWhole entry.parts) k.lines
    → find_uuid entry.client_uuid t.sales ≡ none
    → store_offline_sale who s p entry t ≡ ok (sale, t', phone)
    → let c = checkout_of p k (map (cart_line entry.parts s.catalogue) k.lines) in
      (sale.total ≡ pos k.total)
      × (k.total ≤ paid_of sale.payments + slack (length k.lines))
      × (paid_of sale.payments ≤ k.total + slack (length k.lines))
      × ((b v : ℕ)
          → quantity_of b v t'.stock.items
            ≡ quantity_of b v t.stock.items -ℤ at_branch b p.branch (sold t.stock v c.lines))
      × ((customer : ℕ)
          → balance customer t'.account ≡ balance customer t.account +ℤ credit_charged c customer)
      × ((line price qty : ℕ)
          → (mem_key line (named_lines entry.lines)
              && vouches entry.parts phone (some line) price qty)
            ≡ false)
unfolding store_offline_sale
store_offline_sale_effect who s p entry k t t' sale phone e a o z w n h =
    let c = checkout_of p k (map (cart_line entry.parts s.catalogue) k.lines) in
    let (done, marked) =
      store_new_sale-checkout who s p entry k t t' sale phone e a (ground arith) in
    let (some_, accepted, sum, low, high, granted, timely) =
      check_sale_lem who s t.account entry k e in
    let (covered, charges) =
      line_charges-totals entry.parts s.catalogue who k.lines z accepted o w in
    let fresh = rw (← check_sale-uuid who s t.account entry k e) at n in
    let effect = λ (b v customer : ℕ). complete_sale-write c t t' sale b v customer fresh done in
    let (_, _, _, _, _, total_, paid) = effect 0 0 0 in
    (
      total_ ∙ total-eq-line_totals c.lines covered ∙ charges ∙ ap pos (sym sum),
      rw paid low,
      rw paid high,
      λ b v. (effect b v 0).0,
      λ customer. (effect 0 0 customer).2,
      λ line price qty.
          rw marked at
            (vouches-mark_sold entry.parts (named_lines entry.lines) s.phone_lines line price qty),
    )
