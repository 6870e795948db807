-- ===== src/Selling/CancelLaws.antt =====
-- What `cancel_delivery` of apps/selling/services.py does to what issuing sent.
use mathlib.Core.Path.{subst}
use retail_system.Prelude.{
  ℕ, ◌≡◌, refl, sym, ap, ◌∙◌, ◌⊎◌, inl, inr, true, some, List, [], ◌∷◌, arith, Bool-cases, ok,
  raise_if, >>=-eq-ok,
}
use retail_system.Inventory.Ledger.{IsConsistent}
use retail_system.Inventory.State.{quantity_of}
use retail_system.Selling.Cancelling.{live_notes, cancel_each}
use retail_system.Selling.Deliveries.{
  delivery_checkout, check_left, is_empty_note, deliver_for, deliver, full_note, send_everything,
  void_its_sale, cancel_found, cancel_delivery,
}
use retail_system.Selling.State.{
  Invoice, DeliveryNote, Office, already_cancelled, nothing_on_note, lift_till, find_invoice,
  find_note, save_note,
}
use retail_system.Till.Checkout.{Checkout, handle_credit, new_sale, write_sale, complete_sale}
use retail_system.Till.Reversal.{IsFresh, reverse_nothing}
use retail_system.Till.State.{Sale, Till, find_sale}
use retail_system.Till.Void.{void_found, void_sale}
use retail_system.Till.VoidLaws.{void_found_effect, write_sale_parts, void_undoes_sale}

-- Goods against an invoice leave the account alone.
write_sale-account :
    (c : Checkout) (t t' : Till) (sale : Sale) (invoice : ℕ)
    → c.invoice ≡ some invoice
    → write_sale c t ≡ ok (sale, t')
    → (t'.account ≡ t.account) × (t'.sales ≡ sale ∷ t.sales) × (sale.number ≡ c.number)
unfolding handle_credit new_sale
write_sale-account c t t' sale invoice e h =
    let (lines, stock, written, made, stocked, listed, account) = write_sale_parts c t t' sale h in
    ground arith

void_sale-account :
    (sale : Sale) (t t' : Till) (before : List Sale)
    → t.sales ≡ sale ∷ before
    → IsFresh sale.number t.account
    → void_sale sale.number true t ≡ ok t'
    → t'.account ≡ t.account
unfolding void_sale find_sale
void_sale-account sale t t' before e f h =
    let found : void_found sale true t ≡ ok t' = ground arith in
    ground (arith, void_found_effect sale true t t' 0 0 found, reverse_nothing sale t.account f)

-- What a delivery and its cancelling leave behind together: nothing.
abbrev pub SameTill : Till → Till → Type 0
SameTill t t' =
    ((b v : ℕ) → quantity_of b v t'.stock.items ≡ quantity_of b v t.stock.items)
    × IsConsistent t'.stock
    × (t'.account ≡ t.account)

undelivered :
    (i : Invoice) (n : DeliveryNote) (number : ℕ) (t t' t'' : Till) (sale : Sale)
    → IsConsistent t.stock
    → IsFresh number t.account
    → complete_sale (delivery_checkout i n number) t ≡ ok (sale, t')
    → void_sale sale.number true t' ≡ ok t''
    → SameTill t t''
unfolding complete_sale delivery_checkout
undelivered i n number t t' t'' sale k f h e =
    let c = delivery_checkout i n number in
    let w : write_sale c t ≡ ok (sale, t') = ground arith in
    let (account, sales, numbered) = write_sale-account c t t' sale i.pk refl w in
    let e' : void_sale number true t' ≡ ok t'' =
      subst (λ x. void_sale x true t' ≡ ok t'') numbered e in
    let undone = void_undoes_sale c t t' t'' sale true true k f refl h e' in
    let f' : IsFresh sale.number t'.account =
      subst (λ ts. IsFresh sale.number ts) (sym account)
        (subst (λ x. IsFresh x t.account) (sym numbered) f) in
    (undone.0, undone.2, void_sale-account sale t' t'' t.sales sales f' e ∙ account)

-- What issuing sent, if anything: the sale that it made, and the note that points at it.
abbrev pub Sent : Invoice → ℕ → ℕ → Office → Office → Type 0
Sent i pk number o o' =
    (o' ≡ o)
    ⊎ ((sale : Sale) × (till : Till) × (complete_sale
            (delivery_checkout i (full_note i pk o.notes) number) o.till
          ≡ ok (sale, till))
        × (o' ≡ record o {
          till = till;
          notes = record (full_note i pk o.notes) { sale = some sale.number } ∷ o.notes;
        }))

save_note-head :
    (m n : DeliveryNote) (ns : List DeliveryNote) → m.pk ≡ n.pk → save_note m (n ∷ ns) ≡ m ∷ ns
unfolding save_note
save_note-head m n ns h = ground arith

deliver_for-parts :
    (i : Invoice) (n : DeliveryNote) (number : ℕ) (o o' : Office)
    → deliver_for i n number o ≡ ok o'
    → (sale : Sale) × (till : Till) × (complete_sale (delivery_checkout i n number) o.till
        ≡ ok (sale, till))
      × (o' ≡ record o {
        till = till;
        notes = save_note (record n { sale = some sale.number }) o.notes;
      })
unfolding deliver_for
deliver_for-parts i n number o o' h =
    let (u, g, h₁) = >>=-eq-ok (raise_if (is_empty_note n.lines) nothing_on_note) _ h in
    let (u', g', h₂) = >>=-eq-ok (check_left o.notes n.lines) _ h₁ in
    let (p, e, h₃) =
      >>=-eq-ok (lift_till (complete_sale (delivery_checkout i n number) o.till)) _ h₂ in
    (p.0, p.1, ground arith, ground arith)

pub send_everything-Sent :
    (i : Invoice) (pk number : ℕ) (o o' : Office)
    → find_invoice i.pk o.invoices ≡ some i
    → send_everything i pk number o ≡ ok o'
    → Sent i pk number o o'
unfolding send_everything deliver
send_everything-Sent i pk number o o' f h =
    elim (Bool-cases (is_empty_note (full_note i pk o.notes).lines)) [
      | inl e ↦ inl (ground arith)
      | inr e ↦
          let n = full_note i pk o.notes in
          let out : deliver_for i n number (record o { notes = n ∷ o.notes }) ≡ ok o' =
            ground arith in
          let (sale, till, made, after) =
            deliver_for-parts i n number (record o { notes = n ∷ o.notes }) o' out in
          let m = record n { sale = some sale.number } in
          inr (
            sale,
            till,
            made,
            after
                ∙ ap (λ ns. record o { till = till; notes = ns }) (save_note-head m n o.notes refl),
          )
    ]

-- Cancelling what was sent.
cancel_each-nil :
    (ns : List DeliveryNote) (o o' : Office) → ns ≡ [] → cancel_each ns o ≡ ok o' → o' ≡ o
unfolding cancel_each
cancel_each-nil [] o o' e h = cc
cancel_each-nil (n ∷ ns) o o' e h = cc

live_notes-sent :
    (i : Invoice) (pk number : ℕ) (o : Office)
    → live_notes i.pk o.notes ≡ []
    → let m = record (full_note i pk o.notes) { sale = some number } in
      live_notes i.pk (m ∷ o.notes) ≡ m ∷ []
unfolding live_notes full_note
live_notes-sent i pk number o l = ground arith

cancel_one :
    (n : DeliveryNote) (number : ℕ) (o o' : Office) (ns : List DeliveryNote)
    → o.notes ≡ n ∷ ns
    → n.sale ≡ some number
    → cancel_each (n ∷ []) o ≡ ok o'
    → (void_sale number true o.till ≡ ok o'.till) × (o'.invoices ≡ o.invoices)
unfolding cancel_each cancel_delivery cancel_found find_note void_its_sale
cancel_one n number o o' ns e s h =
    let (p, c, h₁) = >>=-eq-ok (cancel_delivery n.pk o) _ h in
    let found : cancel_found n o ≡ ok o' = ground arith in
    let (u, g, h₂) = >>=-eq-ok (raise_if n.voided already_cancelled) _ found in
    let (q, w, h₃) = >>=-eq-ok (lift_till (void_its_sale n.sale o.till)) _ h₂ in
    let till : o'.till ≡ q = ground arith in
    let voided : void_sale number true o.till ≡ ok q = ground arith in
    (rw till voided, ground arith)

pub cancel_each-undoes :
    (i : Invoice) (pk number : ℕ) (o o' o'' : Office)
    → IsConsistent o.till.stock
    → IsFresh number o.till.account
    → live_notes i.pk o.notes ≡ []
    → Sent i pk number o o'
    → cancel_each (live_notes i.pk o'.notes) o' ≡ ok o''
    → SameTill o.till o''.till × (o''.invoices ≡ o.invoices)
cancel_each-undoes i pk number o o' o'' k f l s h = elim s [
  | inl e ↦
      let same =
        cancel_each-nil (live_notes i.pk o'.notes) o' o'' (ap (λ x. live_notes i.pk x.notes) e ∙ l)
          h in
      rw (same ∙ e) ((λ b v. refl, k, refl), refl)
  | inr (sale, till, made, after) ↦
      let m = record (full_note i pk o.notes) { sale = some sale.number } in
      let live = ap (λ x. live_notes i.pk x.notes) after ∙ live_notes-sent i pk sale.number o l in
      let back =
        cancel_one m sale.number o' o'' o.notes (ap (λ x. x.notes) after) refl
          (subst (λ ns. cancel_each ns o' ≡ ok o'') live h) in
      let void =
        subst (λ t. void_sale sale.number true t ≡ ok o''.till) (ap (λ x. x.till) after) back.0 in
      (
        undelivered i (full_note i pk o.notes) number o.till till o''.till sale k f made void,
        back.1 ∙ ap (λ x. x.invoices) after,
      )
]
