-- ===== src/Inventory/Batches.antt =====
-- `pick_batch` and `expiring_soon` of apps/inventory/services.py: first expiry, first out. A batch
-- stands with its quantity at the branch, the sum of its movements there; `none` is a batch with no
-- movement there, whose sum is null and meets no bound.
use mathlib.Core.Path.{subst}
use retail_system.Prelude.{
  ℕ, ◌+◌, ◌≡◌, refl, ap, inl, inr, Bool, true, false, ◌&&◌, Option, none, some, List, [], ◌∷◌,
  arith, ltb, leb, ◌==◌, if◌then◌else◌, Bool-cases, ℤ, pos, ◌+ℤ◌, ltb_ℤ, leb_ℤ, All,
}
use retail_system.Inventory.State.{StockMovement}

pub record Batch : Type 0 where
  pub pk : ℕ
  pub variant : ℕ
  pub expiry_date : Option ℕ
  pub on_hand : Option ℤ

-- `on_hand__gte=qty`
unfoldable pub covers : ℤ → Batch → Bool
covers qty b = elim b.on_hand [ none ↦ false | some q ↦ leb_ℤ qty q ]

-- `order_by(F("expiry_date").asc(nulls_last=True))`, as far as `first()` sees it.
unfoldable pub expires_before : Option ℕ → Option ℕ → Bool
expires_before none e = false
expires_before (some a) none = true
expires_before (some a) (some b) = ltb a b

unfoldable pub earlier : Batch → Option Batch → Option Batch
unfolding expires_before
earlier b none = some b
earlier b (some c) = some (if expires_before c.expiry_date b.expiry_date then c else b)

unfoldable pub is_candidate : ℕ → ℤ → Batch → Bool
unfolding covers
is_candidate v qty b = v == b.variant && covers qty b

unfoldable pub pick_batch : ℕ → ℤ → List Batch → Option Batch
unfolding is_candidate earlier
pick_batch v qty [] = none
pick_batch v qty (b ∷ bs) =
    let rest = pick_batch v qty bs in if is_candidate v qty b then earlier b rest else rest

-- The batch that a sale draws on.
abbrev pub IsFirstOut : ℕ → ℤ → List Batch → Option Batch → Type 0
IsFirstOut v qty bs none = All (λ b. is_candidate v qty b ≡ false) bs
IsFirstOut v qty bs (some c) =
    (is_candidate v qty c ≡ true)
    × All (λ b. is_candidate v qty b ≡ true → expires_before b.expiry_date c.expiry_date ≡ false) bs

All-weaken :
    (v : ℕ) (qty : ℤ) (b c : Batch) (bs : List Batch)
    → expires_before c.expiry_date b.expiry_date ≡ false
    → All (λ x. is_candidate v qty x ≡ true → expires_before x.expiry_date c.expiry_date ≡ false) bs
    → All (λ x. is_candidate v qty x ≡ true → expires_before x.expiry_date b.expiry_date ≡ false) bs
unfolding expires_before
All-weaken v qty b c [] h a = tt
All-weaken v qty b c (x ∷ xs) h a = (λ k. ground (arith, a.0 k), All-weaken v qty b c xs h a.1)

All-none :
    (v : ℕ) (qty : ℤ) (b : Batch) (bs : List Batch)
    → All (λ x. is_candidate v qty x ≡ false) bs
    → All (λ x. is_candidate v qty x ≡ true → expires_before x.expiry_date b.expiry_date ≡ false) bs
All-none v qty b [] a = tt
All-none v qty b (x ∷ xs) a = (λ k. cc (a.0), All-none v qty b xs a.1)

-- A later batch is not the earlier of the two.
earlier_lem :
    (a b : Option ℕ) (c : Bool)
    → expires_before a b ≡ c
    → (expires_before a a ≡ false) × (c ≡ true → expires_before b a ≡ false)
unfolding expires_before
earlier_lem none b c h = ground arith
earlier_lem (some a) none c h = ground arith
earlier_lem (some a) (some b) c h = ground arith

pick_step :
    (v : ℕ) (qty : ℤ) (b : Batch) (bs : List Batch) (r : Option Batch)
    → is_candidate v qty b ≡ true
    → IsFirstOut v qty bs r
    → IsFirstOut v qty (b ∷ bs) (earlier b r)
unfolding earlier
pick_step v qty b bs none k f =
    (k, ((λ _. (earlier_lem b.expiry_date none _ refl).0), All-none v qty b bs f))
pick_step v qty b bs (some c) k f = elim (Bool-cases (expires_before c.expiry_date b.expiry_date)) [
  | inl e ↦
      subst (IsFirstOut v qty (b ∷ bs)) (ap some (rw e))
        (f.0, ((λ _. (earlier_lem c.expiry_date b.expiry_date true e).1 refl), f.1))
  | inr e ↦
      subst (IsFirstOut v qty (b ∷ bs)) (ap some (rw e))
        (k, ((λ _. (earlier_lem b.expiry_date none _ refl).0), All-weaken v qty b c bs e f.1))
]

pass_over :
    (v : ℕ) (qty : ℤ) (b : Batch) (bs : List Batch) (r : Option Batch)
    → is_candidate v qty b ≡ false
    → IsFirstOut v qty bs r
    → IsFirstOut v qty (b ∷ bs) r
pass_over v qty b bs none k f = (k, f)
pass_over v qty b bs (some c) k f = (f.0, ((λ e. cc), f.1))

-- A sale draws on a batch of its product with enough at the branch, and on none that another such
-- batch expires before; with no such batch it draws on none.
pub pick_batch-IsFirstOut :
    (v : ℕ) (qty : ℤ) (bs : List Batch) → IsFirstOut v qty bs (pick_batch v qty bs)
unfolding pick_batch
pick_batch-IsFirstOut v qty [] = tt
pick_batch-IsFirstOut v qty (b ∷ bs) = elim (Bool-cases (is_candidate v qty b)) [
  | inl e ↦ rw e (pick_step v qty b bs (pick_batch v qty bs) e (pick_batch-IsFirstOut v qty bs))
  | inr e ↦ rw e (pass_over v qty b bs (pick_batch v qty bs) e (pick_batch-IsFirstOut v qty bs))
]

unfoldable pub expires_by : ℕ → Batch → Bool
expires_by cutoff b = elim b.expiry_date [ none ↦ false | some e ↦ leb e cutoff ]

unfoldable pub is_in_stock : Batch → Bool
is_in_stock b = elim b.on_hand [ none ↦ false | some q ↦ ltb_ℤ (pos 0) q ]

-- `expiring_soon`, but for the order of what it lists.
unfoldable pub expiring_soon : ℕ → ℕ → List Batch → List Batch
unfolding expires_by is_in_stock
expiring_soon today days [] = []
expiring_soon today days (b ∷ bs) =
    let rest = expiring_soon today days bs in
    if expires_by (today + days) b && is_in_stock b then b ∷ rest else rest

-- A row of the `Batch` table; `annotate(on_hand=Sum(…))` adds up its movements at the branch.
pub record BatchRow : Type 0 where
  pub pk : ℕ
  pub variant : ℕ
  pub expiry_date : Option ℕ

unfoldable pub batch_sum : ℕ → ℕ → List StockMovement → Option ℤ
batch_sum branch pk [] = none
batch_sum branch pk (m ∷ ms) =
    let rest = batch_sum branch pk ms in
    elim m.batch [
      | none ↦ rest
      | some k ↦
          if k == pk && branch == m.branch
          then some (elim rest [ none ↦ m.qty_delta | some q ↦ m.qty_delta +ℤ q ])
          else rest
    ]

unfoldable pub annotate : ℕ → List StockMovement → List BatchRow → List Batch
unfolding batch_sum
annotate branch ms [] = []
annotate branch ms (r ∷ rs) =
    record {
      pk = r.pk;
      variant = r.variant;
      expiry_date = r.expiry_date;
      on_hand = batch_sum branch r.pk ms;
    }
    ∷ annotate branch ms rs
