-- ===== src/Config/Redaction/Memory.antt =====
-- Cells of one type, the last allocated last, with an address that is nil or a number.
use hyperfleet_sentinel.Base.{
  ℕ, zero, suc, ◌<◌, ◌≡◌, refl, Option, none, some, List, [], ◌∷◌, ◌++◌, length, arith, ◌∙◌,
}

abbrev pub Cells {ℓ} : Type ℓ → Type ℓ
Cells A = List A

abbrev pub Address : Type 0
Address = Option ℕ

module _ {A : Type 0} where
  get : Cells A → ℕ → Option A
  get [] i = none
  get (a ∷ cells) zero = some a
  get (a ∷ cells) (suc i) = get cells i

  put : Cells A → ℕ → A → Cells A
  put [] i v = []
  put (a ∷ cells) zero v = v ∷ cells
  put (a ∷ cells) (suc i) v = a ∷ put cells i v

  unfoldable pub load : Cells A → Address → Option A
  unfolding get
  load cells none = none
  load cells (some i) = get cells i

  unfoldable pub store : Cells A → Address → A → Cells A
  unfolding put
  store cells none v = cells
  store cells (some i) v = put cells i v

  -- An address that is nil, or of a cell.
  abbrev pub IsIn : Address → Cells A → Type 0
  IsIn none cells = Unit
  IsIn (some i) cells = i < length cells

  abbrev allocate : Address → Cells A → Option A → Address × Cells A
  allocate address cells none = (address, cells)
  allocate address cells (some a) = (some (length cells), cells ++ a ∷ [])

  -- A new cell with the content of an old one; nil stays nil.
  unfoldable pub copy_cell : Cells A → Address → Address × Cells A
  unfolding load
  copy_cell cells none = (none, cells)
  copy_cell cells (some i) = allocate (some i) cells (load cells (some i))

  get-in : (cells : Cells A) (i : ℕ) → i < length cells → (a : A) × (get cells i ≡ some a)
  unfolding get
  get-in [] i h = absurd (omega (arith, h))
  get-in (a ∷ cells) zero h = (a, refl)
  get-in (a ∷ cells) (suc i) h = get-in cells i (omega (arith, h))

  get-old :
      (cells : Cells A) (i : ℕ) (a : A) → i < length cells → get (cells ++ a ∷ []) i ≡ get cells i
  unfolding get
  get-old [] i a h = absurd (omega (arith, h))
  get-old (b ∷ cells) zero a h = refl
  get-old (b ∷ cells) (suc i) a h = get-old cells i a (omega (arith, h))

  get-new : (cells : Cells A) (a : A) → get (cells ++ a ∷ []) (length cells) ≡ some a
  unfolding get
  get-new [] a = refl
  get-new (b ∷ cells) a = get-new cells a

  -- A write to the new cell.
  put-new :
      (cells : Cells A) (i : ℕ) (a v : A)
      → i < length cells
      → get (put (cells ++ a ∷ []) (length cells) v) i ≡ get cells i
  unfolding get put
  put-new [] i a v h = absurd (omega (arith, h))
  put-new (b ∷ cells) zero a v h = refl
  put-new (b ∷ cells) (suc i) a v h = put-new cells i a v (omega (arith, h))

  -- The copy has the content of the original, which stays, also after a write to the copy.
  pub copy_cell_lem :
      (cells : Cells A) (address : Address)
      → IsIn address cells
      → let (copy, after) = copy_cell cells address in
        (load after copy ≡ load cells address)
        × (load after address ≡ load cells address)
        × ((v : A) → load (store after copy v) address ≡ load cells address)
  unfolding copy_cell load store
  copy_cell_lem cells none h = (refl, refl, λ v. refl)
  copy_cell_lem cells (some i) h =
      let (a, found) = get-in cells i h in
      rw found (get-new cells a, get-old cells i a h ∙ found, λ v. put-new cells i a v h ∙ found)
