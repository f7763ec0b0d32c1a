-- ===== src/Bcache/Ring.antt =====
-- The ring of buffers as a table from blocks of the device `dev` to buffers: what each change of the
-- ring does to the table, to the number of references, and to the rule that no block of the
-- device has two buffers.
use tatak_os.Base.{
  ℕ, ◌+◌, ◌≡◌, inl, inr, refl, none, some, List, [], ◌∷◌, ◌==◌, if◌then◌else◌, length, arith,
  Bool-cases,
}
use tatak_os.Bcache.{Buf, is_for, get, replace, unlink}

-- All references together.
unfoldable pub total : List Buf → ℕ
total [] = 0
total (x ∷ xs) = x.refcnt + total xs

module _ (dev : ℕ) where
  -- No block of the device has two buffers.
  abbrev pub Unique : List Buf → Type 0
  Unique [] = Unit
  Unique (x ∷ xs) = (x.dev ≡ dev → get dev x.blockno xs ≡ none) × Unique xs

  pub get-is_for :
      (b : ℕ) (xs : List Buf) {x : Buf} → get dev b xs ≡ some x → (x.dev ≡ dev) × (x.blockno ≡ b)
  unfolding get
  get-is_for b [] h = cc
  get-is_for b (y ∷ xs) {x} h = elim (Bool-cases (is_for dev b y)) [
    | inl e ↦ ground arith
    | inr e ↦ get-is_for b xs (rw e at h)
  ]

  -- The buffer of a block is replaced by another one of the same block.
  module _ (b : ℕ) (x : Buf) (same : (x.dev ≡ dev) × (x.blockno ≡ b)) where
    pub get-replace :
        (xs : List Buf) (a : ℕ) {y : Buf}
        → get dev b xs ≡ some y
        → get dev a (replace dev b x xs) ≡ (if a == b then some x else get dev a xs)
    unfolding get replace
    get-replace [] a h = cc
    get-replace (z ∷ xs) a {y} h = ground (arith, get-replace xs a {y = y})

    get-replace-none :
        (xs : List Buf) (a : ℕ) → get dev a xs ≡ none → get dev a (replace dev b x xs) ≡ none
    unfolding get replace
    get-replace-none [] a h = refl
    get-replace-none (z ∷ xs) a h = ground (arith, get-replace-none xs a)

    pub replace-Unique : (xs : List Buf) → Unique xs → Unique (replace dev b x xs)
    unfolding replace
    replace-Unique [] u = u
    replace-Unique (z ∷ xs) u = elim (Bool-cases (is_for dev b z)) [
      | inl e ↦ rw e (ground arith)
      | inr e ↦ rw e ((λ h. get-replace-none xs z.blockno (u.0 h)), replace-Unique xs u.1)
    ]

    pub total-replace :
        (xs : List Buf) {y : Buf}
        → get dev b xs ≡ some y
        → total (replace dev b x xs) + y.refcnt ≡ total xs + x.refcnt
    unfolding get replace total
    total-replace [] h = cc
    total-replace (z ∷ xs) {y} h = ground (arith, total-replace xs {y = y})

    pub length-replace : (xs : List Buf) → length (replace dev b x xs) ≡ length xs
    unfolding replace
    length-replace [] = refl
    length-replace (z ∷ xs) = ground (arith, length-replace xs)

    -- The buffer goes to the front of the ring.
    pub get-front :
        (xs : List Buf) (a : ℕ) {y : Buf}
        → get dev b xs ≡ some y
        → get dev a (x ∷ unlink dev b xs) ≡ (if a == b then some x else get dev a xs)
    unfolding get unlink
    get-front [] a h = cc
    get-front (z ∷ xs) a {y} h = ground (arith, get-front xs a {y = y})

  get-unlink-none :
      (b : ℕ) (xs : List Buf) (a : ℕ) → get dev a xs ≡ none → get dev a (unlink dev b xs) ≡ none
  unfolding get unlink
  get-unlink-none b [] a h = refl
  get-unlink-none b (z ∷ xs) a h = ground (arith, get-unlink-none b xs a)

  -- A block whose buffer is taken out has none left.
  get-unlink_self : (b : ℕ) (xs : List Buf) → Unique xs → get dev b (unlink dev b xs) ≡ none
  unfolding get unlink
  get-unlink_self b [] u = refl
  get-unlink_self b (z ∷ xs) u = ground (arith, get-unlink_self b xs u.1)

  unlink-Unique : (b : ℕ) (xs : List Buf) → Unique xs → Unique (unlink dev b xs)
  unfolding unlink
  unlink-Unique b [] u = u
  unlink-Unique b (z ∷ xs) u = elim (Bool-cases (is_for dev b z)) [
    | inl e ↦ rw e u.1
    | inr e ↦ rw e ((λ h. get-unlink-none b xs z.blockno (u.0 h)), unlink-Unique b xs u.1)
  ]

  pub front-Unique :
      (b : ℕ) (x : Buf) (xs : List Buf) → x.blockno ≡ b → Unique xs → Unique (x ∷ unlink dev b xs)
  front-Unique b x xs e u = ((λ h. rw e (get-unlink_self b xs u)), unlink-Unique b xs u)

  pub total-unlink :
      (b : ℕ) (xs : List Buf) {y : Buf}
      → get dev b xs ≡ some y
      → (total (unlink dev b xs) + y.refcnt ≡ total xs) × (length (unlink dev b xs) + 1 ≡ length xs)
  unfolding get unlink total
  total-unlink b [] h = cc
  total-unlink b (z ∷ xs) {y} h = ground (arith, total-unlink b xs {y = y})
