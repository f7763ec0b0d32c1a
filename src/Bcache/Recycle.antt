-- ===== src/Bcache/Recycle.antt =====
-- The second loop of `bget`: which buffer is taken for a new block, and what is lost by it.
use tatak_os.Base.{
  ℕ, ◌+◌, ◌<◌, ◌≡◌, ◌≢◌, ◌⊎◌, inl, inr, Option, none, some, List, [], ◌∷◌, ◌==◌, length, arith,
  Bool-cases, Option-cases,
}
use tatak_os.Bcache.{Buf, is_for, get, renamed, recycle}
use tatak_os.Bcache.Ring.{total, Unique}

-- Nobody refers to the buffer, if there is one.
abbrev pub Idle : Option Buf → Type 0
Idle none = Unit
Idle (some y) = y.refcnt ≡ 0

module _ (dev b : ℕ) where
  -- The block gets a buffer that was free.
  pub recycle_new :
      (xs ys : List Buf)
      → recycle dev b xs ≡ some ys
      → get dev b xs ≡ none
      → (v : Buf) × (v.refcnt ≡ 0) × (get dev b ys ≡ some (renamed dev b v))
  unfolding recycle get
  recycle_new [] ys e h = cc
  recycle_new (x ∷ xs) ys e h = elim (Option-cases (recycle dev b xs)) [
    | inl last ↦ (x, ground arith, ground arith)
    | inr (zs, more) ↦
        let (v, idle, new) = recycle_new xs zs more (ground arith) in (v, idle, ground arith)
  ]

  -- Another block keeps its buffer, or loses one that nobody refers to.
  pub recycle_others :
      (xs ys : List Buf) (a : ℕ)
      → recycle dev b xs ≡ some ys
      → a ≢ b
      → Unique dev xs
      → (get dev a ys ≡ get dev a xs) ⊎ (get dev a ys ≡ none) × Idle (get dev a xs)
  unfolding recycle get
  recycle_others [] ys a e ne u = cc
  recycle_others (x ∷ xs) ys a e ne u = elim (Option-cases (recycle dev b xs)) [
    | inl last ↦ elim (Bool-cases (is_for dev a x)) [
      | inl own ↦ rw own (inr (ground arith, ground arith))
      | inr other ↦ rw other (inl (ground arith))
    ]
    | inr (zs, more) ↦ ground (arith, recycle_others xs zs a more ne u.1)
  ]

  pub recycle-Unique :
      (xs ys : List Buf)
      → recycle dev b xs ≡ some ys
      → get dev b xs ≡ none
      → Unique dev xs
      → Unique dev ys
  unfolding recycle get
  recycle-Unique [] ys e h u = cc
  recycle-Unique (x ∷ xs) ys e h u = elim (Option-cases (recycle dev b xs)) [
    | inl last ↦
        let eq : renamed dev b x ∷ xs ≡ ys = ground arith in rw (← eq) ((λ p. ground arith), u.1)
    | inr (zs, more) ↦
        let eq : x ∷ zs ≡ ys = ground arith in
        rw (← eq) (
          (λ p. ground (arith, u.0 p, recycle_others xs zs x.blockno more)),
          recycle-Unique xs zs more (ground arith) u.1,
        )
  ]

  pub total-recycle :
      (xs ys : List Buf)
      → recycle dev b xs ≡ some ys
      → (total ys ≡ total xs + 1) × (length ys ≡ length xs)
  unfolding recycle total
  total-recycle [] ys e = cc
  total-recycle (x ∷ xs) ys e = elim (Option-cases (recycle dev b xs)) [
    | inl last ↦ ground arith
    | inr (zs, more) ↦ ground (arith, total-recycle xs zs more)
  ]

  -- With fewer references than buffers there is a free one.
  pub recycle_finds :
      (xs : List Buf) → total xs < length xs → (ys : List Buf) × (recycle dev b xs ≡ some ys)
  unfolding recycle total
  recycle_finds [] h = absurd (omega arith)
  recycle_finds (x ∷ xs) h = elim (Option-cases (recycle dev b xs)) [
    | inr (zs, more) ↦ (x ∷ zs, rw (more, recycle))
    | inl last ↦ elim (Bool-cases (x.refcnt == 0)) [
      | inl idle ↦ (renamed dev b x ∷ xs, rw (last, idle, recycle))
      | inr busy ↦ let (ys, found) = recycle_finds xs (ground arith) in cc
    ]
  ]
