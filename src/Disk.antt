-- ===== src/Disk.antt =====
-- A disk of blocks, and the writes that reach it in order. A block is read as its 256 words of 32
-- bits (BSIZE in include/kernel/fs.h is 1024): word `j` is bytes 4j to 4j+3.
use tatak_os.Base.{
  ℕ, zero, suc, ◌+◌, ◌≤◌, ◌≡◌, ◌≢◌, ◌⊎◌, inl, inr, refl, ap, fun_ext, List, [], ◌∷◌, ◌++◌, arith,
  ◌==◌, if◌then◌else◌, length, take, Bool-cases,
}

abbrev pub Block : Type 0
Block = ℕ → ℕ

abbrev pub Disk : Type 0
Disk = ℕ → Block

abbrev pub update {ℓ} : {A : Type ℓ} → (ℕ → A) → ℕ → A → ℕ → A
update f i a j = if i == j then a else f j

pub update-update {ℓ} :
    {A : Type ℓ} (f : ℕ → A) (i : ℕ) (a b : A) → update (update f i a) i b ≡ update f i b
update-update f i a b = fun_ext λ j. ground arith

pub update_self {ℓ} : {A : Type ℓ} (f : ℕ → A) (i : ℕ) (a : A) → update f i a i ≡ a
update_self f i a = ground arith

pub update_ne {ℓ} : {A : Type ℓ} (f : ℕ → A) (i j : ℕ) (a : A) → i ≢ j → update f i a j ≡ f j
update_ne f i j a h = ground arith

pub update-cases {ℓ} :
    {A : Type ℓ} (f : ℕ → A) (i : ℕ) (a : A) (j : ℕ)
    → (i ≡ j) × (update f i a j ≡ a) ⊎ ((i ≢ j) × (update f i a j ≡ f j))
update-cases f i a j = elim (Bool-cases (i == j)) [
  | inl e ↦ inl (ground arith, rw e refl)
  | inr e ↦ inr (ground arith, rw e refl)
]

-- One write is a block number and its new contents; a list of them is oldest first.
abbrev pub Writes : Type 0
Writes = List (ℕ × Block)

abbrev pub apply : Writes → Disk → Disk
apply [] d = d
apply ((b, x) ∷ ws) d = apply ws (update d b x)

pub apply-append : (ws vs : Writes) (d : Disk) → apply (ws ++ vs) d ≡ apply vs (apply ws d)
apply-append [] vs d = refl
apply-append ((b, x) ∷ ws) vs d = apply-append ws vs (update d b x)

-- A prefix of two lists in a row ends in the first one, or after it.
pub take-append-cases {ℓ} :
    {A : Type ℓ} (k : ℕ) (xs ys : List A)
    → (k ≤ length xs) × (take k (xs ++ ys) ≡ take k xs)
      ⊎ ((m : ℕ) × (suc m + length xs ≡ k) × (take k (xs ++ ys) ≡ xs ++ take (suc m) ys))
take-append-cases zero xs ys = inl (omega arith, refl)
take-append-cases (suc k) [] ys = inr (k, omega arith, refl)
take-append-cases (suc k) (x ∷ xs) ys = elim (take-append-cases k xs ys) [
  | inl (le, e) ↦ inl (omega arith, ap (λ l. x ∷ l) e)
  | inr (m, n, e) ↦ inr (m, omega arith, ap (λ l. x ∷ l) e)
]
