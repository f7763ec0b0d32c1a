-- ===== src/Buffers.antt =====
-- The contract of the buffer cache, kernel/fs/bio.c, as its clients use it.
-- `Ops` is the interface that they take; `Spec` is the abstract cache that states what a call
-- promises to one process, and when.
pub mod Spec
pub mod Counts
pub mod Simulation
use tatak_os.Base.{
  ℕ, ◌+◌, ◌≡◌, Bool, true, false, not, ◌&&◌, ◌||◌, Option, none, some, List, [], ◌∷◌, ◌++◌, ltb,
  ◌==◌, if◌then◌else◌, length,
}
use tatak_os.Disk.{Block, Disk, Writes, update}

-- Stateful code that may panic: `none` is a panic or a wait that does not end.
abbrev pub M : Type 0 → Type 0 → Type 0
M S A = S → Option (A × S)

infixl 5 ◌>>=◌ ◌>>◌
abbrev pub ◌>>=◌ : {S A B : Type 0} → M S A → (A → M S B) → M S B
◌>>=◌ m f s = elim (m s) [ none ↦ none | some (a, t) ↦ f a t ]

abbrev pub ◌>>◌ : {S B : Type 0} → M S (Unit {0}) → M S B → M S B
◌>>◌ m k s = elim (m s) [ none ↦ none | some (a, t) ↦ k t ]

abbrev pub pure : {S A : Type 0} → A → M S A
pure a s = some (a, s)

-- `fill b x` is the client's `memmove` into `b->data`.
pub record Ops (S : Type 0) : Type 0 where
  pub bread : ℕ → M S Block
  pub fill : ℕ → Block → M S (Unit {0})
  pub bwrite : ℕ → M S (Unit {0})
  pub brelse : ℕ → M S (Unit {0})
  pub bpin : ℕ → M S (Unit {0})
  pub bunpin : ℕ → M S (Unit {0})

-- NBUF of include/kernel/param.h.
abbrev pub nbuf : ℕ
nbuf = 30

abbrev pub mem : ℕ → List ℕ → Bool
mem b [] = false
mem b (x ∷ xs) = b == x || mem b xs

-- A call that is known to succeed, at the head of a block.
pub >>=-ok :
    {S A B : Type 0} (m : M S A) (f : A → M S B) {s t : S} {a : A}
    → m s ≡ some (a, t)
    → (m >>= f) s ≡ f a t
>>=-ok m f e = rw (e, ◌>>=◌)

pub >>-ok :
    {S B : Type 0} (m : M S (Unit {0})) (k : M S B) {s t : S}
    → m s ≡ some (tt, t)
    → (m >> k) s ≡ k t
>>-ok m k e = rw (e, ◌>>◌)
