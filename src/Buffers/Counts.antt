-- ===== src/Buffers/Counts.antt =====
-- How often a block stands in a list of held or pinned blocks.
use tatak_os.Base.{
  ℕ, ◌+◌, ◌≡◌, refl, true, List, [], ◌∷◌, ◌++◌, arith, ltb, ◌==◌, if◌then◌else◌, length,
}
use tatak_os.Buffers.{mem}
use tatak_os.Buffers.Spec.{erase}

-- 1 if the numbers are equal.
abbrev pub one_if : ℕ → ℕ → ℕ
one_if a b = if a == b then 1 else 0

unfoldable pub count : ℕ → List ℕ → ℕ
count a [] = 0
count a (x ∷ xs) = one_if a x + count a xs

pub count-cons : (a b : ℕ) (xs : List ℕ) → count a (b ∷ xs) ≡ one_if a b + count a xs
unfolding count
count-cons a b xs = refl

pub mem-count : (b : ℕ) (xs : List ℕ) → mem b xs ≡ ltb 0 (count b xs)
unfolding count
mem-count b [] = refl
mem-count b (x ∷ xs) = ground (arith, mem-count b xs)

pub count-erase :
    (a b : ℕ) (xs : List ℕ) → mem b xs ≡ true → count a (erase b xs) + one_if a b ≡ count a xs
unfolding count
count-erase a b [] h = cc
count-erase a b (x ∷ xs) h = ground (arith, count-erase a b xs)

pub length-erase : (b : ℕ) (xs : List ℕ) → mem b xs ≡ true → length (erase b xs) + 1 ≡ length xs
length-erase b [] h = cc
length-erase b (x ∷ xs) h = ground (arith, length-erase b xs)

pub count-append_one : (a b : ℕ) (xs : List ℕ) → count a (xs ++ (b ∷ [])) ≡ count a xs + one_if a b
unfolding count
count-append_one a b [] = ground arith
count-append_one a b (x ∷ xs) = ground (arith, count-append_one a b xs)
