-- ===== src/File/Counts.antt =====
-- How often an open file stands in a row of descriptors, and in the rows of all processes.
use tatak_os.Base.{
  ℕ, zero, suc, ◌+◌, ◌≡◌, ◌≢◌, ◌≤◌, ◌<◌, inl, inr, refl, ap₂, arith, ◌==◌, Bool-cases,
}
use tatak_os.Buffers.Counts.{one_if}
use tatak_os.Disk.{update, update_self, update_ne}

-- In the descriptors from `i` on, for `n` descriptors.
unfoldable pub count : ℕ → (ℕ → ℕ) → ℕ → ℕ → ℕ
count f g i zero = 0
count f g i (suc n) = one_if f (g i) + count f g (i + 1) n

-- In the rows from `p` on, for `n` rows of `k` descriptors.
unfoldable pub total : ℕ → (ℕ → ℕ → ℕ) → ℕ → ℕ → ℕ → ℕ
total f o k p zero = 0
total f o k p (suc n) = count f (o p) 0 k + total f o k (p + 1) n

pub count-agree :
    (f : ℕ) (g h : ℕ → ℕ) (i n : ℕ)
    → ((j : ℕ) → i ≤ j → j < i + n → g j ≡ h j)
    → count f g i n ≡ count f h i n
unfolding count
count-agree f g h i zero e = refl
count-agree f g h i (suc n) e =
    ap₂ (λ a b. one_if f a + b) (e i (omega arith) (omega arith))
      (count-agree f g h (i + 1) n λ j lo hi. e j (omega arith) (omega arith))

pub count-absent :
    (f : ℕ) (g : ℕ → ℕ) (i n : ℕ) → ((j : ℕ) → i ≤ j → j < i + n → g j ≢ f) → count f g i n ≡ 0
unfolding count
count-absent f g i zero e = refl
count-absent f g i (suc n) e =
    let here = e i (omega arith) (omega arith) in
    let rest = count-absent f g (i + 1) n λ j lo hi. e j (omega arith) (omega arith) in
    ground (arith, here, rest)

pub count-present : (g : ℕ → ℕ) (i n j : ℕ) → i ≤ j → j < i + n → 1 ≤ count (g j) g i n
unfolding count
count-present g i zero j lo hi = absurd (omega arith)
count-present g i (suc n) j lo hi = elim (Bool-cases (i == j)) [
  | inl e ↦ let same : i ≡ j = ground arith in rw same (ground arith)
  | inr e ↦
      let rest = count-present g (i + 1) n j (ground arith) (omega arith) in omega (arith, rest)
]

pub count-update_out :
    (f : ℕ) (g : ℕ → ℕ) (j v i n : ℕ) → j < i → count f (update g j v) i n ≡ count f g i n
count-update_out f g j v i n lt =
    count-agree f (update g j v) g i n λ k lo hi. update_ne g j k v (λ e. absurd (omega arith))

pub count-update :
    (f : ℕ) (g : ℕ → ℕ) (j v i n : ℕ)
    → i ≤ j
    → j < i + n
    → count f (update g j v) i n + one_if f (g j) ≡ count f g i n + one_if f v
unfolding count
count-update f g j v i zero lo hi = absurd (omega arith)
count-update f g j v i (suc n) lo hi = elim (Bool-cases (i == j)) [
  | inl e ↦
      let same : i ≡ j = ground arith in
      let out = count-update_out f g j v (j + 1) n (omega arith) in
      rw (same, update_self g j v, out) (ground arith)
  | inr e ↦
      let rest = count-update f g j v (i + 1) n (ground arith) (omega arith) in
      rw (update_ne g j i v (ground arith)) (omega (arith, rest))
]

pub total-agree :
    (f : ℕ) (o o' : ℕ → ℕ → ℕ) (k p n : ℕ)
    → ((q : ℕ) → p ≤ q → q < p + n → o q ≡ o' q)
    → total f o k p n ≡ total f o' k p n
unfolding total
total-agree f o o' k p zero e = refl
total-agree f o o' k p (suc n) e =
    ap₂ (λ a b. count f a 0 k + b) (e p (omega arith) (omega arith))
      (total-agree f o o' k (p + 1) n λ q lo hi. e q (omega arith) (omega arith))

-- A row of the table is replaced.
pub total-update :
    (f : ℕ) (o : ℕ → ℕ → ℕ) (k q : ℕ) (g : ℕ → ℕ) (p n : ℕ)
    → p ≤ q
    → q < p + n
    → total f (update o q g) k p n + count f (o q) 0 k ≡ total f o k p n + count f g 0 k
unfolding total
total-update f o k q g p zero lo hi = absurd (omega arith)
total-update f o k q g p (suc n) lo hi = elim (Bool-cases (p == q)) [
  | inl e ↦
      let same : p ≡ q = ground arith in
      let out =
        total-agree f (update o q g) o k (q + 1) n
          λ r lo' hi'. update_ne o q r g (λ e'. absurd (omega arith)) in
      rw (same, update_self o q g, out) (ground arith)
  | inr e ↦
      let rest = total-update f o k q g (p + 1) n (ground arith) (omega arith) in
      rw (update_ne o q p g (ground arith)) (omega (arith, rest))
]

-- A row's descriptors are among those of the table.
pub count_le_total :
    (f : ℕ) (o : ℕ → ℕ → ℕ) (k q p n : ℕ) → p ≤ q → q < p + n → count f (o q) 0 k ≤ total f o k p n
unfolding total
count_le_total f o k q p zero lo hi = absurd (omega arith)
count_le_total f o k q p (suc n) lo hi = elim (Bool-cases (p == q)) [
  | inl e ↦ let same : p ≡ q = ground arith in rw same (ground arith)
  | inr e ↦
      let rest = count_le_total f o k q (p + 1) n (ground arith) (omega arith) in
      omega (arith, rest)
]

pub total-absent :
    (f : ℕ) (o : ℕ → ℕ → ℕ) (k p n : ℕ) → ((q j : ℕ) → o q j ≢ f) → total f o k p n ≡ 0
unfolding total
total-absent f o k p zero e = refl
total-absent f o k p (suc n) e =
    let here = count-absent f (o p) 0 k λ j lo hi. e p j in
    let rest = total-absent f o k (p + 1) n e in omega (arith, here, rest)
