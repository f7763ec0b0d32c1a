-- ===== src/Vm/Nodes.antt =====
-- kernel/mm/vm.c: the tables of a page table, and the entries of its pages.
use tatak_os.Base.{
  ℕ, ◌+◌, ◌-◌, ◌*◌, ◌/◌, ◌%◌, ◌≡◌, ◌≢◌, ◌<◌, ◌⊎◌, inl, inr, refl, true, false, List, arith, ltb,
  ◌==◌, if◌then◌else◌, Bool-cases,
}
use tatak_os.Kalloc.{Memory, Kmem}
use tatak_os.Kalloc.FreeList.{All, IsPage, Represents}
use tatak_os.Vm.{pte2pa, has_v, entry}

-- The table that entry `i` of table `t` names, 0 if there is none.
unfoldable pub child : Memory → ℕ → ℕ → ℕ
child m t i = if t == 0 then 0 else if has_v (m (entry t i)) then pte2pa (m (entry t i)) else 0

-- The tables of level 1, for a gigabyte each, and of level 0, for two megabytes each.
abbrev pub table1 : Memory → ℕ → ℕ → ℕ
table1 m root i = child m root i

abbrev pub table0 : Memory → ℕ → ℕ → ℕ
table0 m root j = child m (table1 m root (j / 512)) (j % 512)

-- All tables in one row: the root, those of level 1, and those of level 0.
abbrev pub first0 : ℕ
first0 = 1 + 512

abbrev pub tables : ℕ
tables = first0 + 512 * 512

unfoldable pub node : Memory → ℕ → ℕ → ℕ
node m root n =
    if n == 0
    then root
    else if ltb n first0
    then table1 m root (n - 1)
    else table0 m root (n - first0)

-- The entry of page `v`, counted from address 0; 0 if there is no table for it.
unfoldable pub leaf : Memory → ℕ → ℕ → ℕ
leaf m root v = let t = table0 m root (v / 512) in if t == 0 then 0 else m (entry t (v % 512))

-- The position in the row of the table that entry `i` of table `n` names.
abbrev pub kid : ℕ → ℕ → ℕ
kid n i = if n == 0 then 1 + i else first0 + (512 * (n - 1) + i)

-- The tables are pages, each with one place in the tree, and none of them is free. A valid entry
-- above level 0 names a table.
pub record IsTree (kernel_end : ℕ) (root : ℕ) (k : Kmem) (ps : List ℕ) : Type 0 where
  pub free : Represents kernel_end k ps
  pub rooted : root ≢ 0
  pub page :
      (n : ℕ) → n < tables → node k.memory root n ≢ 0 → IsPage kernel_end (node k.memory root n)
  pub taken :
      (n : ℕ) → n < tables → node k.memory root n ≢ 0 → All (λ p. p ≢ node k.memory root n) ps
  pub apart :
      (n l : ℕ)
      → n < tables
      → l < tables
      → node k.memory root n ≢ 0
      → node k.memory root n ≡ node k.memory root l
      → n ≡ l
  pub linked :
      (n i : ℕ)
      → n < first0
      → i < 512
      → node k.memory root n ≢ 0
      → has_v (k.memory (entry (node k.memory root n) i)) ≡ true
      → node k.memory root (kid n i) ≢ 0

-- The row's positions.
pub node_root : (m : Memory) (root : ℕ) → node m root 0 ≡ root
unfolding node
node_root m root = refl

pub node_1 : (m : Memory) (root i : ℕ) → i < 512 → node m root (1 + i) ≡ child m root i
unfolding node
node_1 m root i lt =
    let a : (1 + i == 0) ≡ false = ground arith in
    let b : ltb (1 + i) 513 ≡ true = ground arith in
    let c : 1 + i - 1 ≡ i = omega arith in rw (a, b, c) refl

pub node_0 : (m : Memory) (root j : ℕ) → node m root (first0 + j) ≡ table0 m root j
unfolding node
node_0 m root j =
    let a : (513 + j == 0) ≡ false = ground arith in
    let b : ltb (513 + j) 513 ≡ false = ground arith in
    let c : 513 + j - 513 ≡ j = omega arith in rw (a, b, c) refl

pub node-kid :
    (m : Memory) (root n i : ℕ)
    → n < first0
    → i < 512
    → node m root (kid n i) ≡ child m (node m root n) i
node-kid m root n i lt lt' = elim (Bool-cases (n == 0)) [
  | inl e ↦ let z : n ≡ 0 = ground arith in rw (z, node_root m root) (node_1 m root i lt')
  | inr e ↦
      let a : (512 * (n - 1) + i) / 512 ≡ n - 1 = omega (arith, lt') in
      let b : (512 * (n - 1) + i) % 512 ≡ i = omega (arith, lt') in
      let c : 1 + (n - 1) ≡ n = ground arith in
      let up = rw c at (node_1 m root (n - 1) (ground (arith, lt, e))) in
      rw (e, node_0 m root (512 * (n - 1) + i), a, b, up) refl
]

pub kid-below : (n i : ℕ) → n < first0 → i < 512 → (n < kid n i) × (kid n i < tables)
kid-below n i lt lt' = (ground arith, ground arith)

pub kid-same :
    (n i l j : ℕ)
    → i < 512
    → j < 512
    → n < first0
    → l < first0
    → kid n i ≡ kid l j
    → (n ≡ l) × (i ≡ j)
kid-same n i l j lt lt' below below' e = (ground arith, ground arith)

-- Each table but the root is in an entry of another.
pub parent :
    (l : ℕ) → l < tables → (l ≡ 0) ⊎ ((n : ℕ) × (i : ℕ) × (n < first0) × (i < 512) × (l ≡ kid n i))
parent l lt = elim (Bool-cases (l == 0)) [
  | inl e ↦ inl (ground arith)
  | inr e ↦ elim (Bool-cases (ltb l first0)) [
    | inl q ↦ inr (0, l - 1, omega arith, ground arith, ground arith)
    | inr q ↦
        inr (1 + (l - first0) / 512, (l - first0) % 512, ground arith, omega arith, ground arith)
  ]
]

pub row-cases :
    (n : ℕ)
    → n < tables
    → (n ≡ 0) ⊎ ((i : ℕ) × (i < 512) × (n ≡ 1 + i)) ⊎ ((j : ℕ) × (j < 512 * 512) × (n ≡ first0 + j))
row-cases n lt = elim (Bool-cases (n == 0)) [
  | inl e ↦ inl (ground arith)
  | inr e ↦ elim (Bool-cases (ltb n first0)) [
    | inl q ↦ inr (inl (n - 1, ground arith, ground arith))
    | inr q ↦ inr (inr (n - first0, ground arith, ground arith))
  ]
]

-- Entries of two pages are at different addresses.
pub entry_ne :
    (kernel_end t u i j : ℕ)
    → IsPage kernel_end t
    → IsPage kernel_end u
    → t ≢ u
    → i < 512
    → j < 512
    → entry t i ≢ entry u j
entry_ne kernel_end t u i j p q ne lt lt' e =
    absurd (let a = p.aligned in let b = q.aligned in omega (arith, a, b, e, lt, lt', ne))

-- A change of the memory elsewhere leaves a child alone.
pub child-same :
    (m m' : Memory) (t i : ℕ)
    → (t ≢ 0 → m' (entry t i) ≡ m (entry t i))
    → child m' t i ≡ child m t i
unfolding child
child-same m m' t i same = elim (Bool-cases (t == 0)) [
  | inl e ↦ rw e refl
  | inr e ↦ let s = same (ground arith) in rw (e, s) refl
]

-- Two entries of the tables are at different addresses.
pub entries_ne :
    (kernel_end root : ℕ) (k : Kmem) (ps : List ℕ)
    → IsTree kernel_end root k ps
    → (n i q j : ℕ) → n < tables
    → i < 512
    → q < tables
    → j < 512
    → node k.memory root n ≢ 0
    → node k.memory root q ≢ 0
    → (n ≡ q → i ≢ j)
    → entry (node k.memory root n) i ≢ entry (node k.memory root q) j
entries_ne kernel_end root k ps w n i q j le lt le' lt' pos pos' ne = elim (Bool-cases (n == q)) [
  | inl e ↦ let same : n ≡ q = ground arith in rw same (λ e2. ne same (omega (arith, e2)))
  | inr e ↦
      entry_ne kernel_end (node k.memory root n) (node k.memory root q) i j (w.page n le pos)
        (w.page q le' pos') (λ u. absurd (let z = w.apart n q le le' pos u in ground (arith, z, e)))
        lt lt'
]

pub child-empty : (m : Memory) (t i : ℕ) → m (entry t i) ≡ 0 → child m t i ≡ 0
unfolding child
child-empty m t i e = rw e (ground arith)

pub child-none : (m : Memory) (i : ℕ) → child m 0 i ≡ 0
unfolding child
child-none m i = refl

pub child-valid :
    (m : Memory) (t i : ℕ)
    → t ≢ 0
    → has_v (m (entry t i)) ≡ true
    → pte2pa (m (entry t i)) ≡ child m t i
unfolding child
child-valid m t i ne v = let z : (t == 0) ≡ false = ground arith in rw (z, v) refl

pub child-invalid : (m : Memory) (t i : ℕ) → has_v (m (entry t i)) ≡ false → child m t i ≡ 0
unfolding child
child-invalid m t i v = rw v (ground arith)
