-- ===== src/Vm/Grow.antt =====
-- kernel/mm/vm.c: a new table in an entry of `n`, as `walk` makes it.
use tatak_os.Base.{
  ℕ, ◌+◌, ◌≡◌, ◌≢◌, ◌<◌, inl, inr, refl, ◌∙◌, true, false, List, ◌∷◌, arith, ◌==◌, if◌then◌else◌,
  Bool-cases,
}
use tatak_os.Disk.{update, update_self}
use tatak_os.Kalloc.{Memory, Kmem, fill_page, fives}
use tatak_os.Kalloc.FreeList.{IsPage}
use tatak_os.Vm.{pa2pte, pte2pa, has_v, entry}
use tatak_os.Vm.Nodes.{
  child, first0, tables, node, kid, IsTree, node-kid, kid-below, kid-same, parent, child-same,
  entries_ne, child-empty, child-none, node_root,
}

-- The memory after `kalloc` has given page `p`, and `walk` has made it a table in the entry `a`.
abbrev pub grown : Memory → ℕ → ℕ → Memory
grown m p a = update (fill_page (fill_page m p fives) p 0) a (pa2pte p + 1)

-- Page `p` is free, and entry `i` of table `n` has no table yet.
pub record Growth (kernel_end : ℕ) (root : ℕ) (k : Kmem) (p : ℕ) (ps : List ℕ) (n : ℕ) (i : ℕ)
    : Type 0 where
  pub start : 0 < kernel_end
  pub tree : IsTree kernel_end root k (p ∷ ps)
  pub low : n < first0
  pub narrow : i < 512
  pub pos : node k.memory root n ≢ 0
  pub free : has_v (k.memory (entry (node k.memory root n) i)) ≡ false

module _ {kernel_end : ℕ} {root : ℕ} {k : Kmem} {p : ℕ} {ps : List ℕ} {n : ℕ} {i : ℕ}
    (g : Growth kernel_end root k p ps n i) where
  abbrev m : Memory
  m = k.memory

  abbrev t : ℕ
  t = node k.memory root n

  abbrev m' : Memory
  m' = grown k.memory p (entry (node k.memory root n) i)

  pub page_t : IsPage kernel_end t
  page_t = g.tree.page n (ground arith) g.pos

  pub page_p : IsPage kernel_end p
  page_p = g.tree.free.pages.0

  pub p_ne : (l : ℕ) → l < tables → node m root l ≢ 0 → p ≢ node m root l
  p_ne l le h = (g.tree.taken l le h).0

  pub p_pos : p ≢ 0
  p_pos e = let a = page_p.above in omega (arith, a, e)

  -- The new entry.
  at_entry : m' (entry t i) ≡ pa2pte p + 1
  at_entry = update_self (fill_page (fill_page m p fives) p 0) (entry t i) (pa2pte p + 1)

  child-new : child m' t i ≡ p
  unfolding child
  child-new =
      let z : (t == 0) ≡ false = ground arith in
      let v : has_v (pa2pte p + 1) ≡ true = ground arith in
      let a = page_p.aligned in
      let b = page_p.below in
      let back : pte2pa (pa2pte p + 1) ≡ p = omega (arith, a, b) in rw (z, at_entry, v) back

  -- A table that is not the new one keeps its other entries.
  kept :
      (u j : ℕ)
      → IsPage kernel_end u
      → p ≢ u
      → j < 512
      → entry t i ≢ entry u j
      → m' (entry u j) ≡ m (entry u j)
  kept u j page ne lt' other =
      let a = page_p.aligned in let b = page.aligned in ground (arith, a, b, ne, lt', other)

  -- The new table is empty.
  pub empty : (j : ℕ) → j < 512 → m' (entry p j) ≡ 0
  empty j lt' =
      let a = page_p.aligned in
      let b = page_t.aligned in
      let c = p_ne n (ground arith) g.pos in ground (arith, a, b, c, g.narrow, lt')

  pub fresh-kid : node m root (kid n i) ≡ 0
  unfolding child
  fresh-kid = rw (node-kid m root n i g.low g.narrow, g.free) (ground arith)

  -- The entry of another table, or another entry, is as it was, and keeps its child.
  pub entry-kept :
      (q j : ℕ)
      → q < tables
      → j < 512
      → (n ≡ q → i ≢ j)
      → node m root q ≢ 0
      → m' (entry (node m root q) j) ≡ m (entry (node m root q) j)
  entry-kept q j lt' lt2 ne u = kept (node m root q) j (g.tree.page q lt' u) (p_ne q lt' u) lt2 (
      entries_ne kernel_end root k (p ∷ ps) g.tree n i q j (ground arith) g.narrow lt' lt2 g.pos u
        ne)

  pub kid_ne : (q j : ℕ) → kid n i ≢ kid q j → n ≡ q → i ≢ j
  kid_ne q j ne same e = ne (rw (same, e) refl)

  child-kept :
      (q j : ℕ)
      → q < first0
      → j < 512
      → kid n i ≢ kid q j
      → child m' (node m root q) j ≡ child m (node m root q) j
  child-kept q j lt' lt2 ne =
      child-same m m' (node m root q) j (entry-kept q j (ground arith) lt2 (kid_ne q j ne))

  -- The row's entry `l`, after the change.
  abbrev IsGrownAt : ℕ → Type 0
  IsGrownAt l = node m' root l ≡ (if kid n i == l then p else node m root l)

  grown-kid : (q j : ℕ) → q < first0 → j < 512 → IsGrownAt q → IsGrownAt (kid q j)
  grown-kid q j lt' lt2 e = elim (Bool-cases (kid n i == kid q j)) [
    | inl same ↦
        let (s, s') = kid-same n i q j g.narrow lt2 g.low lt' (ground (arith, same)) in
        let up = kid-below n i g.low g.narrow in
        let z : (kid n i == q) ≡ false = ground (arith, up, s) in
        let here : node m' root q ≡ t = (rw z at e) ∙ (rw s refl) in
        rw (same, node-kid m' root q j lt' lt2, here, ← s') child-new
    | inr other ↦ elim (Bool-cases (kid n i == q)) [
      | inl new ↦
          let none_yet : node m root q ≡ 0 =
            (let z : kid n i ≡ q = ground (arith, new) in rw (← z) fresh-kid) in
          rw
            (
              other,
              node-kid m' root q j lt' lt2,
              node-kid m root q j lt' lt2,
              rw new at e,
              none_yet,
              child-none m j,
            )
            (child-empty m' p j (empty j lt2))
      | inr old ↦
          rw (other, node-kid m' root q j lt' lt2, node-kid m root q j lt' lt2, rw old at e)
            (child-kept q j lt' lt2 (ground (arith, other)))
    ]
  ]

  grown-root : IsGrownAt 0
  grown-root =
      let up = kid-below n i g.low g.narrow in
      let z : (kid n i == 0) ≡ false = ground (arith, up) in
      rw (z, node_root m' root, node_root m root) refl

  grown-upper : (q : ℕ) → q < first0 → IsGrownAt q
  grown-upper q lt' = elim (parent q (ground arith)) [
    | inl e ↦ rw e grown-root
    | inr (q0, j, lt1, lt2, e) ↦
        let z : q0 ≡ 0 = ground (arith, e, lt', lt1) in
        rw (e, z) (grown-kid 0 j (omega arith) lt2 grown-root)
  ]

  -- The tables in the row: the new one is in its place.
  pub grown-node : (l : ℕ) → l < tables → IsGrownAt l
  grown-node l le = elim (parent l le) [
    | inl e ↦ rw e grown-root
    | inr (q, j, lt1, lt2, e) ↦ rw e (grown-kid q j lt1 lt2 (grown-upper q lt1))
  ]
