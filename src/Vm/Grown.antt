-- ===== src/Vm/Grown.antt =====
-- kernel/mm/vm.c: a page table with a new table is a page table with the same pages.
use tatak_os.Base.{
  ℕ, ◌+◌, ◌*◌, ◌/◌, ◌%◌, ◌≡◌, ◌≢◌, ◌<◌, ◌⊎◌, inl, inr, refl, sym, ◌∙◌, true, false, List, arith,
  ◌==◌, Bool-cases,
}
use tatak_os.Kalloc.{Memory, Kmem, fill_page, fives}
use tatak_os.Kalloc.FreeList.{All, All-map, All-both, IsPage, Represents, IsChain-same}
use tatak_os.Vm.{has_v, entry}
use tatak_os.Vm.Nodes.{first0, tables, node, kid, kid-below, leaf, IsTree, node_0, table0}
use tatak_os.Vm.Grow.{
  Growth, grown, page_t, page_p, p_ne, p_pos, empty, fresh-kid, entry-kept, kid_ne, grown-node,
}

module _ {kernel_end : ℕ} {root : ℕ} {k : Kmem} {p : ℕ} {ps : List ℕ} {n : ℕ} {i : ℕ}
    (g : Growth kernel_end root k p ps n i) where
  abbrev m : Memory
  m = k.memory

  abbrev t : ℕ
  t = node k.memory root n

  abbrev m' : Memory
  m' = grown k.memory p (entry (node k.memory root n) i)

  grown-table0 : (j : ℕ) → j < 512 * 512 → kid n i ≢ first0 + j → table0 m' root j ≡ table0 m root j
  grown-table0 j lt' ne =
      let z : (kid n i == first0 + j) ≡ false = ground arith in
      rw z at
        (rw (node_0 m' root j, node_0 m root j) at ((grown-node g) (first0 + j) (omega arith)))

  entry0-kept :
      (j x : ℕ)
      → j < 512 * 512
      → x < 512
      → table0 m root j ≢ 0
      → m' (entry (table0 m root j) x) ≡ m (entry (table0 m root j) x)
  entry0-kept j x lt' lt2 u = rw (node_0 m root j) at (
      (entry-kept g) (first0 + j) x (omega arith) lt2 (λ e. absurd (omega (arith, e, g.low)))
        (rw (node_0 m root j) u))

  -- No page's entry changes.
  pub grown-leaf : (v : ℕ) → v < 512 * (512 * 512) → leaf m' root v ≡ leaf m root v
  unfolding leaf
  grown-leaf v lt' = elim (Bool-cases (kid n i == first0 + v / 512)) [
    | inl new ↦
        let z : kid n i ≡ first0 + v / 512 = ground (arith, new) in
        let none_yet : table0 m root (v / 512) ≡ 0 =
          sym (node_0 m root (v / 512)) ∙ (rw z at (fresh-kid g)) in
        let here : table0 m' root (v / 512) ≡ p =
          sym (node_0 m' root (v / 512))
          ∙ (rw new at ((grown-node g) (first0 + v / 512) (omega (arith, lt')))) in
        let zero_entry = (empty g) (v % 512) (omega arith) in
        rw (none_yet, here, zero_entry) (ground arith)
    | inr old ↦
        let here = grown-table0 (v / 512) (omega (arith, lt')) (ground (arith, old)) in
        elim (Bool-cases (table0 m root (v / 512) == 0)) [
          | inl z ↦ rw (here, z) refl
          | inr z ↦
              rw
                (
                  here,
                  entry0-kept (v / 512) (v % 512) (omega (arith, lt')) (omega arith)
                      (ground (arith, z)),
                )
                refl
        ]
  ]

  links :
      (k1 : Kmem)
      → Represents kernel_end k1 ps
      → k1.memory ≡ fill_page m p fives
      → All (λ x. m' x ≡ k1.memory x) ps
  links k1 r e =
      All-map (λ x. IsPage kernel_end x × ((x ≢ p) × (x ≢ t))) (λ x. m' x ≡ k1.memory x)
        (λ x (page, (ne, ne')).
          let a = (page_p g).aligned in
          let b = page.aligned in
          let c = (page_t g).aligned in rw e (ground (arith, a, b, c, ne, ne', g.narrow)))
        ps
        (All-both (IsPage kernel_end) (λ x. (x ≢ p) × (x ≢ t)) ps r.pages
          (All-both (λ x. x ≢ p) (λ x. x ≢ t) ps g.tree.free.distinct.0
            (g.tree.taken n (ground arith) g.pos).1))

  node-cases :
      (l : ℕ)
      → l < tables
      → (kid n i ≡ l) × (node m' root l ≡ p) ⊎ ((kid n i ≢ l) × (node m' root l ≡ node m root l))
  node-cases l le = elim (Bool-cases (kid n i == l)) [
    | inl e ↦ inl (ground (arith, e), rw e at ((grown-node g) l le))
    | inr e ↦ inr (ground (arith, e), rw e at ((grown-node g) l le))
  ]

  grown-page :
      (l : ℕ)
      → l < tables
      → node m' root l ≢ 0
      → IsPage kernel_end (node m' root l) × All (λ x. x ≢ node m' root l) ps
  grown-page l le h = elim (node-cases l le) [
    | inl (new, e) ↦ rw e ((page_p g), g.tree.free.distinct.0)
    | inr (old, e) ↦ let h' = rw e at h in rw e (g.tree.page l le h', (g.tree.taken l le h').1)
  ]

  grown-apart :
      (l q : ℕ)
      → l < tables
      → q < tables
      → node m' root l ≢ 0
      → node m' root l ≡ node m' root q
      → l ≡ q
  grown-apart l q le le' h e = elim (node-cases l le) [
    | inl (new, a) ↦ elim (node-cases q le') [
      | inl (new', b) ↦ sym new ∙ new'
      | inr (old', b) ↦
          let same : p ≡ node m root q = sym a ∙ e ∙ b in
          absurd ((p_ne g) q le' (rw (← same) (p_pos g)) same)
    ]
    | inr (old, a) ↦ elim (node-cases q le') [
      | inl (new', b) ↦ absurd ((p_ne g) l le (rw a at h) (sym b ∙ sym e ∙ a))
      | inr (old', b) ↦ g.tree.apart l q le le' (rw a at h) (sym a ∙ e ∙ b)
    ]
  ]

  grown-linked :
      (l j : ℕ)
      → l < first0
      → j < 512
      → node m' root l ≢ 0
      → has_v (m' (entry (node m' root l) j)) ≡ true
      → node m' root (kid l j) ≢ 0
  grown-linked l j lt' lt2 h v = elim (node-cases (kid l j) (kid-below l j lt' lt2).1) [
    | inl (new, e) ↦ rw e (p_pos g)
    | inr (old, e) ↦ elim (node-cases l (ground arith)) [
      | inl (new', e2) ↦
          let z = (empty g) j lt2 in absurd (let v' = rw (e2, z) at v in ground (arith, v'))
      | inr (old', e2) ↦
          let h' = rw e2 at h in
          let z = (entry-kept g) l j (ground arith) lt2 ((kid_ne g) l j old) h' in
          rw e (g.tree.linked l j lt' lt2 h' (rw (e2, z) at v))
    ]
  ]

  grown-Represents :
      (k1 : Kmem)
      → Represents kernel_end k1 ps
      → k1.memory ≡ fill_page m p fives
      → Represents kernel_end (record k1 { memory = m' }) ps
  grown-Represents k1 r e = record {
    chain = IsChain-same k1.memory m' ps k1.freelist (links k1 r e) r.chain;
    pages = r.pages;
    distinct = r.distinct;
  }

  pub grown-IsTree :
      (k1 : Kmem)
      → Represents kernel_end k1 ps
      → k1.memory ≡ fill_page m p fives
      → IsTree kernel_end root (record k1 { memory = m' }) ps
  grown-IsTree k1 r e = record {
    free = grown-Represents k1 r e;
    rooted = g.tree.rooted;
    page = λ l le h. (grown-page l le h).0;
    taken = λ l le h. (grown-page l le h).1;
    apart = grown-apart;
    linked = grown-linked;
  }
