-- ===== src/Vm/Store.antt =====
-- kernel/mm/vm.c: a store to the entry of a page changes this page alone.
use tatak_os.Base.{
  ℕ, ◌+◌, ◌/◌, ◌%◌, ◌≡◌, ◌≢◌, ◌<◌, inl, inr, refl, sym, ◌∙◌, false, List, arith, ◌==◌,
  if◌then◌else◌, Bool-cases,
}
use tatak_os.Disk.{update, update_self, update_ne}
use tatak_os.Kalloc.{Memory, Kmem}
use tatak_os.Kalloc.FreeList.{All, All-map, All-both, IsPage, IsChain-same}
use tatak_os.Vm.{entry, store}
use tatak_os.Vm.Nodes.{
  first0, tables, node, kid, kid-below, leaf, IsTree, node_0, node_root, table0, node-kid, parent,
  child-same, entries_ne,
}
use tatak_os.Vm.Walk.{pages}

-- The leaf of a page that has a table.
pub leaf-there :
    (m : Memory) (root v : ℕ)
    → node m root (first0 + v / 512) ≢ 0
    → leaf m root v ≡ m (entry (node m root (first0 + v / 512)) (v % 512))
unfolding leaf
leaf-there m root v ne =
    let at = node_0 m root (v / 512) in
    let z : (table0 m root (v / 512) == 0) ≡ false = ground (arith, ne, at) in rw (z, at) refl

pub leaf-none : (m : Memory) (root v : ℕ) → node m root (first0 + v / 512) ≡ 0 → leaf m root v ≡ 0
unfolding leaf
leaf-none m root v e = let z = sym (node_0 m root (v / 512)) ∙ e in rw z refl

module _ (kernel_end root : ℕ) (k : Kmem) (ps : List ℕ) (w : IsTree kernel_end root k ps) (v x : ℕ)
    (lt : v < pages) (there : node k.memory root (first0 + v / 512) ≢ 0) where
  abbrev t : ℕ
  t = node k.memory root (first0 + v / 512)

  abbrev m' : Memory
  m' = update k.memory (entry (node k.memory root (first0 + v / 512)) (v % 512)) x

  other :
      (q j : ℕ)
      → q < tables
      → j < 512
      → (first0 + v / 512 ≡ q → v % 512 ≢ j)
      → node k.memory root q ≢ 0
      → m' (entry (node k.memory root q) j) ≡ k.memory (entry (node k.memory root q) j)
  other q j le lt' ne pos =
      update_ne k.memory (entry t (v % 512)) (entry (node k.memory root q) j) x (
        entries_ne kernel_end root k ps w (first0 + v / 512) (v % 512) q j (omega (arith, lt))
          (omega arith) le lt' there pos ne)

  kid-stored :
      (q j : ℕ)
      → q < first0
      → j < 512
      → node m' root q ≡ node k.memory root q
      → node m' root (kid q j) ≡ node k.memory root (kid q j)
  kid-stored q j le lt' e =
      rw (node-kid m' root q j le lt', node-kid k.memory root q j le lt', e)
        (child-same k.memory m' (node k.memory root q) j
          (other q j (ground arith) lt' (λ e. absurd (omega (arith, e, le)))))

  upper-stored : (q : ℕ) → q < first0 → node m' root q ≡ node k.memory root q
  upper-stored q le = elim (parent q (ground arith)) [
    | inl e ↦ rw (e, node_root m' root, node_root k.memory root) refl
    | inr (n, j, lt1, lt2, e) ↦
        let z : n ≡ 0 = ground (arith, e, le, lt1) in
        rw (e, z)
          (kid-stored 0 j (omega arith) lt2 (rw (node_root m' root, node_root k.memory root) refl))
  ]

  node-stored : (l : ℕ) → l < tables → node m' root l ≡ node k.memory root l
  node-stored l le = elim (parent l le) [
    | inl e ↦ rw e (upper-stored 0 (omega arith))
    | inr (n, j, lt1, lt2, e) ↦ rw e (kid-stored n j lt1 lt2 (upper-stored n lt1))
  ]

  pub leaf-stored :
      (u : ℕ) → u < pages → leaf m' root u ≡ (if v == u then x else leaf k.memory root u)
  leaf-stored u le =
      let same = node-stored (first0 + u / 512) (omega (arith, le)) in
      elim (Bool-cases (v == u)) [
        | inl e ↦
            let z : v ≡ u = ground arith in
            rw (e, leaf-there m' root u (rw (same, ← z) there), same, ← z)
              (update_self k.memory (entry t (v % 512)) x)
        | inr e ↦ elim (Bool-cases (node k.memory root (first0 + u / 512) == 0)) [
          | inl none ↦
              let z : node k.memory root (first0 + u / 512) ≡ 0 = ground (arith, none) in
              rw (e, leaf-none m' root u (same ∙ z), leaf-none k.memory root u z) refl
          | inr some ↦
              let z : node k.memory root (first0 + u / 512) ≢ 0 = ground (arith, some) in
              rw (e, leaf-there m' root u (rw same z), leaf-there k.memory root u z, same)
                (other (first0 + u / 512) (u % 512) (omega (arith, le)) (omega arith)
                  (λ a b. absurd (ground (arith, a, b, e))) z)
        ]
      ]

  stored-links : All (λ a. m' a ≡ k.memory a) ps
  stored-links =
      All-map (λ a. IsPage kernel_end a × (a ≢ t)) (λ a. m' a ≡ k.memory a)
        (λ a (page, ne).
          let al = page.aligned in
          let own = (w.page (first0 + v / 512) (omega (arith, lt)) there).aligned in
          update_ne k.memory (entry t (v % 512)) a x (λ e. absurd (omega (arith, e, al, own, ne))))
        ps
        (All-both (IsPage kernel_end) (λ a. a ≢ t) ps w.free.pages
          (w.taken (first0 + v / 512) (omega (arith, lt)) there))

  pub store-IsTree :
      IsTree kernel_end root
        (store (entry (node k.memory root (first0 + v / 512)) (v % 512)) x k)
        ps
  store-IsTree = record {
    free = record {
      chain = IsChain-same k.memory m' ps k.freelist stored-links w.free.chain;
      pages = w.free.pages;
      distinct = w.free.distinct;
    };
    rooted = w.rooted;
    page = λ l le h. let e = node-stored l le in rw e (w.page l le (rw e at h));
    taken = λ l le h. let e = node-stored l le in rw e (w.taken l le (rw e at h));
    apart = λ l q le le' h same.
        let e = node-stored l le in
        w.apart l q le le' (rw e at h) (sym e ∙ same ∙ node-stored q le');
    linked = λ l j le lt' h valid.
        let e = node-stored l (ground arith) in
        let h' = rw e at h in
        let kept = other l j (ground arith) lt' (λ e. absurd (omega (arith, e, le))) h' in
        rw (node-stored (kid l j) (kid-below l j le lt').1)
          (w.linked l j le lt' h' (rw (e, kept) at valid));
  }
