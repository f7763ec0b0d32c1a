-- ===== src/Vm/Create.antt =====
-- kernel/mm/vm.c: `uvmcreate` makes a page table with no pages.
use tatak_os.Base.{
  ℕ, ◌+◌, ◌/◌, ◌≡◌, ◌≢◌, ◌<◌, ◌⊎◌, inl, inr, refl, sym, ◌∙◌, false, List, ◌∷◌, arith, ◌==◌,
}
use tatak_os.Kalloc.{Memory, Kmem, kalloc}
use tatak_os.Kalloc.FreeList.{
  All, All-map, All-both, IsPage, Represents, IsChain-same, kalloc_lem, fill_other,
}
use tatak_os.Vm.{entry, clear_page, uvmcreate}
use tatak_os.Vm.Nodes.{
  first0, tables, node, kid, leaf, IsTree, node_root, node-kid, parent, child-empty, child-none,
}
use tatak_os.Vm.Store.{leaf-none}
use tatak_os.Vm.Walk.{pages}

module _ (m : Memory) (root : ℕ) (empty : (i : ℕ) → i < 512 → m (entry root i) ≡ 0) where
  kid-none :
      (n i : ℕ) → n < first0 → i < 512 → (n ≡ 0) ⊎ (node m root n ≡ 0) → node m root (kid n i) ≡ 0
  kid-none n i lt lt' (inl e) =
      rw (node-kid m root n i lt lt', e, node_root m root) (child-empty m root i (empty i lt'))
  kid-none n i lt lt' (inr e) = rw (node-kid m root n i lt lt', e) (child-none m i)

  upper-none : (n : ℕ) → n < first0 → (n ≡ 0) ⊎ (node m root n ≡ 0)
  upper-none n lt = elim (parent n (ground arith)) [
    | inl e ↦ inl e
    | inr (q, i, lt1, lt2, e) ↦
        let z : q ≡ 0 = ground (arith, e, lt, lt1) in inr (rw e (kid-none q i lt1 lt2 (inl z)))
  ]

  -- The root is the only table.
  pub node-empty : (l : ℕ) → l < tables → (l ≡ 0) ⊎ (node m root l ≡ 0)
  node-empty l lt = elim (parent l lt) [
    | inl e ↦ inl e
    | inr (q, i, lt1, lt2, e) ↦ inr (rw e (kid-none q i lt1 lt2 (upper-none q lt1)))
  ]

  pub leaf-empty : (v : ℕ) → v < pages → leaf m root v ≡ 0
  leaf-empty v lt = elim (node-empty (first0 + v / 512) (omega (arith, lt))) [
    | inl e ↦ absurd (omega (arith, e))
    | inr e ↦ leaf-none m root v e
  ]

pub empty-IsTree :
    (kernel_end root : ℕ) (k : Kmem) (ps : List ℕ)
    → Represents kernel_end k ps
    → IsPage kernel_end root
    → root ≢ 0
    → All (λ p. p ≢ root) ps
    → ((i : ℕ) → i < 512 → k.memory (entry root i) ≡ 0)
    → IsTree kernel_end root k ps
empty-IsTree kernel_end root k ps r page pos fresh empty =
    let only = node-empty k.memory root empty in
    let top = node_root k.memory root in
    record {
      free = r;
      rooted = pos;
      page = λ l lt h. elim (only l lt) [ inl e ↦ rw (e, top) page | inr e ↦ absurd (h e) ];
      taken = λ l lt h. elim (only l lt) [ inl e ↦ rw (e, top) fresh | inr e ↦ absurd (h e) ];
      apart = λ l q lt lt' h same. elim (only l lt) [
        | inl e ↦ elim (only q lt') [ inl e' ↦ e ∙ sym e' | inr e' ↦ absurd (h (same ∙ e')) ]
        | inr e ↦ absurd (h e)
      ];
      linked = λ l i lt lt' h v. elim (only l (ground arith)) [
        | inl e ↦ absurd (let z = empty i lt' in let v' = rw (e, top, z) at v in ground (arith, v'))
        | inr e ↦ absurd (h e)
      ];
    }

-- `uvmcreate` takes the first free page, and makes it a page table without pages.
pub uvmcreate_lem :
    (kernel_end : ℕ) (k : Kmem) (p : ℕ) (ps : List ℕ)
    → 0 < kernel_end
    → Represents kernel_end k (p ∷ ps)
    → (k' : Kmem) × (uvmcreate k ≡ (p, k'))
      × IsTree kernel_end p k' ps
      × ((v : ℕ) → v < pages → leaf k'.memory p v ≡ 0)
unfolding uvmcreate
uvmcreate_lem kernel_end k p ps start r =
    let (pos, e, r1, q) = kalloc_lem kernel_end k (p ∷ ps) start r in
    let k1 = (kalloc k).1 in
    let k' : Kmem = clear_page p k1 in
    let z : (p == 0) ≡ false = ground arith in
    let empty : (i : ℕ) → i < 512 → k'.memory (entry p i) ≡ 0 = λ i lt. ground arith in
    let fresh = r.distinct.0 in
    let same : All (λ a. k'.memory a ≡ k1.memory a) ps =
      All-map (λ a. IsPage kernel_end a × (a ≢ p)) (λ a. k'.memory a ≡ k1.memory a)
        (λ a (page, ne). fill_other kernel_end k1.memory p a 0 r.pages.0 page ne) ps
        (All-both (IsPage kernel_end) (λ a. a ≢ p) ps r1.pages fresh) in
    let free : Represents kernel_end k' ps = record {
      chain = IsChain-same k1.memory k'.memory ps k1.freelist same r1.chain;
      pages = r1.pages;
      distinct = r1.distinct;
    } in
    (
      k',
      rw (uvmcreate, e, z) refl,
      empty-IsTree kernel_end p k' ps free r.pages.0 pos fresh empty,
      leaf-empty k'.memory p empty,
    )
