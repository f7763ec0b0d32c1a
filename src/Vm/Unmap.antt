-- ===== src/Vm/Unmap.antt =====
-- kernel/mm/vm.c: `uvmunmap` of pages whose physical memory is kept.
use tatak_os.Base.{
  ℕ, zero, suc, ◌+◌, ◌*◌, ◌/◌, ◌%◌, ◌^◌, ◌≡◌, ◌≢◌, ◌≤◌, ◌<◌, ◌∙◌, inl, inr, refl, sym, true, false,
  List, arith, ◌==◌, some, leb, ltb, ◌&&◌, if◌then◌else◌, Bool-cases,
}
use tatak_os.Kalloc.{Kmem, page_size}
use tatak_os.Vm.{has_v, pte_flags, max_va, entry, store}
use tatak_os.Vm.Lookup.{walk-lookup}
use tatak_os.Vm.Nodes.{first0, node, leaf, IsTree}
use tatak_os.Vm.Store.{leaf-there, leaf-none, leaf-stored, store-IsTree}
use tatak_os.Vm.User.{unmap_page, unmap_from, uvmunmap}
use tatak_os.Vm.Walk.{pages}

-- The entries without the pages from `v` on, `n` of them.
abbrev pub without : ℕ → ℕ → (ℕ → ℕ) → ℕ → ℕ
without v n leaves u = if leb v u && ltb u (v + n) then 0 else leaves u

-- A page that is mapped, by an entry that is a leaf.
abbrev pub IsLeaf : ℕ → Type 0
IsLeaf e = (has_v e ≡ true) × (pte_flags e ≢ 1)

module _ (kernel_end root : ℕ) (ps : List ℕ) where
  pub record IsUnmapped (k : Kmem) (v n : ℕ) (k' : Kmem) : Type 0 where
    pub tree : IsTree kernel_end root k' ps
    pub leaves : (u : ℕ) → u < pages → leaf k'.memory root u ≡ without v n (leaf k.memory root) u

  without-one : (v u : ℕ) (leaves : ℕ → ℕ) → (if v == u then 0 else leaves u) ≡ without v 1 leaves u
  without-one v u leaves = ground arith

  unmap_page-ok :
      (k : Kmem) (v : ℕ)
      → IsTree kernel_end root k ps
      → page_size * v < max_va
      → IsLeaf (leaf k.memory root v)
      → (k' : Kmem) × (unmap_page kernel_end root (page_size * v) false k ≡ some k')
        × IsUnmapped k v 1 k'
  unfolding unmap_page
  unmap_page-ok k v w lt (valid, flags) =
      let z : page_size * v / 2 ^ 12 ≡ v = omega arith in
      let (r, e, looks) = rw z at (walk-lookup kernel_end root k ps w (page_size * v) lt) in
      elim looks [
        | inl (q, gone) ↦
            absurd (let v' = rw (leaf-none k.memory root v gone) at valid in ground (arith, v'))
        | inr (q, there) ↦
            let pte = entry (node k.memory root (first0 + v / 512)) (v % 512) in
            let z2 : (pte == 0) ≡ false = ground (arith, there) in
            let at = leaf-there k.memory root v there in
            let valid' = rw at at valid in
            let flags' : (pte_flags (k.memory pte) == 1) ≡ false = ground (arith, flags, at) in
            (
              store pte 0 k,
              rw (unmap_page, e, q, z2, valid', flags') refl,
              record {
                tree = store-IsTree kernel_end root k ps w v 0 (omega (arith, lt)) there;
                leaves = λ u le.
                    leaf-stored kernel_end root k ps w v 0 (omega (arith, lt)) there u le
                    ∙ without-one v u (leaf k.memory root);
              },
            )
      ]

  without-join :
      (v u n : ℕ) (old new : ℕ → ℕ)
      → new u ≡ without v 1 old u
      → without (v + 1) n new u ≡ without v (suc n) old u
  without-join v u n old new e = elim (Bool-cases (v == u)) [
    | inl q ↦
        let a : without (v + 1) n new u ≡ new u = ground arith in
        let b : without v 1 old u ≡ 0 = ground arith in
        let c : without v (suc n) old u ≡ 0 = ground arith in a ∙ e ∙ b ∙ sym c
    | inr q ↦
        let b : without v 1 old u ≡ old u = ground arith in
        let same : new u ≡ old u = e ∙ b in rw same (ground (arith, q))
  ]

  unmap_from-more :
      (fuel a end : ℕ) (k k1 : Kmem)
      → ltb a end ≡ true
      → unmap_page kernel_end root a false k ≡ some k1
      → unmap_from kernel_end (suc fuel) root a end false k
        ≡ unmap_from kernel_end fuel root ((a + page_size) % 2 ^ 64) end false k1
  unfolding unmap_from
  unmap_from-more fuel a end k k1 lt e = rw (unmap_from, lt, e) refl

  unmap_from-ok :
      (n : ℕ) (k : Kmem) (v : ℕ)
      → IsTree kernel_end root k ps
      → page_size * (v + n) ≤ max_va
      → ((u : ℕ) → v ≤ u → u < v + n → IsLeaf (leaf k.memory root u))
      → (k' : Kmem) × (unmap_from kernel_end
            (suc n)
            root
            (page_size * v)
            (page_size * (v + n))
            false
            k
          ≡ some k')
        × IsUnmapped k v n k'
  unfolding unmap_from
  unmap_from-ok zero k v w le full =
      let z : ltb (page_size * v) (page_size * (v + 0)) ≡ false = ground arith in
      (k, rw (unmap_from, z) refl, record { tree = w; leaves = λ u le. ground arith })
  unmap_from-ok (suc n) k v w le full =
      let (k1, e, x) =
        unmap_page-ok k v w (omega (arith, le)) (full v (omega arith) (omega arith)) in
      let (k2, e2, x2) = unmap_from-ok n k1 (v + 1) x.tree (omega (arith, le)) λ u le' lt.
        let before = x.leaves u (omega (arith, lt, le)) in
        let same : without v 1 (leaf k.memory root) u ≡ leaf k.memory root u =
          ground (arith, le') in
        rw (before, same) (full u (omega arith) (omega (arith, lt))) in
      let z : ltb (page_size * v) (page_size * (v + suc n)) ≡ true = ground arith in
      let next : (page_size * v + page_size) % 2 ^ 64 ≡ page_size * (v + 1) = omega (arith, le) in
      let end : page_size * (v + 1 + n) ≡ page_size * (v + suc n) = omega arith in
      (
        k2,
        rw (unmap_from-more (suc n) (page_size * v) (page_size * (v + suc n)) k k1 z e, next)
            (rw end at e2),
        record {
          tree = x2.tree;
          leaves = λ u le'.
              x2.leaves u le'
              ∙ without-join v u n (leaf k.memory root) (leaf k1.memory root) (x.leaves u le');
        },
      )

  -- `uvmunmap` of whole pages below MAXVA that are all mapped, without `do_free`: it does not
  -- panic, clears exactly the entries of these pages, and leaves a page table.
  pub uvmunmap_lem :
      (k : Kmem) (v n : ℕ)
      → IsTree kernel_end root k ps
      → page_size * (v + n) ≤ max_va
      → ((u : ℕ) → v ≤ u → u < v + n → IsLeaf (leaf k.memory root u))
      → (k' : Kmem) × (uvmunmap kernel_end root (page_size * v) n false k ≡ some k')
        × IsUnmapped k v n k'
  unfolding uvmunmap
  uvmunmap_lem k v n w le full =
      let z : (page_size * v % page_size == 0) ≡ true = ground arith in
      let end : (page_size * v + n * page_size) % 2 ^ 64 ≡ page_size * (v + n) =
        omega (arith, le) in
      rw (uvmunmap, z, end) (unmap_from-ok n k v w le full)
