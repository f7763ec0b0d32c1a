-- ===== src/Vm/Lookup.antt =====
-- kernel/mm/vm.c: `walkaddr` reads the entry of the page.
use tatak_os.Base.{
  ℕ, ◌+◌, ◌/◌, ◌^◌, ◌≡◌, ◌≢◌, ◌<◌, ◌⊎◌, inl, inr, refl, ◌∙◌, false, not, none, some, List, arith,
  leb, ◌==◌, ◌&&◌, if◌then◌else◌, Bool-cases,
}
use tatak_os.Kalloc.{Kmem, page_size}
use tatak_os.Vm.{has_v, has_u, entry, pte2pa, px, max_va, descend, walk_from, walk, walkaddr}
use tatak_os.Vm.Nodes.{
  first0, node, kid, child-valid, child-invalid, leaf, IsTree, node_root, node-kid, child-none,
}
use tatak_os.Vm.Store.{leaf-there, leaf-none}
use tatak_os.Vm.Walk.{level0, walk_from-none, walk_from-some}

guards :
    (e : ℕ)
    → (if not (has_v e) then 0 else if not (has_u e) then 0 else pte2pa e)
      ≡ (if has_v e && has_u e then pte2pa e else 0)
guards e = ground arith

module _ (kernel_end root : ℕ) (k : Kmem) (ps : List ℕ) (w : IsTree kernel_end root k ps) where
  descend-lookup :
      (n i : ℕ)
      → n < first0
      → i < 512
      → node k.memory root n ≢ 0
      → (descend false (entry (node k.memory root n) i) k ≡ (none, k))
          × (node k.memory root (kid n i) ≡ 0)
        ⊎ ((descend false (entry (node k.memory root n) i) k
              ≡ (some (node k.memory root (kid n i)), k))
            × (node k.memory root (kid n i) ≢ 0))
  unfolding descend
  descend-lookup n i lt lt' pos =
      let at = node-kid k.memory root n i lt lt' in
      elim (Bool-cases (has_v (k.memory (entry (node k.memory root n) i)))) [
        | inl v ↦
            let named = child-valid k.memory (node k.memory root n) i pos v in
            inr (rw (v, at, named) refl, w.linked n i lt lt' pos v)
        | inr v ↦ inl (rw v refl, at ∙ child-invalid k.memory (node k.memory root n) i v)
      ]

  -- The table of the page of `va`.
  abbrev pub table : ℕ → ℕ
  table va = node k.memory root (first0 + va / 2 ^ 12 / 512)

  abbrev pub Looks : ℕ → ℕ × Kmem → Type 0
  Looks va r =
      (r ≡ (0, k)) × (table va ≡ 0) ⊎ ((r ≡ (entry (table va) (px 0 va), k)) × (table va ≢ 0))

  lookup-level1 :
      (va t : ℕ)
      → va < max_va
      → t ≡ node k.memory root (kid 0 (px 2 va))
      → t ≢ 0
      → Looks va (walk_from 1 t va false k)
  unfolding walk_from
  lookup-level1 va t lt at pos =
      let low = level0 va lt in
      elim (descend-lookup (kid 0 (px 2 va)) (px 1 va) (omega arith) (omega arith)
        (rw (← at) pos)) [
          | inl (e, z) ↦ inl (walk_from-none 0 t va false k k (rw at e), rw low at z)
          | inr (e, z) ↦
              inr (walk_from-some 0 t va (table va) false k k (rw (at, ← low) e), rw low at z)
        ]

  lookup-level2 : (va : ℕ) → va < max_va → Looks va (walk_from 2 root va false k)
  lookup-level2 va lt =
      let top = node_root k.memory root in
      let low = level0 va lt in
      elim (descend-lookup 0 (px 2 va) (omega arith) (omega arith) (rw top w.rooted)) [
        | inl (e, z) ↦ inl (
          walk_from-none 1 root va false k k (rw top at e),
          rw
              (
                ← low,
                node-kid k.memory root (kid 0 (px 2 va)) (px 1 va) (omega arith) (omega arith),
                z,
              )
              (child-none k.memory (px 1 va)),
        )
        | inr (e, z) ↦
            let t = node k.memory root (kid 0 (px 2 va)) in
            rw (walk_from-some 1 root va t false k k (rw top at e)) (lookup-level1 va t lt refl z)
      ]

  -- `walk` without `alloc` changes nothing.
  pub walk-lookup :
      (va : ℕ) → va < max_va → (r : ℕ × Kmem) × (walk root va false k ≡ some r) × Looks va r
  unfolding walk
  walk-lookup va lt =
      let z : leb max_va va ≡ false = ground arith in
      (walk_from 2 root va false k, rw z refl, lookup-level2 va lt)

  -- The translation of an address by the entry of its page.
  pub walkaddr_lem :
      (va : ℕ)
      → va < max_va
      → let e = leaf k.memory root (va / page_size) in
        walkaddr root va k ≡ (if has_v e && has_u e then pte2pa e else 0)
  unfolding walkaddr
  walkaddr_lem va lt =
      let z : leb max_va va ≡ false = ground arith in
      elim (lookup-level2 va lt) [
        | inl (e, gone) ↦ rw (walkaddr, z, e, leaf-none k.memory root (va / page_size) gone) refl
        | inr (e, there) ↦
            let z2 : (entry (table va) (px 0 va) == 0) ≡ false = ground (arith, there) in
            rw (walkaddr, z, e, z2, leaf-there k.memory root (va / page_size) there)
              (guards (k.memory (entry (table va) (px 0 va))))
      ]
