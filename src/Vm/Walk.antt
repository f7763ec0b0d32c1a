-- ===== src/Vm/Walk.antt =====
-- kernel/mm/vm.c: `walk` finds the entry of a page, and makes the tables on the way.
use tatak_os.Base.{
  ℕ, suc, ◌+◌, ◌*◌, ◌/◌, ◌%◌, ◌^◌, ◌≡◌, ◌≢◌, ◌≤◌, ◌<◌, ◌⊎◌, inl, inr, refl, ap, ◌∙◌, Bool, true,
  false, none, some, List, [], ◌∷◌, arith, leb, ◌==◌, Bool-cases, length,
}
use tatak_os.Kalloc.{Kmem, kalloc}
use tatak_os.Kalloc.FreeList.{Allocates, kalloc_lem}
use tatak_os.Vm.{has_v, entry, descend, walk_from, walk, px, max_va}
use tatak_os.Vm.Nodes.{first0, node, kid, kid-below, leaf, IsTree, node_root, node-kid, child-valid}
use tatak_os.Vm.Grow.{Growth, grown, grown-node}
use tatak_os.Vm.Grown.{grown-leaf, grown-IsTree}

-- All pages below 2 ^ 39.
abbrev pub pages : ℕ
pages = 512 * (512 * 512)

-- The positions on the way to page `va / 2 ^ 12`.
pub level0 : (va : ℕ) → va < max_va → kid (kid 0 (px 2 va)) (px 1 va) ≡ first0 + va / 2 ^ 12 / 512
level0 va lt = ground arith

pub walk_from-none :
    (l table va : ℕ) (alloc : Bool) (k k1 : Kmem)
    → descend alloc (entry table (px (suc l) va)) k ≡ (none, k1)
    → walk_from (suc l) table va alloc k ≡ (0, k1)
unfolding walk_from
walk_from-none l table va alloc k k1 e = rw (walk_from, ap (λ r. r.0) e, ap (λ r. r.1) e) refl

pub walk_from-some :
    (l table va t : ℕ) (alloc : Bool) (k k1 : Kmem)
    → descend alloc (entry table (px (suc l) va)) k ≡ (some t, k1)
    → walk_from (suc l) table va alloc k ≡ walk_from l t va alloc k1
unfolding walk_from
walk_from-some l table va t alloc k k1 e = rw (walk_from, ap (λ r. r.0) e, ap (λ r. r.1) e) refl

module _ (kernel_end : ℕ) (root : ℕ) where
  -- A page table with the same pages, for at most `c` pages of memory.
  pub record IsExtended (k : Kmem) (ps : List ℕ) (c : ℕ) (k' : Kmem) (ps' : List ℕ) : Type 0 where
    pub tree : IsTree kernel_end root k' ps'
    pub same : (v : ℕ) → v < pages → leaf k'.memory root v ≡ leaf k.memory root v
    pub spent : length ps ≤ length ps' + c

  -- The table that `descend` goes to.
  abbrev pub IsNext : ℕ → ℕ → Kmem → List ℕ → Kmem → List ℕ → Type 0
  IsNext n i k ps k' ps' =
      (descend true (entry (node k.memory root n) i) k ≡ (some (node k'.memory root (kid n i)), k'))
      × (node k'.memory root (kid n i) ≢ 0)
      × IsExtended k ps 1 k' ps'

  descend-new :
      (k : Kmem) (ps : List ℕ) (n i : ℕ)
      → 0 < kernel_end
      → IsTree kernel_end root k ps
      → n < first0
      → i < 512
      → node k.memory root n ≢ 0
      → has_v (k.memory (entry (node k.memory root n) i)) ≡ false
      → Allocates kernel_end k ps
      → (descend true (entry (node k.memory root n) i) k ≡ (none, k)) × (ps ≡ [])
        ⊎ ((k' : Kmem) × (ps' : List ℕ) × IsNext n i k ps k' ps')
  unfolding descend
  descend-new k [] n i start w lt lt' pos v a = inl (rw (v, a) refl, refl)
  descend-new k (p ∷ ps) n i start w lt lt' pos v (ne, e, r, q) =
      let g : Growth kernel_end root k p ps n i = record {
        start = start;
        tree = w;
        low = lt;
        narrow = lt';
        pos = pos;
        free = v;
      } in
      let k1 = (kalloc k).1 in
      let k' : Kmem = record k1 { memory = grown k.memory p (entry (node k.memory root n) i) } in
      let new : node k'.memory root (kid n i) ≡ p =
        (let here = grown-node g (kid n i) (kid-below n i lt lt').1 in
          here ∙ (let z : (kid n i == kid n i) ≡ true = ground arith in rw z refl)) in
      let z : (p == 0) ≡ false = ground arith in
      inr (
        k',
        ps,
        (
          rw (v, e, z, new, q) refl,
          rw new ne,
          record { tree = grown-IsTree g k1 r q; same = grown-leaf g; spent = omega arith },
        ),
      )

  descend-ok :
      (k : Kmem) (ps : List ℕ) (n i : ℕ)
      → 0 < kernel_end
      → IsTree kernel_end root k ps
      → n < first0
      → i < 512
      → node k.memory root n ≢ 0
      → (descend true (entry (node k.memory root n) i) k ≡ (none, k)) × (ps ≡ [])
        ⊎ ((k' : Kmem) × (ps' : List ℕ) × IsNext n i k ps k' ps')
  unfolding descend
  descend-ok k ps n i start w lt lt' pos =
      elim (Bool-cases (has_v (k.memory (entry (node k.memory root n) i)))) [
        | inl v ↦
            let named = child-valid k.memory (node k.memory root n) i pos v in
            let named' = node-kid k.memory root n i lt lt' in
            inr (
              k,
              ps,
              (
                rw (v, named', named) refl,
                w.linked n i lt lt' pos v,
                record { tree = w; same = λ v lt. refl; spent = omega arith },
              ),
            )
        | inr v ↦
            descend-new k ps n i start w lt lt' pos v (kalloc_lem kernel_end k ps start w.free)
      ]

  -- What `walk` returns and leaves behind.
  pub record IsFound (k : Kmem) (ps : List ℕ) (v : ℕ) (a : ℕ) (k' : Kmem) (ps' : List ℕ)
      : Type 0 where
    pub extended : IsExtended k ps 2 k' ps'
    pub there : node k'.memory root (first0 + v / 512) ≢ 0
    pub entered : a ≡ entry (node k'.memory root (first0 + v / 512)) (v % 512)

  IsExtended-trans :
      (k k1 k2 : Kmem) (ps ps1 ps2 : List ℕ)
      → IsExtended k ps 1 k1 ps1
      → IsExtended k1 ps1 1 k2 ps2
      → IsExtended k ps 2 k2 ps2
  IsExtended-trans k k1 k2 ps ps1 ps2 e e2 = record {
    tree = e2.tree;
    same = λ v lt. e2.same v lt ∙ e.same v lt;
    spent = let a = e.spent in let b = e2.spent in omega (arith, a, b);
  }

  -- A failure with no page left, or the entry of page `v`.
  abbrev pub Walks : Kmem → List ℕ → ℕ → ℕ × Kmem → Type 0
  Walks k ps v r =
      ((k' : Kmem) × (r ≡ (0, k')) × IsExtended k ps 1 k' [])
      ⊎ ((a : ℕ) × (k' : Kmem) × (ps' : List ℕ) × (r ≡ (a, k')) × IsFound k ps v a k' ps')

  IsExtended-none :
      (k k' : Kmem) (ps ps' : List ℕ)
      → ps' ≡ []
      → (c : ℕ) → c ≤ 1
      → IsExtended k ps c k' ps'
      → IsExtended k ps 1 k' []
  IsExtended-none k k' ps ps' z c le e =
      rw (← z)
        (record { tree = e.tree; same = e.same; spent = let a = e.spent in omega (arith, a, le) })

  walk-level1 :
      (k k1 : Kmem) (ps ps1 : List ℕ) (va t : ℕ)
      → 0 < kernel_end
      → va < max_va
      → t ≡ node k1.memory root (kid 0 (px 2 va))
      → t ≢ 0
      → IsExtended k ps 1 k1 ps1
      → Walks k ps (va / 2 ^ 12) (walk_from 1 t va true k1)
  unfolding walk_from
  walk-level1 k k1 ps ps1 va t start lt at pos x =
      elim (descend-ok k1 ps1 (kid 0 (px 2 va)) (px 1 va) start x.tree (omega arith) (omega arith)
        (rw (← at) pos)) [
          | inl (none_left, z) ↦ inl (
            k1,
            walk_from-none 0 t va true k1 k1 (rw at none_left),
            IsExtended-none k k1 ps ps1 z 1 (omega arith) x,
          )
          | inr (k2, ps2, (e2, pos2, x2)) ↦
              let low = level0 va lt in
              let t2 = node k2.memory root (kid (kid 0 (px 2 va)) (px 1 va)) in
              inr (
                entry t2 (px 0 va),
                k2,
                ps2,
                walk_from-some 0 t va t2 true k1 k2 (rw at e2),
                record {
                  extended = IsExtended-trans k k1 k2 ps ps1 ps2 x x2;
                  there = rw low at pos2;
                  entered = rw low refl;
                },
              )
        ]

  walk-level2 :
      (k : Kmem) (ps : List ℕ) (va : ℕ)
      → 0 < kernel_end
      → IsTree kernel_end root k ps
      → va < max_va
      → Walks k ps (va / 2 ^ 12) (walk_from 2 root va true k)
  walk-level2 k ps va start w lt =
      let top = node_root k.memory root in
      elim (descend-ok k ps 0 (px 2 va) start w (omega arith) (omega arith) (rw top w.rooted)) [
        | inl (none_left, e) ↦ inl (
          k,
          walk_from-none 1 root va true k k (rw top at none_left),
          IsExtended-none k k ps ps e 0 (omega arith)
              (record { tree = w; same = λ v lt. refl; spent = omega arith }),
        )
        | inr (k1, ps1, (e, pos, x)) ↦
            let t = node k1.memory root (kid 0 (px 2 va)) in
            rw (walk_from-some 1 root va t true k k1 (rw top at e))
              (walk-level1 k k1 ps ps1 va t start lt refl pos x)
      ]

  -- `walk` with `alloc`: it fails when no page is left, and else returns the entry of the page.
  pub walk_lem :
      (k : Kmem) (ps : List ℕ) (va : ℕ)
      → 0 < kernel_end
      → IsTree kernel_end root k ps
      → va < max_va
      → (r : ℕ × Kmem) × (walk root va true k ≡ some r) × Walks k ps (va / 2 ^ 12) r
  unfolding walk
  walk_lem k ps va start w lt =
      let z : leb max_va va ≡ false = ground arith in
      (walk_from 2 root va true k, rw z refl, walk-level2 k ps va start w lt)
