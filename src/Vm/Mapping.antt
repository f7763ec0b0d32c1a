-- ===== src/Vm/Mapping.antt =====
-- kernel/mm/vm.c: `mappages` maps the pages of a range of addresses.
use tatak_os.Base.{
  ℕ, zero, suc, ◌+◌, ◌-◌, ◌*◌, ◌/◌, ◌%◌, ◌^◌, ◌≡◌, ◌≤◌, ◌<◌, inl, inr, refl, sym, ◌∙◌, Bool, true,
  false, Option, some, List, [], arith, leb, ltb, ◌==◌, ◌&&◌, if◌then◌else◌, Bool-cases, length,
}
use tatak_os.Kalloc.{Kmem, page_size}
use tatak_os.Vm.{has_v, entry, store, pa2pte, or_v, max_va, walk, map_page, map_pages}
use tatak_os.Vm.Nodes.{first0, node, leaf, IsTree}
use tatak_os.Vm.Store.{leaf-there, leaf-stored, store-IsTree}
use tatak_os.Vm.Walk.{pages, IsExtended, IsFound, walk_lem}

-- The entries after pages from `v` on, `j` of them, have been mapped to the addresses from `pa` on.
abbrev pub mapped : ℕ → ℕ → ℕ → ℕ → (ℕ → ℕ) → ℕ → ℕ
mapped v j pa perm leaves u =
    if leb v u && ltb u (v + j) then pa2pte (pa + page_size * (u - v)) + or_v perm else leaves u

module _ (kernel_end : ℕ) (root : ℕ) where
  -- `n` pages from `v` on were to be mapped, and the result is `b`: they have been, or there was no
  -- memory left after `j` of them.
  pub record IsMapped (k : Kmem) (ps : List ℕ) (n v pa perm : ℕ) (b : Bool) (k' : Kmem)
      (ps' : List ℕ) (j : ℕ) : Type 0 where
    pub tree : IsTree kernel_end root k' ps'
    pub leaves :
        (u : ℕ) → u < pages → leaf k'.memory root u ≡ mapped v j pa perm (leaf k.memory root) u
    pub whole : b ≡ true → (j ≡ n) × (length ps ≤ length ps' + 2 * j)
    pub partly : b ≡ false → (j < n) × (ps' ≡ []) × (length ps ≤ 2 * j + 1)

  abbrev pub Maps : Kmem → List ℕ → ℕ → ℕ → ℕ → ℕ → Option (Bool × Kmem) → Type 0
  Maps k ps n v pa perm r =
      (b : Bool) × (k' : Kmem) × (ps' : List ℕ) × (j : ℕ) × (r ≡ some (b, k'))
      × IsMapped k ps n v pa perm b k' ps' j

  one-page :
      (v u pa perm : ℕ) (leaves : ℕ → ℕ)
      → (if v == u then pa2pte pa + or_v perm else leaves u) ≡ mapped v 1 pa perm leaves u
  one-page v u pa perm leaves = ground arith

  map_page-found :
      (k k1 : Kmem) (ps ps1 : List ℕ) (va v pa perm a : ℕ)
      → va ≡ page_size * v
      → v < pages
      → walk root va true k ≡ some (a, k1)
      → has_v (leaf k.memory root v) ≡ false
      → IsFound kernel_end root k ps v a k1 ps1
      → Maps k ps 1 v pa perm (map_page root va pa perm k)
  unfolding map_page
  map_page-found k k1 ps ps1 va v pa perm a at lt e free f =
      let pte : ℕ = entry (node k1.memory root (first0 + v / 512)) (v % 512) in
      let entered : a ≡ pte = f.entered in
      let there = f.there in
      let z : (pte == 0) ≡ false = ground (arith, there) in
      let unused : has_v (k1.memory pte) ≡ false =
        rw (sym (leaf-there k1.memory root v there) ∙ f.extended.same v lt) free in
      (
        true,
        store pte (pa2pte pa + or_v perm) k1,
        ps1,
        1,
        rw (map_page, e, entered, z, unused) refl,
        record {
          tree =
              store-IsTree kernel_end root k1 ps1 f.extended.tree v (pa2pte pa + or_v perm) lt
                there;
          leaves = λ u le.
              leaf-stored kernel_end root k1 ps1 f.extended.tree v (pa2pte pa + or_v perm) lt there
                u le
              ∙ rw (f.extended.same u le) (one-page v u pa perm (leaf k.memory root));
          whole = λ e. (refl, let s = f.extended.spent in omega (arith, s));
          partly = λ e. absurd (ground (arith, e));
        },
      )

  map_page-none :
      (k k1 : Kmem) (ps : List ℕ) (va v pa perm : ℕ)
      → walk root va true k ≡ some (0, k1)
      → IsExtended kernel_end root k ps 1 k1 []
      → Maps k ps 1 v pa perm (map_page root va pa perm k)
  unfolding map_page
  map_page-none k k1 ps va v pa perm e x = (
    false,
    k1,
    [],
    0,
    rw (map_page, e) refl,
    record {
      tree = x.tree;
      leaves = λ u le. x.same u le ∙ ground arith;
      whole = λ e. absurd (ground (arith, e));
      partly = λ e. (omega arith, refl, let s = x.spent in omega (arith, s));
    },
  )

  map_page-ok :
      (k : Kmem) (ps : List ℕ) (v pa perm : ℕ)
      → 0 < kernel_end
      → IsTree kernel_end root k ps
      → page_size * v < max_va
      → has_v (leaf k.memory root v) ≡ false
      → Maps k ps 1 v pa perm (map_page root (page_size * v) pa perm k)
  map_page-ok k ps v pa perm start w lt free =
      let (r, e, h) = walk_lem kernel_end root k ps (page_size * v) start w lt in
      let z : page_size * v / 2 ^ 12 ≡ v = omega arith in
      elim h [
        | inl (k1, q, x) ↦ map_page-none k k1 ps (page_size * v) v pa perm (rw q at e) x
        | inr (a, k1, ps1, q, f) ↦
            map_page-found k k1 ps ps1 (page_size * v) v pa perm a refl (omega (arith, lt))
              (rw q at e) free (rw z at f)
      ]

  mapped-join :
      (v u pa perm j : ℕ) (old new : ℕ → ℕ)
      → new u ≡ mapped v 1 pa perm old u
      → mapped (v + 1) j (pa + page_size) perm new u ≡ mapped v (1 + j) pa perm old u
  mapped-join v u pa perm j old new e = elim (Bool-cases (v == u)) [
    | inl q ↦
        let a : mapped (v + 1) j (pa + page_size) perm new u ≡ new u = ground arith in
        let b : mapped v 1 pa perm old u ≡ mapped v (1 + j) pa perm old u = ground arith in
        a ∙ e ∙ b
    | inr q ↦ elim (Bool-cases (leb (v + 1) u)) [
      | inl r ↦
          let a : leb v u ≡ true = ground arith in
          let at : pa + page_size + page_size * (u - (v + 1)) ≡ pa + page_size * (u - v) =
            (let le : v + 1 ≤ u = ground arith in omega (arith, le)) in
          let b : v + (1 + j) ≡ v + 1 + j = omega arith in
          let c : (leb v u && ltb u (v + 1)) ≡ false = ground arith in
          rw (r, a, at, b) (rw (rw c at e) refl)
      | inr r ↦
          let a : mapped (v + 1) j (pa + page_size) perm new u ≡ new u = rw r refl in
          let b : mapped v 1 pa perm old u ≡ old u = ground arith in
          let c : mapped v (1 + j) pa perm old u ≡ old u = ground arith in a ∙ e ∙ b ∙ sym c
    ]
  ]

  map-more :
      (n : ℕ) (k : Kmem) (ps : List ℕ) (v pa perm : ℕ) (b : Bool) (k1 : Kmem) (ps1 : List ℕ) (j : ℕ)
      → page_size * (v + suc n) < max_va
      → pa + page_size * suc n < 2 ^ 64
      → map_page root (page_size * v) pa perm k ≡ some (b, k1)
      → IsMapped k ps 1 v pa perm b k1 ps1 j
      → (b ≡ true
          → Maps k1 ps1
              (n + 1)
              (v + 1)
              (pa + page_size)
              perm
              (map_pages n root (page_size * (v + 1)) (pa + page_size) perm k1))
      → Maps k ps (suc n + 1) v pa perm (map_pages (suc n) root (page_size * v) pa perm k)
  unfolding map_pages
  map-more n k ps v pa perm false k1 ps1 j lt top e x rest =
      let (less, empty, most) = x.partly refl in
      (
        false,
        k1,
        ps1,
        j,
        rw (map_pages, e) refl,
        record {
          tree = x.tree;
          leaves = x.leaves;
          whole = λ e. absurd (ground (arith, e));
          partly = λ e. (omega (arith, less), empty, most);
        },
      )
  map-more n k ps v pa perm true k1 ps1 j lt top e x rest =
      let (b, k2, ps2, j2, e2, x2) = rest refl in
      let (one, most) = x.whole refl in
      let next : (page_size * v + page_size) % 2 ^ 64 ≡ page_size * (v + 1) = omega (arith, lt) in
      let next_pa : (pa + page_size) % 2 ^ 64 ≡ pa + page_size = omega (arith, top) in
      (
        b,
        k2,
        ps2,
        1 + j2,
        rw (map_pages, e, next, next_pa) e2,
        record {
          tree = x2.tree;
          leaves = λ u le.
              x2.leaves u le
              ∙ mapped-join v u pa perm j2 (leaf k.memory root) (leaf k1.memory root)
                  (rw one at (x.leaves u le));
          whole = λ e. let (a, c) = x2.whole e in (omega (arith, a), omega (arith, c, one, most));
          partly = λ e.
              let (a, c, c') = x2.partly e in (omega (arith, a), c, omega (arith, c', one, most));
        },
      )

  pub map_pages-ok :
      (n : ℕ) (k : Kmem) (ps : List ℕ) (v pa perm : ℕ)
      → 0 < kernel_end
      → IsTree kernel_end root k ps
      → page_size * (v + n) < max_va
      → pa + page_size * n < 2 ^ 64
      → ((u : ℕ) → v ≤ u → u ≤ v + n → has_v (leaf k.memory root u) ≡ false)
      → Maps k ps (n + 1) v pa perm (map_pages n root (page_size * v) pa perm k)
  unfolding map_pages
  map_pages-ok zero k ps v pa perm start w lt top free =
      map_page-ok k ps v pa perm start w (omega (arith, lt)) (free v (omega arith) (omega arith))
  map_pages-ok (suc n) k ps v pa perm start w lt top free =
      let (b, k1, ps1, j, e, x) =
        map_page-ok k ps v pa perm start w (omega (arith, lt))
          (free v (omega arith) (omega arith)) in
      map-more n k ps v pa perm b k1 ps1 j lt top e x λ done.
        map_pages-ok n k1 ps1 (v + 1) (pa + page_size) perm start x.tree (omega (arith, lt))
          (omega (arith, top))
          (λ u le le'.
            let before = x.leaves u (omega (arith, le', lt)) in
            let same : mapped v j pa perm (leaf k.memory root) u ≡ leaf k.memory root u =
              (let one = (x.whole done).0 in ground (arith, one, le)) in
            rw (before, same) (free u (omega arith) (omega arith)))
