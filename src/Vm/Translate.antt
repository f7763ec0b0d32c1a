-- ===== src/Vm/Translate.antt =====
-- kernel/mm/vm.c: the addresses that `mappages` has mapped, as `walkaddr` translates them.
use tatak_os.Base.{
  ℕ, ◌+◌, ◌-◌, ◌*◌, ◌/◌, ◌^◌, ◌≡◌, ◌≤◌, ◌<◌, ◌∙◌, inl, inr, refl, Bool, true, false, List, arith,
  some, leb, ltb, ◌&&◌, if◌then◌else◌, Bool-cases, length,
}
use tatak_os.Kalloc.{Kmem, page_size}
use tatak_os.Vm.{has_v, has_u, pa2pte, pte2pa, or_v, max_va, mappages, walkaddr}
use tatak_os.Vm.Lookup.{walkaddr_lem}
use tatak_os.Vm.Mapping.{IsMapped}
use tatak_os.Vm.Nodes.{leaf, IsTree}
use tatak_os.Vm.Ranges.{last_page, page_count, mappages_lem}

-- The fields of an entry for user space.
entry-fields :
    (p perm : ℕ)
    → p < 2 ^ 64
    → perm < 2 ^ 10
    → has_u perm ≡ true
    → let e = pa2pte p + or_v perm in
      (has_v e ≡ true) × (has_u e ≡ true) × (pte2pa e ≡ p / page_size * page_size)
entry-fields p perm lt le user = elim (Bool-cases (has_v perm)) [
  | inl v ↦ rw v (ground arith, ground arith, ground arith)
  | inr v ↦ rw v (ground arith, ground arith, ground arith)
]

-- Whether the page of `x` is in the range.
abbrev pub in_range : ℕ → ℕ → ℕ → Bool
in_range va size x = leb (va / page_size) (x / page_size) && leb (x / page_size) (last_page va size)

module _ (kernel_end root : ℕ) (k k' : Kmem) (ps ps' : List ℕ) (va size pa perm : ℕ)
    (w : IsTree kernel_end root k ps)
    (m : IsMapped kernel_end root k ps
      (page_count va size)
      (va / page_size)
      pa
      perm
      true
      k'
      ps'
      (page_count va size)) where
  translated :
      (x : ℕ)
      → x < max_va
      → 0 < size
      → pa + size + page_size ≤ 2 ^ 64
      → perm < 2 ^ 10
      → has_u perm ≡ true
      → walkaddr root x k' ≡ (
          if in_range va size x
          then (pa / page_size + (x / page_size - va / page_size)) * page_size
          else walkaddr root x k)
  translated x lt pos top le user =
      let here = m.leaves (x / page_size) (omega (arith, lt)) in
      let now = walkaddr_lem kernel_end root k' ps' m.tree x lt in
      let n = va / page_size in
      let p = pa + page_size * (x / page_size - n) in
      elim (Bool-cases (in_range va size x)) [
        | inl r ↦
            let near : (n ≤ x / page_size) × (x / page_size ≤ last_page va size) =
              (ground (arith, r), ground (arith, r)) in
            let c : (leb n (x / page_size) && ltb (x / page_size) (n + page_count va size)) ≡ true =
              ground (arith, near) in
            let (valid, user', back) =
              entry-fields p perm (omega (arith, near, top, pos)) le user in
            rw (r, now, here, c, valid, user') (back ∙ omega (arith, near))
        | inr r ↦
            let c : (leb n (x / page_size) && ltb (x / page_size) (n + page_count va size))
                ≡ false =
              ground (arith, r, pos) in
            rw (r, now, here, c, walkaddr_lem kernel_end root k ps w x lt) refl
      ]

-- `mappages` of pages for user space that are not mapped yet, with two free pages for each,
-- succeeds, and then `walkaddr` translates every address of these pages to its physical page, and
-- every other address as before.
pub walkaddr-mappages :
    (kernel_end root : ℕ) (k : Kmem) (ps : List ℕ) (va size pa perm : ℕ)
    → 0 < kernel_end
    → IsTree kernel_end root k ps
    → 0 < size
    → va + size ≤ max_va
    → pa + size + page_size ≤ 2 ^ 64
    → perm < 2 ^ 10
    → has_u perm ≡ true
    → 2 * page_count va size ≤ length ps
    → ((u : ℕ) → va / page_size ≤ u → u ≤ last_page va size → has_v (leaf k.memory root u) ≡ false)
    → (k' : Kmem) × (mappages root va size pa perm k ≡ some (true, k'))
      × ((x : ℕ)
          → x < max_va
          → walkaddr root x k' ≡ (
              if in_range va size x
              then (pa / page_size + (x / page_size - va / page_size)) * page_size
              else walkaddr root x k))
walkaddr-mappages kernel_end root k ps va size pa perm start w pos top top' le user room free =
    let (b, k', ps', j, e, m) =
      mappages_lem kernel_end root k ps va size pa perm start w pos top top' free in
    elim (Bool-cases b) [
      | inl done ↦
          let (all, spent) = m.whole done in
          (
            k',
            rw done at e,
            λ x lt.
                translated kernel_end root k k' ps ps' va size pa perm w (rw (done, all) at m) x lt
                  pos top' le user,
          )
      | inr stop ↦
          let (less, none_left, most) = m.partly stop in absurd (omega (arith, less, most, room))
    ]
