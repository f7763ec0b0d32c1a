-- ===== src/Kalloc/Initial.antt =====
-- kernel/mm/kalloc.c: the free list that `kinit` builds.
use tatak_os.Base.{
  ℕ, zero, suc, ◌+◌, ◌-◌, ◌*◌, ◌/◌, ◌%◌, ◌^◌, ◌≡◌, ◌≢◌, inl, inr, ◌≤◌, ◌<◌, refl, ◌∙◌, Bool, ◌&&◌,
  ◌||◌, some, List, [], ◌∷◌, arith, leb, ◌==◌, Bool-cases,
}
use tatak_os.Buffers.{mem}
use tatak_os.Kalloc.{page_size, page_round_up, phys_top, Kmem, free_pages, freerange, kinit}
use tatak_os.Kalloc.FreeList.{All, All-map, IsPage, Represents, kfree_lem}

-- The pages from `p` on, the last one first, before those of `ps`.
abbrev climb : ℕ → ℕ → List ℕ → List ℕ
climb p zero ps = ps
climb p (suc n) ps = climb (p + page_size) n (p ∷ ps)

-- The whole pages between `lo` and `hi`.
abbrev pub is_whole : ℕ → ℕ → ℕ → Bool
is_whole lo hi x = x % page_size == 0 && (leb lo x && leb (x + page_size) hi)

mem-climb :
    (p n x : ℕ) (ps : List ℕ)
    → p % page_size ≡ 0
    → mem x (climb p n ps) ≡ (is_whole p (p + n * page_size) x || mem x ps)
mem-climb p zero x ps al = ground arith
mem-climb p (suc n) x ps al =
    let ih = mem-climb (p + page_size) n x (p ∷ ps) (omega arith) in ih ∙ ground arith

module _ (kernel_end : ℕ) where
  -- The loop of `freerange` from the page `p` on, when the free pages are below it.
  free_pages_lem :
      (fuel p pa_end : ℕ) (k : Kmem) (ps : List ℕ)
      → p % page_size ≡ 0
      → kernel_end ≤ p
      → pa_end ≤ phys_top
      → p ≤ phys_top
      → pa_end - p < fuel * page_size
      → Represents kernel_end k ps
      → All (λ x. x < p) ps
      → (k' : Kmem) × (free_pages kernel_end fuel p pa_end k ≡ some k')
        × Represents kernel_end k' (climb p ((pa_end - p) / page_size) ps)
  unfolding free_pages
  free_pages_lem zero p pa_end k ps al lo hi top enough r below = absurd (omega arith)
  free_pages_lem (suc fuel) p pa_end k ps al lo hi top enough r below =
      elim (Bool-cases (leb (p + page_size) pa_end)) [
        | inl e ↦
            let page : IsPage kernel_end p = record {
              aligned = al;
              above = lo;
              below = ground arith;
            } in
            let fresh = All-map (λ x. x < p) (λ x. x ≢ p) (λ x h. omega arith) ps below in
            let freed = kfree_lem kernel_end k ps p r page fresh in
            let lower =
              All-map (λ x. x < p) (λ x. x < p + page_size) (λ x h. omega arith) ps below in
            let ih =
              free_pages_lem fuel (p + page_size) pa_end freed.0 (p ∷ ps) (omega arith)
                (omega arith) hi (ground arith) (ground arith) freed.2 (omega arith, lower) in
            let count : (pa_end - p) / page_size ≡ suc ((pa_end - (p + page_size)) / page_size) =
              ground arith in
            (ih.0, rw (free_pages, step, e, freed.1, step) ih.1, rw count ih.2)
        | inr e ↦
            let none_left : (pa_end - p) / page_size ≡ 0 = ground arith in
            (k, rw (free_pages, step, e) refl, rw none_left r)
      ]
    where
      step : (p + page_size) % 2 ^ 64 ≡ p + page_size
      step = omega arith

  -- `kinit`, for a kernel that ends below the top of memory, when the free list is empty at first:
  -- no page is refused, the loop ends, and the free pages are exactly the pages that lie wholly
  -- between the end of the kernel and the top of memory.
  pub kinit_lem :
      (k : Kmem)
      → k.freelist ≡ 0
      → kernel_end ≤ phys_top
      → (k' : Kmem) × (ps : List ℕ) × (kinit kernel_end k ≡ some k')
        × Represents kernel_end k' ps
        × ((x : ℕ) → mem x ps ≡ is_whole kernel_end phys_top x)
  unfolding kinit freerange
  kinit_lem k empty le =
      let p = page_round_up kernel_end in
      let r : Represents kernel_end k [] = record { chain = empty; pages = tt; distinct = tt } in
      let done =
        free_pages_lem (suc (phys_top / page_size)) p phys_top k [] (omega arith) (omega arith)
          (omega arith) (omega arith) (omega arith) r tt in
      (
        done.0,
        climb p ((phys_top - p) / page_size) [],
        done.1,
        done.2,
        λ x. mem-climb p ((phys_top - p) / page_size) x [] (omega arith) ∙ ground arith,
      )
