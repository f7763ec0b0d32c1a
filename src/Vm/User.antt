-- ===== src/Vm/User.antt =====
-- kernel/mm/vm.c: the memory of a process, its pages and its page table given up and grown. `none`
-- is a panic; sizes are below 2 ^ 43. `root` is the page table.
use tatak_os.Base.{
  ℕ, zero, suc, ◌+◌, ◌-◌, ◌*◌, ◌/◌, ◌%◌, ◌^◌, Bool, true, false, not, ◌||◌, ◌&&◌, Option, none,
  some, ltb, leb, ◌==◌, if◌then◌else◌,
}
use tatak_os.Kalloc.{page_size, page_round_up, Kmem, kalloc, kfree}
use tatak_os.Vm.{has_v, has_u, pte_flags, pte2pa, entry, store, clear_page, walk, mappages}

-- PTE_W | PTE_X | PTE_R | PTE_U
abbrev pub user_perm : ℕ
user_perm = 30

-- `pte & (PTE_R|PTE_W|PTE_X)`
abbrev pub has_rwx : ℕ → Bool
has_rwx pte = not (pte / 2 % 8 == 0)

-- `memmove(dst, src, PGSIZE)` of a page.
abbrev pub copy_page : ℕ → ℕ → Kmem → Kmem
copy_page dst src k = record k {
  memory =
      λ a. if leb dst a && ltb a (dst + page_size) then k.memory (src + (a - dst)) else k.memory a;
}

-- `*pte &= ~PTE_U`
abbrev pub drop_u : ℕ → ℕ
drop_u pte = if has_u pte then pte - 16 else pte

unfoldable pub uvmclear : ℕ → ℕ → Kmem → Option Kmem
uvmclear root va k = elim (walk root va false k) [
  | none ↦ none
  | some (pte, k1) ↦ if pte == 0 then none else some (store pte (drop_u (k1.memory pte)) k1)
]

module _ (kernel_end : ℕ) where
  -- One round of the loop of `uvmunmap`.
  unfoldable pub unmap_page : ℕ → ℕ → Bool → Kmem → Option Kmem
  unmap_page root a do_free k = elim (walk root a false k) [
    | none ↦ none
    | some (pte, k1) ↦
        if pte == 0
        then none
        else if not (has_v (k1.memory pte))
        then none
        else if pte_flags (k1.memory pte) == 1
        then none
        else elim (if do_free then kfree kernel_end (pte2pa (k1.memory pte)) k1 else some k1) [
          | none ↦ none
          | some k2 ↦ some (store pte 0 k2)
        ]
  ]

  -- The loop of `uvmunmap` from `a` on, for at most `fuel` rounds.
  unfoldable pub unmap_from : ℕ → ℕ → ℕ → ℕ → Bool → Kmem → Option Kmem
  unmap_from zero root a end do_free k = none
  unmap_from (suc fuel) root a end do_free k = elim (ltb a end) [
    | false ↦ some k
    | true ↦ elim (unmap_page root a do_free k) [
      | none ↦ none
      | some k1 ↦ unmap_from fuel root ((a + page_size) % 2 ^ 64) end do_free k1
    ]
  ]

  unfoldable pub uvmunmap : ℕ → ℕ → ℕ → Bool → Kmem → Option Kmem
  uvmunmap root va npages do_free k =
      if not (va % page_size == 0)
      then none
      else unmap_from (suc npages) root va ((va + npages * page_size) % 2 ^ 64) do_free k

  unfoldable pub uvmdealloc : ℕ → ℕ → ℕ → Kmem → Option (ℕ × Kmem)
  uvmdealloc root oldsz newsz k =
      let new = page_round_up newsz in
      let old = page_round_up oldsz in
      if leb oldsz newsz
      then some (oldsz, k)
      else if ltb new old
      then elim (uvmunmap root new ((old - new) / page_size) true k) [
        | none ↦ none
        | some k1 ↦ some (newsz, k1)
      ]
      else some (newsz, k)

  -- The way out of `uvmalloc` without memory.
  unfoldable pub give_up : ℕ → ℕ → ℕ → Kmem → Option (ℕ × Kmem)
  give_up root a oldsz k = elim (uvmdealloc root a oldsz k) [
    | none ↦ none
    | some (size, k1) ↦ some (0, k1)
  ]

  -- The loop of `uvmalloc` from `a` on, for at most `fuel` rounds.
  unfoldable pub alloc_from : ℕ → ℕ → ℕ → ℕ → ℕ → Kmem → Option (ℕ × Kmem)
  alloc_from zero root a oldsz newsz k = none
  alloc_from (suc fuel) root a oldsz newsz k = elim (ltb a newsz) [
    | false ↦ some (newsz, k)
    | true ↦
        let (mem, k1) = kalloc k in
        elim (mem == 0) [
          | true ↦ give_up root a oldsz k1
          | false ↦ elim (mappages root a page_size mem user_perm (clear_page mem k1)) [
            | none ↦ none
            | some (false, k2) ↦ elim (kfree kernel_end mem k2) [
              | none ↦ none
              | some k3 ↦ give_up root a oldsz k3
            ]
            | some (true, k2) ↦ alloc_from fuel root ((a + page_size) % 2 ^ 64) oldsz newsz k2
          ]
        ]
  ]

  unfoldable pub uvmalloc : ℕ → ℕ → ℕ → Kmem → Option (ℕ × Kmem)
  uvmalloc root oldsz newsz k =
      if ltb newsz oldsz
      then some (oldsz, k)
      else alloc_from (newsz / page_size + 2) root (page_round_up oldsz) (page_round_up oldsz) newsz
          k

  -- The loop of `uvmcopy` from `i` on, for at most `fuel` rounds; `false` is -1.
  unfoldable pub copy_from : ℕ → ℕ → ℕ → ℕ → ℕ → Kmem → Option (Bool × Kmem)
  copy_from zero old new i sz k = none
  copy_from (suc fuel) old new i sz k = elim (ltb i sz) [
    | false ↦ some (true, k)
    | true ↦ elim (walk old i false k) [
      | none ↦ none
      | some (pte, k1) ↦
          let e = k1.memory pte in
          let (mem, k2) = kalloc k1 in
          let fail : Kmem → Option (Bool × Kmem) = λ k3.
            elim (uvmunmap new 0 (i / page_size) true k3) [
              | none ↦ none
              | some k4 ↦ some (false, k4)
            ] in
          elim (pte == 0 || not (has_v e)) [
            | true ↦ none
            | false ↦ elim (mem == 0) [
              | true ↦ fail k2
              | false ↦
                  elim (mappages new i page_size mem (pte_flags e) (copy_page mem (pte2pa e) k2)) [
                    | none ↦ none
                    | some (false, k3) ↦ elim (kfree kernel_end mem k3) [
                      | none ↦ none
                      | some k4 ↦ fail k4
                    ]
                    | some (true, k3) ↦ copy_from fuel old new ((i + page_size) % 2 ^ 64) sz k3
                  ]
            ]
          ]
    ]
  ]

  unfoldable pub uvmcopy : ℕ → ℕ → ℕ → Kmem → Option (Bool × Kmem)
  uvmcopy old new sz k = copy_from (sz / page_size + 2) old new 0 sz k

  -- The loop of `freewalk` from entry `i` on, for `n` entries; `free` is its recursive call.
  unfoldable pub free_entries : (ℕ → Kmem → Option Kmem) → ℕ → ℕ → ℕ → Kmem → Option Kmem
  free_entries free i zero table k = some k
  free_entries free i (suc n) table k =
      let pte = k.memory (entry table i) in
      elim (has_v pte) [
        | false ↦ free_entries free (i + 1) n table k
        | true ↦ if has_rwx pte then none else elim (free (pte2pa pte) k) [
          | none ↦ none
          | some k1 ↦ free_entries free (i + 1) n table (store (entry table i) 0 k1)
        ]
      ]

  -- `freewalk` of a table with at most `levels` levels of tables.
  unfoldable pub freewalk : ℕ → ℕ → Kmem → Option Kmem
  freewalk zero table k = none
  freewalk (suc levels) table k = elim (free_entries (freewalk levels) 0 512 table k) [
    | none ↦ none
    | some k1 ↦ kfree kernel_end table k1
  ]

  unfoldable pub uvmfree : ℕ → ℕ → Kmem → Option Kmem
  uvmfree root sz k =
      elim (if ltb 0 sz then uvmunmap root 0 (page_round_up sz / page_size) true k else some k) [
        | none ↦ none
        | some k1 ↦ freewalk 3 root k1
      ]
