-- ===== src/Kalloc.antt =====
-- kernel/mm/kalloc.c (src/kernel/mm/kalloc.c in the repository): the allocator of physical pages.
-- The free pages are a linked list through the pages themselves: the memory holds the links.
-- Each function runs with `kmem.lock` held; `none` is a panic.
pub mod FreeList
pub mod Initial
pub mod Owners
mod Tests
use tatak_os.Base.{
  ℕ, zero, suc, ◌+◌, ◌*◌, ◌/◌, ◌%◌, ◌^◌, Bool, true, false, not, ◌&&◌, ◌||◌, Option, none, some,
  ltb, leb, ◌==◌, if◌then◌else◌,
}
use tatak_os.Disk.{update}

-- PGSIZE and PGROUNDUP of include/kernel/riscv.h; an address is a number below 2 ^ 64.
abbrev pub page_size : ℕ
page_size = 4096

abbrev pub page_round_up : ℕ → ℕ
page_round_up a = (a + 4095) % 2 ^ 64 / 4096 * 4096

-- PHYSTOP of the QEMU board's memlayout.h.
abbrev pub phys_top : ℕ
phys_top = 2149580800 + 128 * 1024 * 1024

-- Physical memory as 64-bit words at the addresses that are multiples of 8.
abbrev pub Memory : Type 0
Memory = ℕ → ℕ

-- `kmem`, and the memory.
pub record Kmem : Type 0 where
  pub freelist : ℕ
  pub memory : Memory

-- `memset(pa, c, PGSIZE)`, where `c` repeated eight times is the word `w`.
abbrev pub fill_page : Memory → ℕ → ℕ → Memory
fill_page m pa w a = if leb pa a && ltb a (pa + page_size) then w else m a

-- The words that `memset` leaves with the bytes 1 and 5.
abbrev pub ones : ℕ
ones = 72340172838076673

abbrev pub fives : ℕ
fives = 361700864190383365

-- The page at `pa` is filled, and goes to the front of the free list.
abbrev pub link : ℕ → Kmem → Kmem
link pa k = record { freelist = pa; memory = update (fill_page k.memory pa ones) pa k.freelist }

-- `end`, the first address after the kernel, is the linker's.
module _ (kernel_end : ℕ) where
  -- The guard of `kfree`.
  pub is_bad : ℕ → Bool
  is_bad pa = not (pa % page_size == 0) || (ltb pa kernel_end || leb phys_top pa)

  pub kfree : ℕ → Kmem → Option Kmem
  kfree pa k = if is_bad pa then none else some (link pa k)

  -- `freerange` from `p` on, for at most `fuel` pages.
  pub free_pages : ℕ → ℕ → ℕ → Kmem → Option Kmem
  free_pages zero p pa_end k = none
  free_pages (suc fuel) p pa_end k = elim (leb ((p + page_size) % 2 ^ 64) pa_end) [
    | false ↦ some k
    | true ↦ elim (kfree p k) [
      | none ↦ none
      | some k' ↦ free_pages fuel ((p + page_size) % 2 ^ 64) pa_end k'
    ]
  ]

  pub freerange : ℕ → ℕ → Kmem → Option Kmem
  freerange pa_start pa_end k =
      free_pages (suc (pa_end / page_size)) (page_round_up pa_start) pa_end k

  pub kinit : Kmem → Option Kmem
  kinit k = freerange kernel_end phys_top k

-- `kalloc`: the address is 0 if no page is free.
pub kalloc : Kmem → ℕ × Kmem
kalloc k =
    let r = k.freelist in
    if r == 0
    then (r, k)
    else (r, record { freelist = k.memory r; memory = fill_page k.memory r fives })
