-- ===== src/Vm.antt =====
-- kernel/mm/vm.c (src/kernel/mm/vm.c in the repository): page tables of the Sv39 scheme, in the
-- pages that kalloc.c gives out. Addresses and entries are `uint64`; a word stands at a multiple
-- of 8. `none` is a panic, and the address 0 is null; `perm` is below 2 ^ 10.
pub mod Nodes
pub mod Grow
pub mod Grown
pub mod Walk
pub mod Store
pub mod Mapping
pub mod Ranges
pub mod Lookup
pub mod Translate
pub mod Create
pub mod User
pub mod Unmap
mod Tests
use tatak_os.Base.{
  ℕ, zero, suc, ◌+◌, ◌-◌, ◌*◌, ◌/◌, ◌%◌, ◌^◌, Bool, true, false, not, ◌||◌, Option, none, some, ltb,
  leb, ◌==◌, if◌then◌else◌,
}
use tatak_os.Disk.{update}
use tatak_os.Kalloc.{page_size, page_round_up, Memory, Kmem, fill_page, kalloc, kfree}

-- PA2PTE, PTE2PA, PTE_FLAGS and PX of include/kernel/riscv.h.
abbrev pub pa2pte : ℕ → ℕ
pa2pte pa = pa / 2 ^ 12 * 2 ^ 10

abbrev pub pte2pa : ℕ → ℕ
pte2pa pte = pte / 2 ^ 10 * 2 ^ 12 % 2 ^ 64

abbrev pub pte_flags : ℕ → ℕ
pte_flags pte = pte % 2 ^ 10

abbrev pub px : ℕ → ℕ → ℕ
px level va = va / 2 ^ (12 + 9 * level) % 512

-- PTE_V and PTE_U.
abbrev pub has_v : ℕ → Bool
has_v pte = pte % 2 == 1

abbrev pub has_u : ℕ → Bool
has_u pte = pte / 16 % 2 == 1

abbrev pub or_v : ℕ → ℕ
or_v perm = if has_v perm then perm else perm + 1

-- MAXVA
abbrev pub max_va : ℕ
max_va = 2 ^ 38

abbrev pub page_round_down : ℕ → ℕ
page_round_down a = a / page_size * page_size

-- `&pagetable[i]`
abbrev pub entry : ℕ → ℕ → ℕ
entry table i = table + 8 * i

abbrev pub store : ℕ → ℕ → Kmem → Kmem
store a w k = record k { memory = update k.memory a w }

-- `memset(pa, 0, PGSIZE)`
abbrev pub clear_page : ℕ → Kmem → Kmem
clear_page pa k = record k { memory = fill_page k.memory pa 0 }

-- The body of the loop of `walk`, for the entry at `a`: the next table, or `none` for its return.
unfoldable pub descend : Bool → ℕ → Kmem → Option ℕ × Kmem
descend alloc a k =
    let pte = k.memory a in
    let (p, k1) = kalloc k in
    if has_v pte
    then (some (pte2pa pte), k)
    else if not alloc
    then (none, k)
    else if p == 0
    then (none, k1)
    else (some p, store a (pa2pte p + 1) (clear_page p k1))

-- The loop of `walk` from `level` on, and its return.
unfoldable pub walk_from : ℕ → ℕ → ℕ → Bool → Kmem → ℕ × Kmem
walk_from zero table va alloc k = (entry table (px 0 va), k)
walk_from (suc level) table va alloc k =
    let (next, k1) = descend alloc (entry table (px (suc level) va)) k in
    elim next [ none ↦ (0, k1) | some t ↦ walk_from level t va alloc k1 ]

unfoldable pub walk : ℕ → ℕ → Bool → Kmem → Option (ℕ × Kmem)
walk table va alloc k = if leb max_va va then none else some (walk_from 2 table va alloc k)

unfoldable pub walkaddr : ℕ → ℕ → Kmem → ℕ
walkaddr table va k =
    let (a, k1) = walk_from 2 table va false k in
    let pte = k1.memory a in
    if leb max_va va
    then 0
    else if a == 0
    then 0
    else if not (has_v pte)
    then 0
    else if not (has_u pte)
    then 0
    else pte2pa pte

-- One round of the loop of `mappages`: whether it goes on.
unfoldable pub map_page : ℕ → ℕ → ℕ → ℕ → Kmem → Option (Bool × Kmem)
map_page table a pa perm k = elim (walk table a true k) [
  | none ↦ none
  | some (pte, k1) ↦
      if pte == 0
      then some (false, k1)
      else if has_v (k1.memory pte)
      then none
      else some (true, store pte (pa2pte pa + or_v perm) k1)
]

-- The loop of `mappages`, for `suc n` pages from `a` on.
unfoldable pub map_pages : ℕ → ℕ → ℕ → ℕ → ℕ → Kmem → Option (Bool × Kmem)
map_pages zero table a pa perm k = map_page table a pa perm k
map_pages (suc n) table a pa perm k = elim (map_page table a pa perm k) [
  | none ↦ none
  | some (false, k1) ↦ some (false, k1)
  | some (true, k1) ↦
      map_pages n table ((a + page_size) % 2 ^ 64) ((pa + page_size) % 2 ^ 64) perm k1
]

-- `mappages`; `false` is -1.
unfoldable pub mappages : ℕ → ℕ → ℕ → ℕ → ℕ → Kmem → Option (Bool × Kmem)
mappages table va size pa perm k =
    let a = page_round_down va in
    let last = page_round_down ((va + size - 1) % 2 ^ 64) in
    if size == 0
    then none
    else map_pages ((last + 2 ^ 64 - a) % 2 ^ 64 / page_size) table a pa perm k

unfoldable pub uvmcreate : Kmem → ℕ × Kmem
uvmcreate k = let (p, k1) = kalloc k in if p == 0 then (0, k1) else (p, clear_page p k1)
