-- ===== src/Vm/Ranges.antt =====
-- kernel/mm/vm.c: `mappages` on a range of addresses that need not start at a page.
use tatak_os.Base.{ℕ, ◌+◌, ◌-◌, ◌*◌, ◌/◌, ◌%◌, ◌^◌, ◌≡◌, ◌≤◌, ◌<◌, refl, false, List, arith, ◌==◌}
use tatak_os.Kalloc.{Kmem, page_size}
use tatak_os.Vm.{has_v, max_va, map_pages, mappages}
use tatak_os.Vm.Mapping.{Maps, map_pages-ok}
use tatak_os.Vm.Nodes.{leaf, IsTree}

-- The last page of a range, and how many it touches.
abbrev pub last_page : ℕ → ℕ → ℕ
last_page va size = (va + size - 1) / page_size

abbrev pub page_count : ℕ → ℕ → ℕ
page_count va size = last_page va size - va / page_size + 1

mappages-pages :
    (root va size pa perm : ℕ) (k : Kmem)
    → 0 < size
    → va + size ≤ max_va
    → mappages root va size pa perm k
      ≡ map_pages (last_page va size - va / page_size) root (page_size * (va / page_size)) pa perm k
unfolding mappages
mappages-pages root va size pa perm k pos top =
    let z : (size == 0) ≡ false = ground arith in
    let first : va / page_size * page_size ≡ page_size * (va / page_size) = omega arith in
    let whole : (va + size - 1) % 2 ^ 64 ≡ va + size - 1 = omega (arith, pos, top) in
    let n : ((va + size - 1) / page_size * page_size + 2 ^ 64 - page_size * (va / page_size))
          % 2 ^ 64
          / page_size
        ≡ last_page va size - va / page_size =
      omega (arith, pos, top) in
    rw (mappages, z, whole, first, n) refl

-- `mappages` of a range below MAXVA, whose pages are not mapped yet, in a page table: it does not
-- panic. It maps every page of the range to consecutive physical pages with these permissions, for
-- at most two pages of memory each, or returns -1 when no free page is left, with a first part of
-- them mapped. The entries of all other pages are as before, and the tables are a page table
-- again, apart from the free pages.
pub mappages_lem :
    (kernel_end root : ℕ) (k : Kmem) (ps : List ℕ) (va size pa perm : ℕ)
    → 0 < kernel_end
    → IsTree kernel_end root k ps
    → 0 < size
    → va + size ≤ max_va
    → pa + size + page_size ≤ 2 ^ 64
    → ((u : ℕ) → va / page_size ≤ u → u ≤ last_page va size → has_v (leaf k.memory root u) ≡ false)
    → Maps kernel_end root k ps
        (page_count va size)
        (va / page_size)
        pa
        perm
        (mappages root va size pa perm k)
mappages_lem kernel_end root k ps va size pa perm start w pos top top' free =
    rw (mappages-pages root va size pa perm k pos top) (
      map_pages-ok kernel_end root (last_page va size - va / page_size) k ps (va / page_size) pa
        perm start w (omega (arith, pos, top)) (omega (arith, pos, top'))
        (λ u le le'. free u le (omega (arith, le', pos))))
