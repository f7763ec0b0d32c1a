-- ===== src/Vm/Tests.antt =====
-- A page table without pages, and two free pages.
use tatak_os.Base.{
  ℕ, ◌+◌, ◌-◌, ◌*◌, ◌/◌, ◌≡◌, ◌<◌, refl, true, false, List, [], ◌∷◌, some, arith, ◌==◌,
  if◌then◌else◌,
}
use tatak_os.Kalloc.{Kmem, page_size}
use tatak_os.Kalloc.FreeList.{IsPage, Represents}
use tatak_os.Vm.{has_v, max_va, mappages, walkaddr}
use tatak_os.Vm.Create.{empty-IsTree, leaf-empty}
use tatak_os.Vm.Mapping.{Maps}
use tatak_os.Vm.Nodes.{leaf, IsTree}
use tatak_os.Vm.Ranges.{mappages_lem}
use tatak_os.Vm.Translate.{in_range, walkaddr-mappages}

abbrev root : ℕ
root = 8192

abbrev k : Kmem
k = record { freelist = 12288; memory = λ a. if a == 12288 then 16384 else 0 }

abbrev two_free : List ℕ
two_free = 12288 ∷ 16384 ∷ []

IsPage-at : (n : ℕ) → 0 < n → n < 100 → IsPage 1 (page_size * n)
IsPage-at n pos lt = record {
  aligned = omega arith;
  above = omega (arith, pos);
  below = omega (arith, lt);
}

two_free-Represents : Represents 1 k two_free
two_free-Represents = record {
  chain = (refl, (refl, refl));
  pages = (IsPage-at 3 (omega arith) (omega arith), (IsPage-at 4 (omega arith) (omega arith), tt));
  distinct = ((ground arith, tt), (tt, tt));
}

no_entries : (i : ℕ) → i < 512 → k.memory (root + 8 * i) ≡ 0
no_entries i lt = ground arith

k-IsTree : IsTree 1 root k two_free
k-IsTree =
    empty-IsTree 1 root k two_free two_free-Represents (IsPage-at 2 (omega arith) (omega arith))
      (ground arith) (ground arith, (ground arith, tt)) no_entries

unmapped : (u : ℕ) → u < 512 → has_v (leaf k.memory root u) ≡ false
unmapped u lt = rw (leaf-empty k.memory root no_entries u (omega (arith, lt))) refl

-- Ten bytes from address 20487 on, which are in page 5, at physical page 100, with PTE_U and PTE_R.
mappages_lem_example : Maps 1 root k two_free 1 5 409600 18 (mappages root 20487 10 409600 18 k)
mappages_lem_example =
    mappages_lem 1 root k two_free 20487 10 409600 18 (omega arith) k-IsTree (omega arith)
      (omega arith) (omega arith) (λ u le le'. unmapped u (omega (arith, le')))

walkaddr-mappages_example :
    (k' : Kmem) × (mappages root 20487 10 409600 18 k ≡ some (true, k'))
    × ((x : ℕ)
        → x < max_va
        → walkaddr root x k' ≡ (
            if in_range 20487 10 x
            then (100 + (x / page_size - 5)) * page_size
            else walkaddr root x k))
walkaddr-mappages_example =
    walkaddr-mappages 1 root k two_free 20487 10 409600 18 (omega arith) k-IsTree (omega arith)
      (omega arith) (omega arith) (omega arith) refl (omega arith)
      (λ u le le'. unmapped u (omega (arith, le')))
