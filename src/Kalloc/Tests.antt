-- ===== src/Kalloc/Tests.antt =====
-- Tests of the page allocator, and its theorems at concrete inputs: two pages are left above a
-- kernel that ends inside a page.
use tatak_os.Base.{
  length, ℕ, ◌≡◌, ◌↔◌, refl, false, Option, some, none, List, [], ◌∷◌, arith, ◌==◌, if◌then◌else◌,
}
use tatak_os.Buffers.{mem}
use tatak_os.Kalloc.{phys_top, Kmem, is_bad, kfree, free_pages, freerange, kinit, kalloc}
use tatak_os.Kalloc.FreeList.{All, Distinct, IsPage, Represents, Allocates, kalloc_lem}
use tatak_os.Kalloc.Initial.{is_whole, kinit_lem}
use tatak_os.Kalloc.Owners.{Run, begins, allocates, kalloc_shared, kfree_shared}

abbrev kernel_end : ℕ
kernel_end = 2283790000

abbrev first : ℕ
first = 2283790336

abbrev second : ℕ
second = 2283794432

abbrev empty : Kmem
empty = record { freelist = 0; memory = λ a. 0 }

-- The second page leads to the first.
abbrev two_free : Kmem
two_free = record { freelist = second; memory = λ a. if a == second then first else 0 }

two_free-Represents : Represents kernel_end two_free (second ∷ first ∷ [])
two_free-Represents = record {
  chain = (refl, (refl, refl));
  pages = (
    record { aligned = refl; above = omega arith; below = omega arith },
    (record { aligned = refl; above = omega arith; below = omega arith }, tt),
  );
  distinct = ((omega arith, tt), (tt, tt));
}

abbrev allocated : Kmem → List ℕ
allocated k = let a = kalloc k in let b = kalloc a.1 in let c = kalloc b.1 in a.0 ∷ b.0 ∷ c.0 ∷ []

abbrev allocated_all : Option Kmem → List ℕ
allocated_all none = []
allocated_all (some k) = allocated k

kinit_two : allocated_all (kinit kernel_end empty) ≡ second ∷ first ∷ 0 ∷ []
unfolding kinit freerange free_pages kfree is_bad kalloc
kinit_two = refl

kinit_lem_example :
    (k' : Kmem) × (ps : List ℕ) × (kinit kernel_end empty ≡ some k')
    × Represents kernel_end k' ps
    × ((x : ℕ) → mem x ps ≡ is_whole kernel_end phys_top x)
kinit_lem_example = kinit_lem kernel_end empty refl (omega arith)

kalloc_lem_example : Allocates kernel_end two_free (second ∷ first ∷ [])
kalloc_lem_example =
    kalloc_lem kernel_end two_free (second ∷ first ∷ []) (omega arith) two_free-Represents

one_held : Run kernel_end two_free (kalloc two_free).1 ((kalloc two_free).0 ∷ [])
unfolding kalloc
one_held = allocates begins (omega arith)

kalloc_shared_example :
    All (IsPage kernel_end) ((kalloc two_free).0 ∷ [])
    × Distinct ((kalloc two_free).0 ∷ [])
    × (mem (kalloc (kalloc two_free).1).0 ((kalloc two_free).0 ∷ []) ≡ false)
    × (((kalloc (kalloc two_free).1).0 ≡ 0) ↔ (length (second ∷ []) ≡ length (second ∷ first ∷ [])))
kalloc_shared_example = kalloc_shared kernel_end (omega arith) two_free-Represents one_held

kfree_shared_example :
    (k' : Kmem) × (kfree kernel_end second (kalloc two_free).1 ≡ some k') × ((kalloc k').0 ≡ second)
unfolding kalloc
kfree_shared_example =
    kfree_shared kernel_end second (omega arith) two_free-Represents one_held refl
