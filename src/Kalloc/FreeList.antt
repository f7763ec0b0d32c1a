-- ===== src/Kalloc/FreeList.antt =====
-- kernel/mm/kalloc.c: the pages on the free list, as the links in memory give them.
use tatak_os.Base.{ℕ, ◌%◌, ◌≡◌, ◌≢◌, ◌≤◌, ◌<◌, refl, sym, ◌∙◌, false, some, List, [], ◌∷◌, arith}
use tatak_os.Disk.{update_self, update_ne}
use tatak_os.Kalloc.{
  page_size, phys_top, Memory, Kmem, fill_page, ones, fives, is_bad, link, kfree, kalloc,
}

abbrev pub All : (ℕ → Type 0) → List ℕ → Type 0
All P [] = Unit {0}
All P (x ∷ xs) = P x × All P xs

pub All-map : (P Q : ℕ → Type 0) (f : (x : ℕ) → P x → Q x) (xs : List ℕ) → All P xs → All Q xs
All-map P Q f [] h = tt
All-map P Q f (x ∷ xs) (h, hs) = (f x h, All-map P Q f xs hs)

pub All-both : (P Q : ℕ → Type 0) (xs : List ℕ) → All P xs → All Q xs → All (λ x. P x × Q x) xs
All-both P Q [] h k = tt
All-both P Q (x ∷ xs) (h, hs) (k, ks) = ((h, k), All-both P Q xs hs ks)

-- Nothing occurs twice.
abbrev pub Distinct : List ℕ → Type 0
Distinct [] = Unit {0}
Distinct (x ∷ xs) = All (λ y. y ≢ x) xs × Distinct xs

-- The chain of links from `p` to the null pointer passes through these pages.
abbrev pub IsChain : Memory → ℕ → List ℕ → Type 0
IsChain m p [] = p ≡ 0
IsChain m p (x ∷ xs) = (p ≡ x) × IsChain m (m x) xs

pub IsChain-same :
    (m m' : Memory) (xs : List ℕ) (p : ℕ)
    → All (λ x. m' x ≡ m x) xs
    → IsChain m p xs
    → IsChain m' p xs
IsChain-same m m' [] p h c = c
IsChain-same m m' (x ∷ xs) p (e, es) (q, c) = (q, rw e (IsChain-same m m' xs (m x) es c))

module _ (kernel_end : ℕ) where
  -- A page that the allocator may manage.
  pub record IsPage (pa : ℕ) : Type 0 where
    pub aligned : pa % page_size ≡ 0
    pub above : kernel_end ≤ pa
    pub below : pa < phys_top

  -- The free list of `k` holds exactly the pages `ps`, in this order.
  pub record Represents (k : Kmem) (ps : List ℕ) : Type 0 where
    pub chain : IsChain k.memory k.freelist ps
    pub pages : All IsPage ps
    pub distinct : Distinct ps

  is_bad-page : (pa : ℕ) → IsPage pa → is_bad kernel_end pa ≡ false
  unfolding is_bad
  is_bad-page pa page = ground arith

  -- The words of a page lie in no other.
  pub fill_other :
      (m : Memory) (pa x w : ℕ) → IsPage pa → IsPage x → x ≢ pa → fill_page m pa w x ≡ m x
  fill_other m pa x w page other ne = ground arith

  link-other :
      (k : Kmem) (pa x : ℕ) → IsPage pa → IsPage x × (x ≢ pa) → (link pa k).memory x ≡ k.memory x
  link-other k pa x page (other, ne) =
      update_ne (fill_page k.memory pa ones) pa x k.freelist (λ e. ne (sym e))
      ∙ fill_other k.memory pa x ones page other ne

  link-Represents :
      (k : Kmem) (ps : List ℕ) (pa : ℕ)
      → Represents k ps
      → IsPage pa
      → All (λ x. x ≢ pa) ps
      → Represents (link pa k) (pa ∷ ps)
  link-Represents k ps pa r page fresh = record {
    chain = (
      refl,
      rw (update_self (fill_page k.memory pa ones) pa k.freelist) (
          IsChain-same k.memory _ ps k.freelist
            (All-map (λ x. IsPage x × (x ≢ pa)) (λ x. (link pa k).memory x ≡ k.memory x)
              (λ x. link-other k pa x page) ps (All-both IsPage (λ x. x ≢ pa) ps r.pages fresh))
            r.chain),
    );
    pages = (page, r.pages);
    distinct = (fresh, r.distinct);
  }

  -- Whatever the list `ps` of free pages, a page that is not among them is freed without a panic,
  -- and the free list holds it and then the same pages, with every link intact.
  pub kfree_lem :
      (k : Kmem) (ps : List ℕ) (pa : ℕ)
      → Represents k ps
      → IsPage pa
      → All (λ x. x ≢ pa) ps
      → (k' : Kmem) × (kfree kernel_end pa k ≡ some k') × Represents k' (pa ∷ ps)
  unfolding kfree
  kfree_lem k ps pa r page fresh =
      (link pa k, rw (is_bad-page pa page) refl, link-Represents k ps pa r page fresh)

  -- `kalloc` with `p` at the front of the free list.
  abbrev unlink : ℕ → Kmem → Kmem
  unlink p k = record { freelist = k.memory p; memory = fill_page k.memory p fives }

  kalloc_some : (k : Kmem) (p : ℕ) → k.freelist ≡ p → p ≢ 0 → kalloc k ≡ (p, unlink p k)
  unfolding kalloc
  kalloc_some k p e ne = rw e (ground arith)

  unlink-Represents :
      (k : Kmem) (p : ℕ) (ps : List ℕ) → Represents k (p ∷ ps) → Represents (unlink p k) ps
  unlink-Represents k p ps r = record {
    chain =
        IsChain-same k.memory _ ps (k.memory p)
          (All-map (λ x. IsPage x × (x ≢ p)) (λ x. (unlink p k).memory x ≡ k.memory x)
            (λ x (page, ne). fill_other k.memory p x fives r.pages.0 page ne) ps
            (All-both IsPage (λ x. x ≢ p) ps r.pages.1 r.distinct.0))
          r.chain.1;
    pages = r.pages.1;
    distinct = r.distinct.1;
  }

  -- What `kalloc` returns, the pages that are free afterwards, and the memory.
  abbrev pub Allocates : Kmem → List ℕ → Type 0
  Allocates k [] = kalloc k ≡ (0, k)
  Allocates k (p ∷ ps) =
      (p ≢ 0)
      × ((kalloc k).0 ≡ p)
      × Represents (kalloc k).1 ps
      × ((kalloc k).1.memory ≡ fill_page k.memory p fives)

  -- The first free page is allocated, filled with junk and taken off the free list; without a free
  -- page the result is 0, which is no page, and nothing changes. The kernel ends above address 0.
  pub kalloc_lem : (k : Kmem) (ps : List ℕ) → 0 < kernel_end → Represents k ps → Allocates k ps
  unfolding kalloc
  kalloc_lem k [] pos r = rw r.chain refl
  kalloc_lem k (p ∷ ps) pos r =
      let ne : p ≢ 0 = λ e. let h = r.pages.0.above in omega arith in
      let e = kalloc_some k p r.chain.0 ne in
      (ne, rw e refl, rw e (unlink-Represents k p ps r), rw e refl)
