-- ===== src/Kalloc/Owners.antt =====
-- kernel/mm/kalloc.c: the pages that its callers hold, over any sequence of calls.
use tatak_os.Base.{
  ℕ, suc, ◌+◌, ◌≡◌, ◌≢◌, ◌↔◌, ◌<◌, inl, inr, refl, sym, ◌∙◌, ap, true, false, some, some-injective,
  List, [], ◌∷◌, arith, ◌==◌, if◌then◌else◌, length, Bool-cases,
}
use tatak_os.Buffers.{mem}
use tatak_os.Kalloc.{Kmem, kfree, kalloc}
use tatak_os.Kalloc.FreeList.{
  All, All-map, All-both, Distinct, IsPage, Represents, kfree_lem, kalloc_lem,
}

-- A caller gives one of its pages back.
abbrev pub remove : ℕ → List ℕ → List ℕ
remove p [] = []
remove p (x ∷ xs) = if p == x then xs else x ∷ remove p xs

All-remove : (P : ℕ → Type 0) (p : ℕ) (xs : List ℕ) → All P xs → All P (remove p xs)
All-remove P p [] h = tt
All-remove P p (x ∷ xs) (h, hs) = ground (arith, All-remove P p xs hs)

All-mem : (P : ℕ → Type 0) (p : ℕ) (xs : List ℕ) → mem p xs ≡ true → All P xs → P p
All-mem P p [] m h = absurd (ground arith)
All-mem P p (x ∷ xs) m (h, hs) = elim (Bool-cases (p == x)) [
  | inl e ↦ let q : p ≡ x = ground arith in rw q h
  | inr e ↦ All-mem P p xs (ground arith) hs
]

Distinct-remove : (p : ℕ) (xs : List ℕ) → Distinct xs → Distinct (remove p xs)
Distinct-remove p [] d = tt
Distinct-remove p (x ∷ xs) (a, d) =
    ground (arith, Distinct-remove p xs, All-remove (λ y. y ≢ x) p xs)

All-removed : (p : ℕ) (xs : List ℕ) → mem p xs ≡ true → Distinct xs → All (λ y. y ≢ p) (remove p xs)
All-removed p [] m d = tt
All-removed p (x ∷ xs) m (a, d) = elim (Bool-cases (p == x)) [
  | inl e ↦ let q : p ≡ x = ground arith in rw (e, q) a
  | inr e ↦
      rw e (let q : p ≢ x = ground arith in (λ i. q (sym i), All-removed p xs (ground arith) d))
]

length-remove : (p : ℕ) (xs : List ℕ) → mem p xs ≡ true → suc (length (remove p xs)) ≡ length xs
length-remove p [] m = ground arith
length-remove p (x ∷ xs) m = ground (arith, length-remove p xs)

mem-fresh : (p : ℕ) (xs : List ℕ) → All (λ x. x ≢ p) xs → mem p xs ≡ false
mem-fresh p [] h = refl
mem-fresh p (x ∷ xs) (h, hs) = ground (arith, mem-fresh p xs hs)

module _ (kernel_end : ℕ) where
  -- The calls of the allocator from the state `start` on: the state, and the pages that were
  -- allocated and not given back. A caller frees only a page that it holds.
  pub data Run (start : Kmem) : Kmem → List ℕ → Type 0 where
    begins : Run start start []
    allocates :
        {k : Kmem} {held : List ℕ}
        → Run start k held
        → (kalloc k).0 ≢ 0
        → Run start (kalloc k).1 ((kalloc k).0 ∷ held)
    fails :
        {k : Kmem} {held : List ℕ}
        → Run start k held
        → (kalloc k).0 ≡ 0
        → Run start (kalloc k).1 held
    frees :
        {k k' : Kmem} {held : List ℕ} (pa : ℕ)
        → Run start k held
        → mem pa held ≡ true
        → kfree kernel_end pa k ≡ some k'
        → Run start k' (remove pa held)

  -- The pages `held` and the free pages `ps` are apart.
  pub record IsShared (k : Kmem) (held ps : List ℕ) : Type 0 where
    pub free : Represents kernel_end k ps
    pub pages : All (IsPage kernel_end) held
    pub distinct : Distinct held
    pub apart : All (λ x. All (λ y. y ≢ x) ps) held

  allocated-IsShared :
      (k : Kmem) (held ps : List ℕ)
      → 0 < kernel_end
      → IsShared k held ps
      → (kalloc k).0 ≢ 0
      → (qs : List ℕ) × IsShared (kalloc k).1 ((kalloc k).0 ∷ held) qs
        × (suc (length qs) ≡ length ps)
  allocated-IsShared k held [] pos s ne =
      absurd (ne (ap (λ r. r.0) (kalloc_lem kernel_end k [] pos s.free)))
  allocated-IsShared k held (p ∷ ps) pos s ne =
      let a = kalloc_lem kernel_end k (p ∷ ps) pos s.free in
      (
        ps,
        record {
          free = a.2;
          pages = (rw a.1 s.free.pages.0, s.pages);
          distinct = (
            rw a.1 (
                All-map (λ x. All (λ y. y ≢ x) (p ∷ ps)) (λ x. x ≢ p) (λ x h e. h.0 (sym e)) held
                  s.apart),
            s.distinct,
          );
          apart = (
            rw a.1 s.free.distinct.0,
            All-map (λ x. All (λ y. y ≢ x) (p ∷ ps)) (λ x. All (λ y. y ≢ x) ps) (λ x h. h.1) held
                s.apart,
          );
        },
        refl,
      )

  failed-IsShared :
      (k : Kmem) (held ps : List ℕ)
      → 0 < kernel_end
      → IsShared k held ps
      → (kalloc k).0 ≡ 0
      → IsShared (kalloc k).1 held ps
  failed-IsShared k held [] pos s e = rw (kalloc_lem kernel_end k [] pos s.free) s
  failed-IsShared k held (p ∷ ps) pos s e =
      let a = kalloc_lem kernel_end k (p ∷ ps) pos s.free in absurd (a.0 (sym a.1 ∙ e))

  -- A page that somebody holds is freed without a panic.
  freed-IsShared :
      (k : Kmem) (held ps : List ℕ) (pa : ℕ)
      → IsShared k held ps
      → mem pa held ≡ true
      → (k' : Kmem) × (kfree kernel_end pa k ≡ some k') × IsShared k' (remove pa held) (pa ∷ ps)
  freed-IsShared k held ps pa s m =
      let fresh = All-mem (λ x. All (λ y. y ≢ x) ps) pa held m s.apart in
      let page = All-mem (IsPage kernel_end) pa held m s.pages in
      let freed = kfree_lem kernel_end k ps pa s.free page fresh in
      (
        freed.0,
        freed.1,
        record {
          free = freed.2;
          pages = All-remove (IsPage kernel_end) pa held s.pages;
          distinct = Distinct-remove pa held s.distinct;
          apart =
              All-map (λ x. (x ≢ pa) × All (λ y. y ≢ x) ps) (λ x. All (λ y. y ≢ x) (pa ∷ ps))
                (λ x h. (λ e. h.0 (sym e), h.1)) (remove pa held)
                (All-both (λ x. x ≢ pa) (λ x. All (λ y. y ≢ x) ps) (remove pa held)
                  (All-removed pa held m s.distinct)
                  (All-remove (λ x. All (λ y. y ≢ x) ps) pa held s.apart));
        },
      )

  Run-IsShared :
      {start k : Kmem} {held all : List ℕ}
      → 0 < kernel_end
      → Represents kernel_end start all
      → Run start k held
      → (ps : List ℕ) × IsShared k held ps × (length held + length ps ≡ length all)
  Run-IsShared {all = all} pos r begins =
      (all, record { free = r; pages = tt; distinct = tt; apart = tt }, omega arith)
  Run-IsShared pos r (allocates {k = k} {held = held} run ne) =
      let (ps, s, n) = Run-IsShared pos r run in
      let (qs, t, e) = allocated-IsShared k held ps pos s ne in (qs, t, omega arith)
  Run-IsShared pos r (fails {k = k} {held = held} run e) =
      let (ps, s, n) = Run-IsShared pos r run in (ps, failed-IsShared k held ps pos s e, n)
  Run-IsShared pos r (frees {k = k} {held = held} pa run m e) =
      let (ps, s, n) = Run-IsShared pos r run in
      let (k'', f, t) = freed-IsShared k held ps pa s m in
      let same : k'' ≡ _ = some-injective _ _ (sym f ∙ e) in
      (pa ∷ ps, rw (← same) t, omega (arith, length-remove pa held m))

  kalloc-IsShared :
      (k : Kmem) (held ps : List ℕ)
      → 0 < kernel_end
      → IsShared k held ps
      → (mem (kalloc k).0 held ≡ false) × (((kalloc k).0 ≡ 0) ↔ (length ps ≡ 0))
  kalloc-IsShared k held [] pos s =
      let e = ap (λ r. r.0) (kalloc_lem kernel_end k [] pos s.free) in
      let no_null =
        All-map (IsPage kernel_end) (λ x. x ≢ 0) (λ x page q. let h = page.above in omega arith)
          held s.pages in
      (rw e (mem-fresh 0 held no_null), (λ h. refl, λ h. e))
  kalloc-IsShared k held (p ∷ ps) pos s =
      let a = kalloc_lem kernel_end k (p ∷ ps) pos s.free in
      let fresh =
        All-map (λ x. All (λ y. y ≢ x) (p ∷ ps)) (λ x. x ≢ p) (λ x h e. h.0 (sym e)) held s.apart in
      (
        rw a.1 (mem-fresh p held fresh),
        (λ h. absurd (a.0 (sym a.1 ∙ h)), λ h. absurd (omega arith)),
      )

  -- After any sequence of calls from a state with the free pages `all`, when callers free only
  -- pages that they hold: the held pages are pages of memory and no two are the same, `kalloc`
  -- returns a page that nobody holds, and it returns 0 exactly when every page is held.
  pub kalloc_shared :
      {start k : Kmem} {held all : List ℕ}
      → 0 < kernel_end
      → Represents kernel_end start all
      → Run start k held
      → All (IsPage kernel_end) held
        × Distinct held
        × (mem (kalloc k).0 held ≡ false)
        × (((kalloc k).0 ≡ 0) ↔ (length held ≡ length all))
  kalloc_shared {k = k} {held = held} pos r run =
      let (ps, s, n) = Run-IsShared pos r run in
      let (fresh, f) = kalloc-IsShared k held ps pos s in
      (s.pages, s.distinct, fresh, (λ h. let z = f.0 h in omega arith, λ h. f.1 (omega arith)))

  -- In the same runs, `kfree` of a held page does not panic, and the page can be allocated again:
  -- it is what the next `kalloc` returns.
  pub kfree_shared :
      {start k : Kmem} {held all : List ℕ} (pa : ℕ)
      → 0 < kernel_end
      → Represents kernel_end start all
      → Run start k held
      → mem pa held ≡ true
      → (k' : Kmem) × (kfree kernel_end pa k ≡ some k') × ((kalloc k').0 ≡ pa)
  kfree_shared {k = k} {held = held} pa pos r run m =
      let (ps, s, n) = Run-IsShared pos r run in
      let (k', e, t) = freed-IsShared k held ps pa s m in
      (k', e, (kalloc_lem kernel_end k' (pa ∷ ps) pos t.free).1)
