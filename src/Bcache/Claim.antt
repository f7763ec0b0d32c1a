-- ===== src/Bcache/Claim.antt =====
-- `bread` does what the abstract cache promises: it finds or recycles a buffer, and fills it.
use tatak_os.Base.{
  ℕ, ◌+◌, ◌≡◌, ◌≢◌, inl, inr, refl, ap, ◌∙◌, true, false, not, ◌&&◌, ◌||◌, none, some, List, [],
  ◌∷◌, ltb, ◌==◌, if◌then◌else◌, length, arith, Bool-cases, Option-cases,
}
use tatak_os.Disk.{Disk}
use tatak_os.Buffers.{nbuf, mem}
use tatak_os.Buffers.Spec.{Cache}
use tatak_os.Buffers.Counts.{count, count-cons, mem-count}
use tatak_os.Sleeplock.{acquiresleep}
use tatak_os.Bcache.{Buf, Bcache, get, replace, renamed, recycle, claim, fetch, bread}
use tatak_os.Bcache.Ring.{
  total, Unique, get-is_for, get-replace, replace-Unique, total-replace, length-replace,
}
use tatak_os.Bcache.Recycle.{
  recycle_new, recycle_others, recycle-Unique, total-recycle, recycle_finds,
}
use tatak_os.Bcache.Relation.{IdleFree, Refines, Fits-none, IdleFree-replace, FitsAt, FitsAt-same}

-- The buffer that the second loop takes is not locked, and the others stay as free as they were.
recycle_unlocked :
    (dev b : ℕ) (xs ys : List Buf) (x : Buf)
    → recycle dev b xs ≡ some ys
    → get dev b xs ≡ none
    → IdleFree xs
    → get dev b ys ≡ some x
    → x.lock.locked ≡ false
unfolding recycle get
recycle_unlocked dev b [] ys x e h f g = cc
recycle_unlocked dev b (z ∷ xs) ys x e h f g = elim (Option-cases (recycle dev b xs)) [
  | inl last ↦ ground arith
  | inr (zs, more) ↦ recycle_unlocked dev b xs zs x more (ground arith) f.1 (ground arith)
]

recycle-IdleFree :
    (dev b : ℕ) (xs ys : List Buf) → recycle dev b xs ≡ some ys → IdleFree xs → IdleFree ys
unfolding recycle
recycle-IdleFree dev b [] ys e f = cc
recycle-IdleFree dev b (z ∷ xs) ys e f = elim (Option-cases (recycle dev b xs)) [
  | inl last ↦
      let eq : renamed dev b z ∷ xs ≡ ys = ground arith in
      rw (← eq) ((λ p. absurd (omega arith)), f.1)
  | inr (zs, more) ↦
      let eq : z ∷ zs ≡ ys = ground arith in rw (← eq) (f.0, recycle-IdleFree dev b xs zs more f.1)
]

module _ (me dev : ℕ) where
  -- The buffer that `bget` claims, before its lock is taken.
  record Claimed (xs ys : List Buf) (c : Cache) (b : ℕ) (x : Buf) : Type 0 where
    found : get dev b ys ≡ some x
    unlocked : x.lock.locked ≡ false
    counted : x.refcnt ≡ count b c.pinned + 1
    contents : c.view b ≡ (if x.valid then x.bytes else c.disk b)
    clean : c.dirty b ≡ false → c.view b ≡ c.disk b
    unique : Unique dev ys
    more : total ys ≡ total xs + 1
    size : length ys ≡ length xs
    idle_free : IdleFree ys
    others : (a : ℕ) → a ≢ b → FitsAt me dev a (get dev a ys) c

  others_recycled :
      (s : Bcache) (c : Cache) (b : ℕ) (ys : List Buf) (a : ℕ)
      → Refines me dev s c
      → recycle dev b s.bufs ≡ some ys
      → a ≢ b
      → FitsAt me dev a (get dev a ys) c
  others_recycled s c b ys a r taken ne =
      elim (recycle_others dev b s.bufs ys a taken ne r.unique) [
        | inl same ↦ rw same (r.fits a)
        | inr (lost, idle) ↦ rw lost (Fits-none me dev (get dev a s.bufs) _ _ _ _ _ (r.fits a) idle)
      ]

  claim_finds :
      (s : Bcache) (c : Cache) (b : ℕ)
      → Refines me dev s c
      → (not (mem b c.held) && (mem b c.pinned || ltb (length c.held + length c.pinned) nbuf))
        ≡ true
      → (ys : List Buf) × (x : Buf) × (claim me dev b s.bufs ≡ some ys) × Claimed s.bufs ys c b x
  unfolding claim
  claim_finds s c b r room = elim (Option-cases (get dev b s.bufs)) [
    | inr (x, here) ↦
        let f = rw here at (r.fits b) in
        let x' : Buf = record x { refcnt = x.refcnt + 1 } in
        let key = get-is_for dev b s.bufs here in
        let table : (a : ℕ)
            → get dev a (replace dev b x' s.bufs) ≡ (if a == b then some x' else get dev a s.bufs) =
          λ a. get-replace dev b x' key s.bufs a here in
        (
          replace dev b x' s.bufs,
          x',
          rw (here, claim),
          record {
            found = ground (arith, table b);
            unlocked = ground (arith, mem-count b c.held);
            counted = ground (arith, mem-count b c.held);
            contents = f.1;
            clean = f.5;
            unique = replace-Unique dev b x' key s.bufs r.unique;
            more = omega (arith, total-replace dev b x' key s.bufs here);
            size = length-replace dev b x' key s.bufs;
            idle_free = IdleFree-replace me dev b x' s.bufs (λ e. absurd (omega arith)) r.idle_free;
            others = λ a ne.
                let e : get dev a (replace dev b x' s.bufs) ≡ get dev a s.bufs =
                  ground (arith, table a) in
                rw e (r.fits a);
          },
        )
    | inl gone ↦
        let f = rw gone at (r.fits b) in
        let (ys, taken) =
          recycle_finds dev b s.bufs (ground (arith, mem-count b c.pinned, r.references, r.size)) in
        let (v, idle, new) = recycle_new dev b s.bufs ys taken gone in
        let sums = total-recycle dev b s.bufs ys taken in
        (
          ys,
          renamed dev b v,
          rw (gone, claim) taken,
          record {
            found = new;
            unlocked =
                recycle_unlocked dev b s.bufs ys (renamed dev b v) taken gone r.idle_free new;
            counted = omega (arith, f.2);
            contents = f.0;
            clean = λ p. f.0;
            unique = recycle-Unique dev b s.bufs ys taken gone r.unique;
            more = sums.0;
            size = sums.1;
            idle_free = recycle-IdleFree dev b s.bufs ys taken r.idle_free;
            others = λ a ne. others_recycled s c b ys a r taken ne;
          },
        )
  ]

  -- The claimed buffer locked, with the contents that `bread` has read.
  abbrev fetched : ℕ → Buf → Disk → Buf
  fetched b x disk = record x {
    lock = record { locked = true; pid = me };
    valid = true;
    bytes = if x.valid then x.bytes else disk b;
  }

  fetch_claimed :
      (b : ℕ) (x : Buf) (s : Bcache)
      → x.lock.locked ≡ false
      → fetch me dev b x s
        ≡ some (
          (fetched b x s.disk).bytes,
          record s { bufs = replace dev b (fetched b x s.disk) s.bufs },
        )
  unfolding fetch acquiresleep
  fetch_claimed b x s h = rw (h, fetch)

  pub bread_refines :
      (s : Bcache) (c : Cache) (b : ℕ)
      → Refines me dev s c
      → (not (mem b c.held) && (mem b c.pinned || ltb (length c.held + length c.pinned) nbuf))
        ≡ true
      → (s' : Bcache) × (bread me dev b s ≡ some (c.view b, s'))
        × Refines me dev s' (record c { held = b ∷ c.held })
  unfolding bread
  bread_refines s c b r room =
      let (ys, x, claimed, k) = claim_finds s c b r room in
      let x' : Buf = fetched b x s.disk in
      let key = get-is_for dev b ys k.found in
      let got : x'.bytes ≡ c.view b = ground (arith, k.contents, r.same_disk) in
      let new : FitsAt me dev b (some x') (record c { held = b ∷ c.held }) =
        ground (arith, k.counted, k.clean, got, count-cons b b c.held, mem-count b c.held) in
      (
        record s { bufs = replace dev b x' ys },
        rw (claimed, k.found, bread)
            (fetch_claimed b x (record s { bufs = ys }) k.unlocked
              ∙ ap (λ z. some (z, record s { bufs = replace dev b x' ys })) got),
        record {
          same_disk = r.same_disk;
          same_writes = r.same_writes;
          unique = replace-Unique dev b x' key ys k.unique;
          size = length-replace dev b x' key ys ∙ k.size ∙ r.size;
          references = omega (arith, total-replace dev b x' key ys k.found, k.more, r.references);
          idle_free =
              IdleFree-replace me dev b x' ys (λ e. absurd (omega (arith, k.counted))) k.idle_free;
          fits = λ a. elim (Bool-cases (a == b)) [
            | inl e ↦
                let p : a ≡ b = ground arith in rw (get-replace dev b x' key ys a k.found, e, p) new
            | inr e ↦
                rw (get-replace dev b x' key ys a k.found, e)
                  (FitsAt-same me dev a (get dev a ys) c (record c { held = b ∷ c.held })
                    (refl, refl, ground (arith, count-cons a b c.held), refl, refl)
                    (k.others a (ground arith)))
          ];
        },
      )
