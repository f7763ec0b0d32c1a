-- ===== src/Bcache/Refine.antt =====
-- Each call of the buffer cache, but `bread`, does what the abstract cache promises.
use tatak_os.Base.{
  ℕ, ◌+◌, ◌-◌, ◌≡◌, inl, inr, refl, true, false, not, ◌||◌, some, [], ◌∷◌, ◌++◌, ◌==◌,
  length-append, arith, Bool-cases, Option-cases,
}
use tatak_os.Disk.{Block, update}
use tatak_os.Buffers.{mem}
use tatak_os.Buffers.Spec.{Cache, erase}
use tatak_os.Buffers.Counts.{mem-count, count-erase, length-erase, count-append_one}
use tatak_os.Sleeplock.{releasesleep}
use tatak_os.Bcache.{Buf, Bcache, get, replace, unlink, fill, bwrite, brelse, bpin, bunpin}
use tatak_os.Bcache.Ring.{get-is_for}
use tatak_os.Bcache.Relation.{
  Refines, held_buf_found, Elsewhere, FitsAt, FitsAt-update, Refines-replace, Refines-front,
}

module _ (me dev : ℕ) where
  pub fill_refines :
      (s : Bcache) (c : Cache) (b : ℕ) (new : Block)
      → Refines me dev s c
      → mem b c.held ≡ true
      → (s' : Bcache) × (fill me dev b new s ≡ some (tt, s'))
        × Refines me dev s' (record c { view = update c.view b new; dirty = update c.dirty b true })
  unfolding fill
  fill_refines s c b new r h =
      let (x, here, found, once) = held_buf_found me dev s c b r h in
      let f = rw here at (r.fits b) in
      (
        record s { bufs = replace dev b (record x { bytes = new }) s.bufs },
        rw (found, fill),
        Refines-replace me dev s c
            (record c { view = update c.view b new; dirty = update c.dirty b true }) b x
            (record x { bytes = new }) r here (get-is_for dev b s.bufs here) (ground arith)
            (refl, refl) refl (ground arith) (λ a ne. ground arith),
      )

  pub bwrite_refines :
      (s : Bcache) (c : Cache) (b : ℕ)
      → Refines me dev s c
      → mem b c.held ≡ true
      → (s' : Bcache) × (bwrite me dev b s ≡ some (tt, s'))
        × Refines me dev s' (record c {
          disk = update c.disk b (c.view b);
          dirty = update c.dirty b false;
          writes = c.writes ++ ((b, c.view b) ∷ []);
        })
  unfolding bwrite
  bwrite_refines s c b r h =
      let (x, here, found, once) = held_buf_found me dev s c b r h in
      let f = rw here at (r.fits b) in
      let same : x.bytes ≡ c.view b = ground arith in
      (
        record s { disk = update s.disk b x.bytes; writes = s.writes ++ ((b, x.bytes) ∷ []) },
        rw (found, bwrite),
        record {
          same_disk = rw (r.same_disk, same);
          same_writes = rw (r.same_writes, same);
          unique = r.unique;
          size = r.size;
          references = r.references;
          idle_free = r.idle_free;
          fits =
              FitsAt-update me dev b x s.bufs s.bufs c
                (record c {
                  disk = update c.disk b (c.view b);
                  dirty = update c.dirty b false;
                  writes = c.writes ++ ((b, c.view b) ∷ []);
                })
                (λ a. ground (arith, here)) r.fits (ground arith) (λ a ne. ground arith);
        },
      )

  pub bpin_refines :
      (s : Bcache) (c : Cache) (b : ℕ)
      → Refines me dev s c
      → mem b c.held ≡ true
      → (s' : Bcache) × (bpin me dev b s ≡ some (tt, s'))
        × Refines me dev s' (record c { pinned = c.pinned ++ (b ∷ []) })
  unfolding bpin
  bpin_refines s c b r h =
      let (x, here, found, once) = held_buf_found me dev s c b r h in
      let f = rw here at (r.fits b) in
      let pins = count-append_one b b c.pinned in
      (
        record s { bufs = replace dev b (record x { refcnt = x.refcnt + 1 }) s.bufs },
        rw (here, bpin),
        Refines-replace me dev s c (record c { pinned = c.pinned ++ (b ∷ []) }) b x
            (record x { refcnt = x.refcnt + 1 }) r here (get-is_for dev b s.bufs here)
            (ground arith) (refl, refl) (omega (arith, length-append c.pinned (b ∷ [])))
            (ground arith) (λ a ne. ground (arith, count-append_one a b c.pinned)),
      )

  pub bunpin_refines :
      (s : Bcache) (c : Cache) (b : ℕ)
      → Refines me dev s c
      → mem b c.pinned ≡ true
      → (mem b c.held || not (c.dirty b)) ≡ true
      → (s' : Bcache) × (bunpin me dev b s ≡ some (tt, s'))
        × Refines me dev s' (record c { pinned = erase b c.pinned })
  unfolding bunpin
  bunpin_refines s c b r h safe = elim (Option-cases (get dev b s.bufs)) [
    | inl gone ↦ let f = rw gone at (r.fits b) in absurd (ground (arith, mem-count b c.pinned))
    | inr (x, here) ↦
        let f = rw here at (r.fits b) in
        let fewer = count-erase b b c.pinned h in
        (
          record s { bufs = replace dev b (record x { refcnt = x.refcnt - 1 }) s.bufs },
          rw (here, bunpin),
          Refines-replace me dev s c (record c { pinned = erase b c.pinned }) b x
              (record x { refcnt = x.refcnt - 1 }) r here (get-is_for dev b s.bufs here)
              (ground arith) (refl, refl) (ground (arith, length-erase b c.pinned h))
              (ground (arith, mem-count b c.held))
              (λ a ne. ground (arith, count-erase a b c.pinned h)),
        )
  ]

  pub brelse_refines :
      (s : Bcache) (c : Cache) (b : ℕ)
      → Refines me dev s c
      → mem b c.held ≡ true
      → (mem b c.pinned || not (c.dirty b)) ≡ true
      → (s' : Bcache) × (brelse me dev b s ≡ some (tt, s'))
        × Refines me dev s' (record c { held = erase b c.held })
  unfolding brelse releasesleep
  brelse_refines s c b r h safe =
      let (x, here, found, once) = held_buf_found me dev s c b r h in
      let f = rw here at (r.fits b) in
      let x' : Buf = record x { lock = releasesleep x.lock; refcnt = x.refcnt - 1 } in
      let c' : Cache = record c { held = erase b c.held } in
      let fewer = count-erase b b c.held h in
      let key = get-is_for dev b s.bufs here in
      let shorter = length-erase b c.held h in
      let new : FitsAt me dev b (some x') c' = ground (arith, mem-count b c.pinned, once, fewer) in
      let others : Elsewhere me dev b c c' = λ a ne. ground (arith, count-erase a b c.held h) in
      elim (Bool-cases (x.refcnt - 1 == 0)) [
        | inr used ↦ (
          record s { bufs = replace dev b x' s.bufs },
          rw (found, used, brelse),
          Refines-replace me dev s c c' b x x' r here key (λ e. refl) (refl, refl) (ground arith)
              new others,
        )
        | inl free ↦ (
          record s { bufs = x' ∷ unlink dev b s.bufs },
          rw (found, free, brelse),
          Refines-front me dev s c c' b x x' r here key (λ e. refl) (refl, refl) (ground arith) new
              others,
        )
      ]
