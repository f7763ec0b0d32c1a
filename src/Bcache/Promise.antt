-- ===== src/Bcache/Promise.antt =====
-- bio.c as an implementation of the interface `Ops`, and the cache just after `binit`.
use tatak_os.Base.{
  ℕ, zero, suc, ◌≡◌, ◌≢◌, refl, Bool, true, false, ◌&&◌, Option, none, some, [], if◌then◌else◌, map,
  length, ◌<◌, arith,
}
use tatak_os.Disk.{Block, Disk}
use tatak_os.Buffers.{M, nbuf}
use tatak_os.Buffers.Spec.{Cache, guard}
use tatak_os.Buffers.Simulation.{Simulates}
use tatak_os.Buffers.Counts.{count}
use tatak_os.Bcache.{Buf, Bcache, get, fill, bwrite, brelse, bpin, bunpin, bio}
use tatak_os.Bcache.Init.{Links, binit, ring, boot}
use tatak_os.Bcache.Linked.{
  downto, IsZero, IsUnused, IsRing, binit-IsRing, binit-ring, binit-IsUnused,
}
use tatak_os.Bcache.Ring.{total, Unique}
use tatak_os.Bcache.Relation.{IdleFree, Refines}
use tatak_os.Bcache.Refine.{
  fill_refines, bwrite_refines, bpin_refines, bunpin_refines, brelse_refines,
}
use tatak_os.Log.Rounds.{idle}
use tatak_os.Bcache.Claim.{bread_refines}

-- A guarded call that returns has passed its test.
guard-some :
    (t : Bool) (c1 : Cache) (r : Unit {0}) (c' : Cache)
    → guard t c1 ≡ some (r, c')
    → (t ≡ true) × (c1 ≡ c')
guard-some true c1 r c' e = (refl, cc)
guard-some false c1 r c' e = cc

test_some :
    (t : Bool) (v : Block) (c1 : Cache) (r : Block) (c' : Cache)
    → if◌then◌else◌ {A = Option (Block × Cache)} t (some (v, c1)) none ≡ some (r, c')
    → (t ≡ true) × (v ≡ r) × (c1 ≡ c')
test_some true v c1 r c' e = (refl, cc, cc)
test_some false v c1 r c' e = cc

and_true : (s t : Bool) → (s && t) ≡ true → (s ≡ true) × (t ≡ true)
and_true true t h = (refl, h)
and_true false t h = cc

module _ (me dev : ℕ) where
  -- The result of a call under its guard, moved to the cache that the abstract call returns.
  moved :
      (m : M Bcache (Unit {0})) (s : Bcache) (c1 c' : Cache)
      → (s' : Bcache) × (m s ≡ some (tt, s')) × Refines me dev s' c1
      → c1 ≡ c'
      → (s' : Bcache) × (m s ≡ some (tt, s')) × Refines me dev s' c'
  moved m s c1 c' (s', e, r) same = (s', e, rw same at r)

  -- Whatever the abstract cache promises of a call of bread, bwrite, brelse, bpin or bunpin, or of a
  -- client's write into a buffer that it holds, the functions of bio.c do: they return the same, and
  -- the states stay related, so that also the disk and the order of the writes are the same.
  pub bio-Simulates : Simulates (bio me dev) (Refines me dev)
  bio-Simulates = record {
    bread = λ b s c r c' rel e.
        let (t, v, same) = test_some _ (c.view b) _ r c' e in
        let (s', ran, rel') = bread_refines me dev s c b rel t in
        (s', rw (← v) ran, rw same at rel');
    fill = λ b x s c r c' rel e.
        let (t, same) = guard-some _ _ r c' e in
        moved (fill me dev b x) s _ c' (fill_refines me dev s c b x rel t) same;
    bwrite = λ b s c r c' rel e.
        let (t, same) = guard-some _ _ r c' e in
        moved (bwrite me dev b) s _ c' (bwrite_refines me dev s c b rel t) same;
    brelse = λ b s c r c' rel e.
        let (t, same) = guard-some _ _ r c' e in
        let (h, safe) = and_true _ _ t in
        moved (brelse me dev b) s _ c' (brelse_refines me dev s c b rel h safe) same;
    bpin = λ b s c r c' rel e.
        let (t, same) = guard-some _ _ r c' e in
        moved (bpin me dev b) s _ c' (bpin_refines me dev s c b rel t) same;
    bunpin = λ b s c r c' rel e.
        let (t, same) = guard-some _ _ r c' e in
        let (h, safe) = and_true _ _ t in
        moved (bunpin me dev b) s _ c' (bunpin_refines me dev s c b rel h safe) same;
  }

-- Buffers that are not in use.
module _ (dev : ℕ) (ne : dev ≢ 0) (buf : ℕ → Buf) where
  get-unused :
      (b n : ℕ) → ((x : ℕ) → x < n → IsUnused (buf x)) → get dev b (map buf (downto n)) ≡ none
  unfolding get
  get-unused b zero h = refl
  get-unused b (suc n) h =
      let rest = get-unused b n (λ x lt. h x (omega arith)) in
      let (at, stale, free, unlocked) = h n (omega arith) in ground (arith, rest, at, ne)

  unused-Unique : (n : ℕ) → ((x : ℕ) → x < n → IsUnused (buf x)) → Unique dev (map buf (downto n))
  unused-Unique zero h = tt
  unused-Unique (suc n) h =
      let below : (x : ℕ) → x < n → IsUnused (buf x) = λ x lt. h x (omega arith) in
      ((λ e. get-unused (buf n).blockno n below), unused-Unique n below)

  unused-IdleFree : (n : ℕ) → ((x : ℕ) → x < n → IsUnused (buf x)) → IdleFree (map buf (downto n))
  unused-IdleFree zero h = tt
  unused-IdleFree (suc n) h =
      ((λ e. (h n (omega arith)).3), unused-IdleFree n (λ x lt. h x (omega arith)))

  total-unused : (n : ℕ) → ((x : ℕ) → x < n → IsUnused (buf x)) → total (map buf (downto n)) ≡ 0
  unfolding total
  total-unused zero h = refl
  total-unused (suc n) h =
      let rest = total-unused n (λ x lt. h x (omega arith)) in
      let (at, stale, free, unlocked) = h n (omega arith) in omega (arith, rest, free)

length-downto : (buf : ℕ → Buf) (n : ℕ) → length (map buf (downto n)) ≡ n
length-downto buf zero = refl
length-downto buf (suc n) = omega (arith, length-downto buf n)

-- The cache after `binit` in the memory `s`, over the disk `d`.
abbrev pub started : Links → Disk → Bcache
started s d = record { bufs = ring (binit s); disk = d; writes = [] }

abbrev pub fresh : Disk → Bcache
fresh d = started boot d

-- Whatever the links and the contents of `bcache` were before, if no buffer in it has a device, a
-- reference or valid data: `binit` links its NBUF buffers into one ring, in which `prev` and `next`
-- are inverse to each other, and all of them are unlocked. For every device but 0, the cache with
-- this ring stands for the abstract cache in which no block has a buffer.
pub fresh-Refines :
    (me dev : ℕ) (s : Links) (d : Disk)
    → dev ≢ 0
    → IsZero s
    → IsRing (binit s)
      × ((x : ℕ) → x < nbuf → IsUnused ((binit s).buf x))
      × Refines me dev (started s d) (idle d d (λ b. false) [] [])
unfolding count
fresh-Refines me dev s d ne zeros =
    let buf = (binit s).buf in
    let h = binit-IsUnused s zeros in
    let e = binit-ring s in
    (
      binit-IsRing s,
      h,
      record {
        same_disk = refl;
        same_writes = refl;
        unique = rw e (unused-Unique dev ne buf nbuf h);
        size = rw e (length-downto buf nbuf);
        references = rw e (total-unused dev ne buf nbuf h);
        idle_free = rw e (unused-IdleFree dev ne buf nbuf h);
        fits = λ b.
            let none_yet : get dev b (ring (binit s)) ≡ none =
              rw e (get-unused dev ne buf b nbuf h) in
            rw none_yet (refl, refl, refl, refl);
      },
    )
