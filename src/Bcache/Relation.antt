-- ===== src/Bcache/Relation.antt =====
-- How the buffers of bio.c stand for the abstract cache of Buffers/Spec, and changes of one buffer.
use tatak_os.Base.{
  ℕ, ◌+◌, ◌<◌, ◌≤◌, ◌≡◌, ◌≢◌, inl, inr, ◌∙◌, sym, Bool, true, false, Option, none, some, List, [],
  ◌∷◌, ltb, ◌==◌, if◌then◌else◌, length, arith, Bool-cases, Option-cases,
}
use tatak_os.Disk.{Block}
use tatak_os.Buffers.{nbuf, mem}
use tatak_os.Buffers.Spec.{Cache}
use tatak_os.Buffers.Counts.{count, mem-count}
use tatak_os.Sleeplock.{holdingsleep}
use tatak_os.Bcache.{Buf, Bcache, is_for, get, replace, unlink, held_buf}
use tatak_os.Bcache.Ring.{
  total, Unique, get-replace, replace-Unique, total-replace, length-replace, get-front,
  front-Unique, total-unlink,
}
use tatak_os.Bcache.Recycle.{Idle}

-- What the buffer of a block, if there is one, has to do with the block in the abstract cache: its
-- view and its contents on the disk, how often it is held and pinned, and whether it is dirty.
abbrev pub Fits : ℕ → Option Buf → Block → Block → ℕ → ℕ → Bool → Type 0
Fits me none view disk held pins dirty = (view ≡ disk) × (held ≡ 0) × (pins ≡ 0) × (dirty ≡ false)
Fits me (some x) view disk held pins dirty =
    (x.refcnt ≡ held + pins)
    × (view ≡ (if x.valid then x.bytes else disk))
    × (x.lock.locked ≡ ltb 0 held)
    × (held ≤ 1)
    × (held ≡ 1 → (x.lock.pid ≡ me) × (x.valid ≡ true))
    × (dirty ≡ false → view ≡ disk)
    × (dirty ≡ true → 0 < x.refcnt)

-- Nobody holds the lock of a buffer that nobody refers to.
abbrev pub IdleFree : List Buf → Type 0
IdleFree [] = Unit
IdleFree (x ∷ xs) = (x.refcnt ≡ 0 → x.lock.locked ≡ false) × IdleFree xs

module _ (me dev : ℕ) where
  pub record Refines (s : Bcache) (c : Cache) : Type 0 where
    pub same_disk : s.disk ≡ c.disk
    pub same_writes : s.writes ≡ c.writes
    pub unique : Unique dev s.bufs
    pub size : length s.bufs ≡ nbuf
    pub references : total s.bufs ≡ length c.held + length c.pinned
    pub idle_free : IdleFree s.bufs
    pub fits :
        (b : ℕ)
        → Fits me
            (get dev b s.bufs)
            (c.view b)
            (c.disk b)
            (count b c.held)
            (count b c.pinned)
            (c.dirty b)

  -- A block that nobody holds or pins may lose its buffer.
  pub Fits-none :
      (o : Option Buf) (v d : Block) (h p : ℕ) (y : Bool)
      → Fits me o v d h p y
      → Idle o
      → Fits me none v d h p y
  Fits-none none v d h p y f i = f
  Fits-none (some x) v d h p y f i = ground arith

  pub IdleFree-replace :
      (b : ℕ) (x : Buf) (xs : List Buf)
      → (x.refcnt ≡ 0 → x.lock.locked ≡ false)
      → IdleFree xs
      → IdleFree (replace dev b x xs)
  unfolding replace
  IdleFree-replace b x [] h f = f
  IdleFree-replace b x (y ∷ xs) h f = elim (Bool-cases (is_for dev b y)) [
    | inl e ↦ rw e (h, f.1)
    | inr e ↦ rw e (f.0, IdleFree-replace b x xs h f.1)
  ]

  -- A held buffer is found by the code.
  pub held_buf_found :
      (s : Bcache) (c : Cache) (b : ℕ)
      → Refines s c
      → mem b c.held ≡ true
      → (x : Buf) × (get dev b s.bufs ≡ some x)
        × (held_buf me dev b s ≡ some x)
        × (count b c.held ≡ 1)
  unfolding held_buf holdingsleep
  held_buf_found s c b r h = elim (Option-cases (get dev b s.bufs)) [
    | inl gone ↦ let f = rw gone at (r.fits b) in absurd (ground (arith, mem-count b c.held))
    | inr (x, here) ↦
        let f = rw here at (r.fits b) in
        (x, here, ground (arith, mem-count b c.held), ground (arith, mem-count b c.held))
  ]

  -- What an operation on block `b` leaves alone in the abstract cache.
  abbrev pub Elsewhere : ℕ → Cache → Cache → Type 0
  Elsewhere b c c' =
      (a : ℕ)
      → a ≢ b
      → (c'.view a ≡ c.view a)
        × (c'.disk a ≡ c.disk a)
        × (count a c'.held ≡ count a c.held)
        × (count a c'.pinned ≡ count a c.pinned)
        × (c'.dirty a ≡ c.dirty a)

  abbrev pub FitsAt : ℕ → Option Buf → Cache → Type 0
  FitsAt b o c = Fits me o (c.view b) (c.disk b) (count b c.held) (count b c.pinned) (c.dirty b)

  pub FitsAt-same :
      (a : ℕ) (o : Option Buf) (c c' : Cache)
      → (c'.view a ≡ c.view a)
        × (c'.disk a ≡ c.disk a)
        × (count a c'.held ≡ count a c.held)
        × (count a c'.pinned ≡ count a c.pinned)
        × (c'.dirty a ≡ c.dirty a)
      → FitsAt a o c
      → FitsAt a o c'
  FitsAt-same a o c c' (v, d, h, p, y) f = rw (v, d, h, p, y) f

  -- The table has `o` at `b`, and elsewhere what it had.
  pub FitsAt-update :
      (b : ℕ) (x : Buf) (xs ys : List Buf) (c c' : Cache)
      → ((a : ℕ) → get dev a ys ≡ (if a == b then some x else get dev a xs))
      → ((a : ℕ) → FitsAt a (get dev a xs) c)
      → FitsAt b (some x) c'
      → Elsewhere b c c'
      → (a : ℕ) → FitsAt a (get dev a ys) c'
  FitsAt-update b x xs ys c c' table old new others a = elim (Bool-cases (a == b)) [
    | inl e ↦ let p : a ≡ b = ground arith in rw (table a, e, p) new
    | inr e ↦ rw (table a, e) (FitsAt-same a (get dev a xs) c c' (others a (ground arith)) (old a))
  ]

  -- A buffer changes in place.
  pub Refines-replace :
      (s : Bcache) (c c' : Cache) (b : ℕ) (x x' : Buf)
      → Refines s c
      → get dev b s.bufs ≡ some x
      → (x'.dev ≡ dev) × (x'.blockno ≡ b)
      → (x'.refcnt ≡ 0 → x'.lock.locked ≡ false)
      → (c'.disk ≡ c.disk) × (c'.writes ≡ c.writes)
      → length c'.held + length c'.pinned + x.refcnt ≡ length c.held + length c.pinned + x'.refcnt
      → FitsAt b (some x') c'
      → Elsewhere b c c'
      → Refines (record s { bufs = replace dev b x' s.bufs }) c'
  Refines-replace s c c' b x x' r here key free same refs new others = record {
    same_disk = r.same_disk ∙ sym same.0;
    same_writes = r.same_writes ∙ sym same.1;
    unique = replace-Unique dev b x' key s.bufs r.unique;
    size = length-replace dev b x' key s.bufs ∙ r.size;
    references = omega (arith, total-replace dev b x' key s.bufs here, r.references, refs);
    idle_free = IdleFree-replace b x' s.bufs free r.idle_free;
    fits =
        FitsAt-update b x' s.bufs (replace dev b x' s.bufs) c c'
          (λ a. get-replace dev b x' key s.bufs a here) r.fits new others;
  }

  IdleFree-unlink : (b : ℕ) (xs : List Buf) → IdleFree xs → IdleFree (unlink dev b xs)
  unfolding unlink
  IdleFree-unlink b [] f = f
  IdleFree-unlink b (y ∷ xs) f = elim (Bool-cases (is_for dev b y)) [
    | inl e ↦ rw e f.1
    | inr e ↦ rw e (f.0, IdleFree-unlink b xs f.1)
  ]

  total-front :
      (b : ℕ) (x x' : Buf) (xs : List Buf)
      → get dev b xs ≡ some x
      → (total (x' ∷ unlink dev b xs) + x.refcnt ≡ total xs + x'.refcnt)
        × (length (x' ∷ unlink dev b xs) ≡ length xs)
  unfolding total
  total-front b x x' xs here = omega (arith, total-unlink dev b xs here)

  -- A buffer changes and goes to the front of the ring.
  pub Refines-front :
      (s : Bcache) (c c' : Cache) (b : ℕ) (x x' : Buf)
      → Refines s c
      → get dev b s.bufs ≡ some x
      → (x'.dev ≡ dev) × (x'.blockno ≡ b)
      → (x'.refcnt ≡ 0 → x'.lock.locked ≡ false)
      → (c'.disk ≡ c.disk) × (c'.writes ≡ c.writes)
      → length c'.held + length c'.pinned + x.refcnt ≡ length c.held + length c.pinned + x'.refcnt
      → FitsAt b (some x') c'
      → Elsewhere b c c'
      → Refines (record s { bufs = x' ∷ unlink dev b s.bufs }) c'
  Refines-front s c c' b x x' r here key free same refs new others = record {
    same_disk = r.same_disk ∙ sym same.0;
    same_writes = r.same_writes ∙ sym same.1;
    unique = front-Unique dev b x' s.bufs key.1 r.unique;
    size = (total-front b x x' s.bufs here).1 ∙ r.size;
    references = omega (arith, total-front b x x' s.bufs here, r.references, refs);
    idle_free = (free, IdleFree-unlink b s.bufs r.idle_free);
    fits =
        FitsAt-update b x' s.bufs (x' ∷ unlink dev b s.bufs) c c'
          (λ a. get-front dev b x' key s.bufs a here) r.fits new others;
  }
