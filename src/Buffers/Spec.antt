-- ===== src/Buffers/Spec.antt =====
-- The abstract buffer cache: what bio.c promises to one process. A `none` is a call with no
-- promise: bread of a buffer that the process holds already (it would wait for itself), bread when
-- no buffer is surely free, or giving up a buffer whose contents are nowhere else.
use tatak_os.Base.{
  ℕ, ◌+◌, Bool, true, false, not, ◌&&◌, ◌||◌, Option, none, some, List, [], ◌∷◌, ◌++◌, ltb, ◌==◌,
  if◌then◌else◌, length,
}
use tatak_os.Disk.{Block, Disk, Writes, update}
use tatak_os.Buffers.{M, Ops, nbuf, mem}

-- `view` is what a read of each block returns, `dirty` says which blocks the disk does not have,
-- `writes` are all writes to the disk so far.
pub record Cache : Type 0 where
  pub disk : Disk
  pub view : Disk
  pub dirty : ℕ → Bool
  pub held : List ℕ
  pub pinned : List ℕ
  pub writes : Writes

abbrev pub erase : ℕ → List ℕ → List ℕ
erase b [] = []
erase b (x ∷ xs) = if b == x then xs else x ∷ erase b xs

abbrev pub guard : Bool → Cache → Option (Unit {0} × Cache)
guard true c = some (tt, c)
guard false c = none

abbrev pub bread : ℕ → M Cache Block
bread b c =
    if not (mem b c.held) && (mem b c.pinned || ltb (length c.held + length c.pinned) nbuf)
    then some (c.view b, record c { held = b ∷ c.held })
    else none

abbrev pub fill : ℕ → Block → M Cache (Unit {0})
fill b x c =
    guard (mem b c.held) (record c { view = update c.view b x; dirty = update c.dirty b true })

abbrev pub bwrite : ℕ → M Cache (Unit {0})
bwrite b c = guard (mem b c.held) (record c {
  disk = update c.disk b (c.view b);
  dirty = update c.dirty b false;
  writes = c.writes ++ ((b, c.view b) ∷ []);
})

-- A buffer that is given up may be recycled: it must be on disk, or pinned.
abbrev pub brelse : ℕ → M Cache (Unit {0})
brelse b c =
    guard (mem b c.held && (mem b c.pinned || not (c.dirty b))) (record c { held = erase b c.held })

abbrev pub bpin : ℕ → M Cache (Unit {0})
bpin b c = guard (mem b c.held) (record c { pinned = c.pinned ++ (b ∷ []) })

abbrev pub bunpin : ℕ → M Cache (Unit {0})
bunpin b c =
    guard (mem b c.pinned && (mem b c.held || not (c.dirty b)))
      (record c { pinned = erase b c.pinned })

abbrev pub spec : Ops Cache
spec = record {
  bread = bread;
  fill = fill;
  bwrite = bwrite;
  brelse = brelse;
  bpin = bpin;
  bunpin = bunpin;
}
