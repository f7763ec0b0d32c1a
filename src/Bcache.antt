-- ===== src/Bcache.antt =====
-- kernel/fs/bio.c (src/kernel/fs/bio.c in the repository): the buffer cache.
-- The ring through `prev` and `next`, which Bcache/Init has as it is built, is the list of its
-- buffers from `head.next` on, the most recently used first. `virtio_disk_rw` moves one block between a buffer and the disk, at once.
-- Each function is run by the process `me`; `none` is a panic, or a sleep on a buffer's lock.
pub mod Ring
pub mod Recycle
pub mod Relation
pub mod Refine
pub mod Claim
pub mod Promise
pub mod Init
pub mod Linked
mod Tests
use tatak_os.Base.{
  ℕ, zero, suc, ◌+◌, ◌-◌, Bool, true, false, not, ◌&&◌, Option, none, some, List, [], ◌∷◌, ◌++◌,
  ◌==◌, if◌then◌else◌, replicate,
}
use tatak_os.Disk.{Block, Disk, Writes, update}
use tatak_os.Buffers.{M, ◌>>=◌, ◌>>◌, pure, Ops, nbuf}
use tatak_os.Sleeplock.{Sleeplock, initsleeplock, acquiresleep, releasesleep, holdingsleep}

-- `struct buf`, without the links and `disk`, which is the driver's.
pub record Buf : Type 0 where
  pub valid : Bool
  pub dev : ℕ
  pub blockno : ℕ
  pub lock : Sleeplock
  pub refcnt : ℕ
  pub bytes : Block

-- `bcache`, and the disk behind it.
pub record Bcache : Type 0 where
  pub bufs : List Buf
  pub disk : Disk
  pub writes : Writes

-- `b->dev == dev && b->blockno == blockno`
abbrev pub is_for : ℕ → ℕ → Buf → Bool
is_for dev b x = x.dev == dev && x.blockno == b

-- The buffer of a block, if it is cached.
pub get : ℕ → ℕ → List Buf → Option Buf
get dev b [] = none
get dev b (x ∷ xs) = if is_for dev b x then some x else get dev b xs

-- The buffer of a block changes in place.
pub replace : ℕ → ℕ → Buf → List Buf → List Buf
replace dev b y [] = []
replace dev b y (x ∷ xs) = if is_for dev b x then y ∷ xs else x ∷ replace dev b y xs

abbrev pub prepend : Buf → Option (List Buf) → Option (List Buf)
prepend x none = none
prepend x (some ys) = some (x ∷ ys)

-- The buffer that the second loop of `bget` prepares.
abbrev pub renamed : ℕ → ℕ → Buf → Buf
renamed dev b x = record x { dev = dev; blockno = b; valid = false; refcnt = 1 }

-- The second loop of `bget`, from `head.prev` on: the last free buffer of the list is taken.
pub recycle : ℕ → ℕ → List Buf → Option (List Buf)
recycle dev b [] = none
recycle dev b (x ∷ xs) = elim (recycle dev b xs) [
  | some ys ↦ some (x ∷ ys)
  | none ↦ if x.refcnt == 0 then some (renamed dev b x ∷ xs) else none
]

-- The list without the buffer of a block.
pub unlink : ℕ → ℕ → List Buf → List Buf
unlink dev b [] = []
unlink dev b (x ∷ xs) = if is_for dev b x then xs else x ∷ unlink dev b xs

module _ (me dev : ℕ) where
  -- The two loops of `bget`, up to the release of `bcache.lock`.
  pub claim : ℕ → List Buf → Option (List Buf)
  claim b xs = elim (get dev b xs) [
    | some x ↦ some (replace dev b (record x { refcnt = x.refcnt + 1 }) xs)
    | none ↦ recycle dev b xs
  ]

  -- The rest of `bget`, and `bread`: lock the buffer `x`, and read the block if it is not valid.
  pub fetch : ℕ → Buf → M Bcache Block
  fetch b x s = elim (acquiresleep me x.lock) [
    | none ↦ none
    | some l ↦
        let x' = record x {
          lock = l;
          valid = true;
          bytes = if x.valid then x.bytes else s.disk b;
        } in
        some (x'.bytes, record s { bufs = replace dev b x' s.bufs })
  ]

  pub bread : ℕ → M Bcache Block
  bread b s = elim (claim b s.bufs) [
    | none ↦ none
    | some xs ↦ elim (get dev b xs) [ none ↦ none | some x ↦ fetch b x (record s { bufs = xs }) ]
  ]

  -- The buffer of a block if this process holds its lock.
  pub held_buf : ℕ → Bcache → Option Buf
  held_buf b s = elim (get dev b s.bufs) [
    | none ↦ none
    | some x ↦ if holdingsleep me x.lock then some x else none
  ]

  -- The client's `memmove` into `b->data`.
  pub fill : ℕ → Block → M Bcache (Unit {0})
  fill b new s = elim (held_buf b s) [
    | none ↦ none
    | some x ↦ some (tt, record s { bufs = replace dev b (record x { bytes = new }) s.bufs })
  ]

  pub bwrite : ℕ → M Bcache (Unit {0})
  bwrite b s = elim (held_buf b s) [
    | none ↦ none
    | some x ↦
        some (
          tt,
          record s { disk = update s.disk b x.bytes; writes = s.writes ++ ((b, x.bytes) ∷ []) },
        )
  ]

  -- A buffer that nobody refers to goes to the front of the ring.
  pub brelse : ℕ → M Bcache (Unit {0})
  brelse b s = elim (held_buf b s) [
    | none ↦ none
    | some x ↦
        let x' = record x { lock = releasesleep x.lock; refcnt = x.refcnt - 1 } in
        some (
          tt,
          record s {
            bufs = if x'.refcnt == 0 then x' ∷ unlink dev b s.bufs else replace dev b x' s.bufs;
          },
        )
  ]

  -- `none` where the caller has no buffer of that block to pass.
  pub bpin : ℕ → M Bcache (Unit {0})
  bpin b s = elim (get dev b s.bufs) [
    | none ↦ none
    | some x ↦
        some (tt, record s { bufs = replace dev b (record x { refcnt = x.refcnt + 1 }) s.bufs })
  ]

  pub bunpin : ℕ → M Bcache (Unit {0})
  bunpin b s = elim (get dev b s.bufs) [
    | none ↦ none
    | some x ↦
        some (tt, record s { bufs = replace dev b (record x { refcnt = x.refcnt - 1 }) s.bufs })
  ]

  abbrev pub bio : Ops Bcache
  bio = record {
    bread = bread;
    fill = fill;
    bwrite = bwrite;
    brelse = brelse;
    bpin = bpin;
    bunpin = bunpin;
  }
