-- ===== src/Fs.antt =====
-- kernel/fs/fs.c (src/kernel/fs/fs.c in the repository): blocks, and the data of one inode.
-- A block is its 1024 bytes. `blocks` is what `bread` returns: the buffer cache and the log keep
-- it. A change of `bp->data` is `modify`, and `logged` are the blocks that `log_write` has had.
-- Each buffer is held from its `bread` to its `brelse`. `none` is a panic.
pub mod Bits
pub mod Balloc
pub mod Slots
pub mod Grow
pub mod Map
pub mod Data
pub mod Dinode
pub mod Change
pub mod Write
pub mod Read
pub mod Files
pub mod Array
pub mod Roundtrip
pub mod Trunc
pub mod Logged
pub mod Budget
mod Tests
use tatak_os.Base.{
  ℕ, zero, suc, ◌+◌, ◌-◌, ◌*◌, ◌/◌, ◌%◌, ◌^◌, Bool, true, false, not, ◌&&◌, ◌||◌, Option, none,
  some, ltb, leb, ◌==◌, if◌then◌else◌,
}
use tatak_os.Disk.{update}

-- BSIZE, NDIRECT, NINDIRECT, MAXFILE and BPB of include/kernel/fs.h.
abbrev pub bsize : ℕ
bsize = 1024

abbrev pub ndirect : ℕ
ndirect = 12

abbrev pub nindirect : ℕ
nindirect = bsize / 4

abbrev pub max_file : ℕ
max_file = ndirect + nindirect

abbrev pub bits_per_block : ℕ
bits_per_block = bsize * 8

abbrev pub Bytes : Type 0
Bytes = ℕ → ℕ

-- The fields of `struct superblock` that fs.c reads after the start.
pub record Superblock : Type 0 where
  pub magic : ℕ
  pub size : ℕ
  pub ninodes : ℕ
  pub logstart : ℕ
  pub inodestart : ℕ
  pub bmapstart : ℕ

pub record Fs : Type 0 where
  pub blocks : ℕ → Bytes
  pub logged : ℕ → Bool

-- `struct inode`, without the device and the lock.
pub record Inode : Type 0 where
  pub inum : ℕ
  pub ref : ℕ
  pub valid : Bool
  pub type : ℕ
  pub major : ℕ
  pub minor : ℕ
  pub nlink : ℕ
  pub size : ℕ
  pub addrs : ℕ → ℕ

abbrev pub modify : ℕ → Bytes → Fs → Fs
modify b x fs = record fs { blocks = update fs.blocks b x }

abbrev pub log_write : ℕ → Fs → Fs
log_write b fs = record fs { logged = update fs.logged b true }

abbrev pub bzero : ℕ → Fs → Fs
bzero b fs = log_write b (modify b (λ j. 0) fs)

-- `bp->data[bi/8] & m`, where `m` is `1 << (bi % 8)`.
abbrev pub has_bit : ℕ → ℕ → Bool
has_bit v k = v / 2 ^ k % 2 == 1

unfoldable pub is_set : Bytes → ℕ → Bool
is_set x bi = has_bit (x (bi / 8)) (bi % 8)

-- `|= m` and `&= ~m`
abbrev pub or_bit : ℕ → ℕ → ℕ
or_bit v k = if has_bit v k then v else v + 2 ^ k

abbrev pub and_not_bit : ℕ → ℕ → ℕ
and_not_bit v k = if has_bit v k then v - 2 ^ k else v

unfoldable pub set_bit : ℕ → Bytes → Bytes
set_bit bi x = update x (bi / 8) (or_bit (x (bi / 8)) (bi % 8))

unfoldable pub clear_bit : ℕ → Bytes → Bytes
clear_bit bi x = update x (bi / 8) (and_not_bit (x (bi / 8)) (bi % 8))

-- The inner loop of `balloc` from `bi` on, for at most `n` rounds.
unfoldable pub find_clear : Bytes → ℕ → ℕ → ℕ → ℕ → Option ℕ
find_clear x b size bi zero = none
find_clear x b size bi (suc n) =
    let rest = find_clear x b size (bi + 1) n in
    if ltb (b + bi) size then (if is_set x bi then rest else some bi) else none

-- A word of a block as a `uint`, and its assignment.
unfoldable pub word : Bytes → ℕ → ℕ
word x i = x (4 * i) + 256 * x (4 * i + 1) + 2 ^ 16 * x (4 * i + 2) + 2 ^ 24 * x (4 * i + 3)

-- Byte `k` of `v`, for `k` below 4.
abbrev pub byte_of : ℕ → ℕ → ℕ
byte_of v k =
    if k == 0
    then v % 256
    else if k == 1
    then v / 256 % 256
    else if k == 2
    then v / 2 ^ 16 % 256
    else v / 2 ^ 24 % 256

unfoldable pub put_word : ℕ → ℕ → Bytes → Bytes
put_word i v x j = if j / 4 == i then byte_of v (j % 4) else x j

module _ (sb : Superblock) where
  -- BBLOCK
  abbrev pub bblock : ℕ → ℕ
  bblock b = b / bits_per_block + sb.bmapstart

  -- The outer loop of `balloc` from `b` on, for at most `fuel` rounds.
  unfoldable pub balloc_from : ℕ → ℕ → Fs → Option (ℕ × Fs)
  balloc_from zero b fs = none
  balloc_from (suc fuel) b fs = elim (ltb b sb.size) [
    | false ↦ none
    | true ↦
        let x = fs.blocks (bblock b) in
        elim (find_clear x b sb.size 0 bits_per_block) [
          | none ↦ balloc_from fuel (b + bits_per_block) fs
          | some bi ↦
              some (
                b + bi,
                bzero (b + bi) (log_write (bblock b) (modify (bblock b) (set_bit bi x) fs)),
              )
        ]
  ]

  unfoldable pub balloc : Fs → Option (ℕ × Fs)
  balloc fs = balloc_from (suc (sb.size / bits_per_block)) 0 fs

  unfoldable pub bfree : ℕ → Fs → Option Fs
  bfree b fs =
      let x = fs.blocks (bblock b) in
      let bi = b % bits_per_block in
      if is_set x bi
      then some (log_write (bblock b) (modify (bblock b) (clear_bit bi x) fs))
      else none

  -- `if((addr = ip->addrs[i]) == 0) ip->addrs[i] = addr = balloc(ip->dev);`
  unfoldable pub addr_at : ℕ → Inode → Fs → Option (ℕ × (Inode × Fs))
  addr_at i ip fs =
      if ip.addrs i == 0
      then elim (balloc fs) [
        | none ↦ none
        | some (a, fs1) ↦ some (a, (record ip { addrs = update ip.addrs i a }, fs1))
      ]
      else some (ip.addrs i, (ip, fs))

  -- `if((addr = a[i]) == 0){ … }` on the indirect block `b`.
  unfoldable pub entry_at : ℕ → ℕ → Inode → Fs → Option (ℕ × (Inode × Fs))
  entry_at b i ip fs =
      if word (fs.blocks b) i == 0
      then elim (balloc fs) [
        | none ↦ none
        | some (a, fs1) ↦ some (a, (ip, log_write b (modify b (put_word i a (fs1.blocks b)) fs1)))
      ]
      else some (word (fs.blocks b) i, (ip, fs))

  unfoldable pub bmap : ℕ → Inode → Fs → Option (ℕ × (Inode × Fs))
  bmap bn ip fs =
      if ltb bn ndirect
      then addr_at bn ip fs
      else if ltb (bn - ndirect) nindirect
      then elim (addr_at ndirect ip fs) [
        | none ↦ none
        | some (b, (ip1, fs1)) ↦ entry_at b (bn - ndirect) ip1 fs1
      ]
      else none
