-- ===== src/Fs/Dinode.antt =====
-- kernel/fs/fs.c: inodes on the disk. `struct dinode` has 64 bytes: four `short`, the size, and
-- the addresses, so that its halves and words stand at multiples of their sizes.
use tatak_os.Base.{
  ℕ, zero, suc, ◌+◌, ◌-◌, ◌*◌, ◌/◌, ◌%◌, true, Option, none, some, ltb, ◌==◌, if◌then◌else◌,
}
use tatak_os.Fs.{ndirect, bsize, Bytes, Superblock, Fs, Inode, modify, log_write, word, put_word}

-- IPB of include/kernel/fs.h.
abbrev pub inodes_per_block : ℕ
inodes_per_block = bsize / 64

-- A half word of a block, and its assignment.
unfoldable pub half : Bytes → ℕ → ℕ
half x i = x (2 * i) + 256 * x (2 * i + 1)

unfoldable pub put_half : ℕ → ℕ → Bytes → Bytes
put_half i v x j = if j / 2 == i then (if j % 2 == 0 then v % 256 else v / 256 % 256) else x j

-- `memmove(dip->addrs, ip->addrs, …)`, from address `i` on, for `n` addresses.
unfoldable pub put_addrs : (ℕ → ℕ) → ℕ → ℕ → ℕ → Bytes → Bytes
put_addrs addrs at i zero x = x
put_addrs addrs at i (suc n) x = put_addrs addrs at (i + 1) n (put_word (at + i) (addrs i) x)

-- The assignments of `iupdate` to the inode with index `k` in its block.
unfoldable pub put_dinode : ℕ → Inode → Bytes → Bytes
put_dinode k ip x =
    let x1 = put_half (32 * k) ip.type x in
    let x2 = put_half (32 * k + 1) ip.major x1 in
    let x3 = put_half (32 * k + 2) ip.minor x2 in
    let x4 = put_half (32 * k + 3) ip.nlink x3 in
    let x5 = put_word (16 * k + 2) ip.size x4 in put_addrs ip.addrs (16 * k + 3) 0 (ndirect + 1) x5

-- What `ilock` reads.
unfoldable pub get_dinode : ℕ → Bytes → Inode → Inode
get_dinode k x ip = record ip {
  type = half x (32 * k);
  major = half x (32 * k + 1);
  minor = half x (32 * k + 2);
  nlink = half x (32 * k + 3);
  size = word x (16 * k + 2);
  addrs = λ i. if ltb i (ndirect + 1) then word x (16 * k + 3 + i) else ip.addrs i;
}

-- The assignments of `ialloc`, after `memset`.
unfoldable pub new_dinode : ℕ → ℕ → Bytes → Bytes
new_dinode k type x = put_half (32 * k) type (λ j. if j / 64 == k then 0 else x j)

module _ (sb : Superblock) where
  -- IBLOCK
  abbrev pub iblock : ℕ → ℕ
  iblock inum = inum / inodes_per_block + sb.inodestart

  unfoldable pub iupdate : Inode → Fs → Fs
  iupdate ip fs =
      let b = iblock ip.inum in
      log_write b (modify b (put_dinode (ip.inum % inodes_per_block) ip (fs.blocks b)) fs)

  -- `ilock` once it has the lock; `none` is a panic.
  unfoldable pub load : Inode → Fs → Option Inode
  load ip fs =
      let ip1 = get_dinode (ip.inum % inodes_per_block) (fs.blocks (iblock ip.inum)) ip in
      if ip.ref == 0
      then none
      else if ip.valid
      then some ip
      else if ip1.type == 0
      then none
      else some (record ip1 { valid = true })

  -- The loop of `ialloc` from `inum` on, for at most `n` inodes: the number of the inode, which
  -- `iget` then takes.
  unfoldable pub ialloc_from : ℕ → ℕ → ℕ → Fs → Option (ℕ × Fs)
  ialloc_from type inum zero fs = none
  ialloc_from type inum (suc n) fs =
      let b = iblock inum in
      let k = inum % inodes_per_block in
      let rest = ialloc_from type (inum + 1) n fs in
      if half (fs.blocks b) (32 * k) == 0
      then some (inum, log_write b (modify b (new_dinode k type (fs.blocks b)) fs))
      else rest

  unfoldable pub ialloc : ℕ → Fs → Option (ℕ × Fs)
  ialloc type fs = ialloc_from type 1 (sb.ninodes - 1) fs
