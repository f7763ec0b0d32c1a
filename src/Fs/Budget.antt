-- ===== src/Fs/Budget.antt =====
-- kernel/fs/fs.c: a `writei` of what `filewrite` of kernel/fs/file.c passes to it in one transaction
-- stays within the reservation of `begin_op`.
use tatak_os.Base.{
  ℕ, ◌+◌, ◌-◌, ◌*◌, ◌^◌, ◌≡◌, ◌≤◌, ◌<◌, ◌⊎◌, inl, inr, ◌∙◌, true, false, some, arith, ◌==◌,
  if◌then◌else◌,
}
use tatak_os.File.{max_op_blocks, max_bytes}
use tatak_os.Fs.{ndirect, max_file, bsize, bits_per_block, Bytes, Superblock, Fs, Inode, bblock}
use tatak_os.Fs.Array.{writei_lem}
use tatak_os.Fs.Balloc.{IsLayout}
use tatak_os.Fs.Data.{writei}
use tatak_os.Fs.Dinode.{iblock}
use tatak_os.Fs.Files.{IsPlaced}
use tatak_os.Fs.Grow.{spare}
use tatak_os.Fs.Slots.{IsFile}
use tatak_os.Fs.Write.{from_kernel, rounds}

-- The blocks that one `writei` logs: the inode's, the map, the indirect block, and the data.
abbrev logged_block : Superblock → ℕ → ℕ → (ℕ → ℕ) → ℕ → ℕ
logged_block sb inum indirect pieces i =
    if i == 0
    then iblock sb inum
    else if i == 1
    then sb.bmapstart
    else if i == 2
    then indirect
    else pieces (i - 3)

-- At most four blocks of data in one transaction.
few_rounds : (off n : ℕ) → n ≤ max_bytes → rounds off n ≤ 4
few_rounds off n le = ground arith

-- `writei` of at most the bytes that `filewrite` writes in one transaction, from the kernel's memory,
-- into a file whose blocks are marked and distinct, at an offset up to its size and not past the
-- largest file, with two free blocks for each block that it touches, on a disk whose free map is
-- one block (as with FSSIZE of include/kernel/param.h): it writes all `n` bytes, and every block
-- that is logged afterwards had been logged before, or is one of at most MAXOPBLOCKS blocks.
pub writei_fits :
    (sb : Superblock) (d : ℕ) (layout : IsLayout sb d) (mem : Bytes) (src off n : ℕ) (ip : Inode)
    (fs : Fs)
    → IsPlaced sb ip
    → IsFile sb d fs ip
    → off ≤ ip.size
    → off + n ≤ max_file * bsize
    → src + n < 2 ^ 64
    → 2 * rounds off n ≤ spare sb fs sb.size
    → n ≤ max_bytes
    → sb.size ≤ bits_per_block
    → (ip' : Inode) × (fs' : Fs) × (block : ℕ → ℕ) × (writei sb (from_kernel mem) src off n ip fs
        ≡ some (some n, (ip', fs')))
      × ((x : ℕ)
          → fs'.logged x ≡ true
          → (fs.logged x ≡ true) ⊎ ((i : ℕ) × (i < max_op_blocks) × (x ≡ block i)))
writei_fits sb d layout mem src off n ip fs place w le top addr room small one_map =
    let (ip', fs', q, r) = writei_lem sb d layout mem src off n ip fs place w le top addr room in
    let few = few_rounds off n small in
    (
      ip',
      fs',
      logged_block sb ip.inum (ip'.addrs ndirect) r.data_block,
      q,
      λ x h. elim (r.logs x h) [
        | inl old ↦ inl old
        | inr (inl at) ↦ inr (0, omega arith, at)
        | inr (inr (inl (c, lt, at))) ↦
            let here : bblock sb c ≡ sb.bmapstart = omega (arith, lt, one_map) in
            inr (1, omega arith, at ∙ here)
        | inr (inr (inr (inl (i, lt, at)))) ↦
            let a : (3 + i == 0) ≡ false = ground arith in
            let b : (3 + i == 1) ≡ false = ground arith in
            let c : (3 + i == 2) ≡ false = ground arith in
            let e : 3 + i - 3 ≡ i = omega arith in
            inr (3 + i, omega (arith, lt, few), rw (a, b, c, e) at)
        | inr (inr (inr (inr at))) ↦ inr (2, omega arith, at)
      ],
    )
