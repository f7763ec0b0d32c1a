-- ===== src/Fs/Roundtrip.antt =====
-- kernel/fs/fs.c: what `writei` has written, `readi` reads.
use tatak_os.Base.{
  ℕ, ◌+◌, ◌-◌, ◌*◌, ◌^◌, ◌≡◌, ◌≤◌, ◌<◌, refl, ◌∙◌, true, false, ◌&&◌, some, arith, ltb, leb,
}
use tatak_os.Fs.{max_file, bsize, Bytes, Superblock, Fs, Inode}
use tatak_os.Fs.Array.{readi_lem, writei_lem}
use tatak_os.Fs.Balloc.{IsLayout}
use tatak_os.Fs.Data.{readi, writei}
use tatak_os.Fs.Files.{IsPlaced}
use tatak_os.Fs.Grow.{spare}
use tatak_os.Fs.Read.{to_kernel}
use tatak_os.Fs.Slots.{content, IsFile}
use tatak_os.Fs.Write.{from_kernel, rounds, overwrite}

-- `readi` of `n` bytes at the offset where `writei` has written `n` bytes copies those bytes: into a
-- file whose blocks are marked and distinct, at an offset up to its size and not past the largest
-- file, with four free blocks for each block that the bytes touch.
pub readi-writei :
    (sb : Superblock) (d : ℕ) (layout : IsLayout sb d) (mem mem' : Bytes) (src dst off n : ℕ)
    (ip : Inode) (fs : Fs)
    → IsPlaced sb ip
    → IsFile sb d fs ip
    → ip.size ≤ max_file * bsize
    → off ≤ ip.size
    → off + n ≤ max_file * bsize
    → src + n < 2 ^ 64
    → dst + n < 2 ^ 64
    → 4 * rounds off n ≤ spare sb fs sb.size
    → (ip1 ip2 : Inode) × (fs1 fs2 : Fs) × (mem2 : Bytes) × (writei sb
          (from_kernel mem)
          src
          off
          n
          ip
          fs
        ≡ some (some n, (ip1, fs1)))
      × (readi sb to_kernel dst off n ip1 fs1 mem' ≡ some (some n, (ip2, (fs2, mem2))))
      × ((j : ℕ) → j < n → mem2 (dst + j) ≡ mem (src + j))
readi-writei sb d layout mem mem' src dst off n ip fs place w small le top addr addr' room =
    let (ip1, fs1, q, r) =
      writei_lem sb d layout mem src off n ip fs place w le top addr (omega (arith, room)) in
    let size = r.size in
    let whole : ltb ip1.size (off + n) ≡ false = ground (arith, size) in
    let (ip2, fs2, mem2, q', copied, file, size', bytes) = rw whole at (
      readi_lem sb d layout mem' dst off n ip1 fs1 r.file (ground (arith, size, small, top))
        (ground (arith, size, le)) (omega (arith, top)) addr'
        (let s = r.spared in omega (arith, s, room))) in
    (
      ip1,
      ip2,
      fs1,
      fs2,
      mem2,
      q,
      q',
      λ j lt.
          copied (dst + j)
          ∙ taken off dst n mem mem' src (content fs ip) (content fs1 ip1) j lt
              (r.bytes (off + j) (omega (arith, lt, top))),
    )
  where
    taken :
        (off dst n : ℕ) (mem mem' : Bytes) (src : ℕ) (old new : Bytes) (j : ℕ)
        → j < n
        → new (off + j) ≡ overwrite off n mem src old (off + j)
        → overwrite dst n new off mem' (dst + j) ≡ mem (src + j)
    taken off dst n mem mem' src old new j lt e =
        let a : (leb dst (dst + j) && ltb (dst + j) (dst + n)) ≡ true = ground arith in
        let b : (leb off (off + j) && ltb (off + j) (off + n)) ≡ true = ground arith in
        let c : dst + j - dst ≡ j = omega arith in
        let c' : off + j - off ≡ j = omega arith in rw (a, c) (e ∙ (rw (b, c') refl))
