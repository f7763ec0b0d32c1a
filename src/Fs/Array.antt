-- ===== src/Fs/Array.antt =====
-- kernel/fs/fs.c: a file is an array of bytes, which `writei` overwrites and `readi` copies.
use tatak_os.Base.{
  ℕ, suc, ◌+◌, ◌-◌, ◌*◌, ◌/◌, ◌%◌, ◌^◌, ◌≡◌, ◌≤◌, ◌<◌, refl, ap, ◌∙◌, true, false, ◌⊎◌, ◌||◌, inl,
  inr, some, arith, ltb, if◌then◌else◌, Bool-cases,
}
use tatak_os.Fs.{ndirect, max_file, bsize, Bytes, Superblock, Fs, Inode}
use tatak_os.Fs.Balloc.{IsLayout}
use tatak_os.Fs.Change.{IsFile-same, spare-same}
use tatak_os.Fs.Data.{readi, writei}
use tatak_os.Fs.Dinode.{iblock, iupdate}
use tatak_os.Fs.Files.{
  IsPlaced, grown_size, iupdate-map, iupdate-slot, iupdate-content, sized-IsFile, sized-content,
}
use tatak_os.Fs.Grow.{spare}
use tatak_os.Fs.Logged.{IsMapBlock, iupdate-logs}
use tatak_os.Fs.Read.{to_kernel, read_from-ok}
use tatak_os.Fs.Slots.{content, IsFile}
use tatak_os.Fs.Write.{from_kernel, rounds, overwrite, write_from-ok}

rounds_mono : (off m n : ℕ) → m ≤ n → rounds off m ≤ rounds off n
rounds_mono off m n le = ground arith

resized_addrs :
    (ip1 : Inode) (end k : ℕ)
    → ip1.addrs k ≡ (if ltb ip1.size end then record ip1 { size = end } else ip1).addrs k
resized_addrs ip1 end k = elim (Bool-cases (ltb ip1.size end)) [
  | inl q ↦ rw q refl
  | inr q ↦ rw q refl
]

module _ (sb : Superblock) (d : ℕ) (layout : IsLayout sb d) where
  -- The file after `writei` of `n` bytes from `src` on, at `off`.
  pub record IsStored (fs : Fs) (ip : Inode) (mem : Bytes) (src off n : ℕ) (fs' : Fs) (ip' : Inode)
      : Type 0 where
    pub file : IsFile sb d fs' ip'
    pub size : ip'.size ≡ grown_size ip.size (off + n)
    pub bytes :
        (i : ℕ)
        → i < max_file * bsize
        → content fs' ip' i ≡ overwrite off n mem src (content fs ip) i
    pub spared : spare sb fs sb.size ≤ spare sb fs' sb.size + 2 * rounds off n
    pub data_block : ℕ → ℕ
    pub logs :
        (x : ℕ)
        → fs'.logged x ≡ true
        → (fs.logged x ≡ true)
          ⊎ (x ≡ iblock sb ip.inum)
          ⊎ IsMapBlock sb x
          ⊎ ((i : ℕ) × (i < rounds off n) × (x ≡ data_block i))
          ⊎ (x ≡ ip'.addrs ndirect)

  -- What follows the loop of `writei`.
  stored :
      (fs : Fs) (ip : Inode)
      → IsPlaced sb ip
      → IsFile sb d fs ip
      → IsFile sb d (iupdate sb ip fs) ip
        × (spare sb (iupdate sb ip fs) sb.size ≡ spare sb fs sb.size)
  stored fs ip place w = (
    IsFile-same sb d fs (iupdate sb ip fs) ip ip layout.data_below
        (λ c lt. iupdate-map sb d layout fs ip c place)
        (λ l le. iupdate-slot sb d layout fs ip l place w le) w,
    spare-same sb fs (iupdate sb ip fs) sb.size (omega arith)
        (λ c lt. iupdate-map sb d layout fs ip c place),
  )

  -- The size that `writei` sets.
  resized :
      (fs : Fs) (ip ip1 : Inode) (end : ℕ)
      → ip1.size ≡ ip.size
      → ip1.inum ≡ ip.inum
      → IsFile sb d fs ip1
      → let ip2 = if ltb ip1.size end then record ip1 { size = end } else ip1 in
        (ip2.size ≡ grown_size ip.size end)
        × (ip2.inum ≡ ip.inum)
        × IsFile sb d fs ip2
        × ((i : ℕ) → content fs ip2 i ≡ content fs ip1 i)
  resized fs ip ip1 end e num w = elim (Bool-cases (ltb ip1.size end)) [
    | inl q ↦ rw q (
      ground (arith, e, q),
      num,
      sized-IsFile sb d layout fs ip1 end w,
      sized-content sb d layout fs ip1 end,
    )
    | inr q ↦ rw q (ground (arith, e, q), num, w, λ i. refl)
  ]

  -- `writei` from the kernel's memory, into a file whose blocks are marked and distinct, at an
  -- offset up to its size and not past the largest file, with two free blocks for each block that
  -- it touches: it writes all `n` bytes. The bytes from `off` on are those of the memory, the
  -- others are as before, and the size grows to the end of what was written.
  pub writei_lem :
      (mem : Bytes) (src off n : ℕ) (ip : Inode) (fs : Fs)
      → IsPlaced sb ip
      → IsFile sb d fs ip
      → off ≤ ip.size
      → off + n ≤ max_file * bsize
      → src + n < 2 ^ 64
      → 2 * rounds off n ≤ spare sb fs sb.size
      → (ip' : Inode) × (fs' : Fs) × (writei sb (from_kernel mem) src off n ip fs
          ≡ some (some n, (ip', fs')))
        × IsStored fs ip mem src off n fs' ip'
  unfolding writei
  writei_lem mem src off n ip fs place w le top addr room =
      let z : n - 0 ≡ n = omega arith in
      let (ip1, fs1, q, r) = rw z at (
        write_from-ok sb d layout mem (suc (n / bsize + 2)) 0 off src n ip fs w (omega arith)
          (rw z top) (rw z addr) (rw z (ground arith)) (rw z room)) in
      let inside : (ltb ip.size off || ltb ((off + n) % 2 ^ 32) off) ≡ false = ground arith in
      let fits : ltb (max_file * bsize) ((off + n) % 2 ^ 32) ≡ false = ground arith in
      let ip2 : Inode = if ltb ip1.size (off + n) then record ip1 { size = off + n } else ip1 in
      let sized : (ip2.size ≡ grown_size ip.size (off + n))
          × (ip2.inum ≡ ip.inum)
          × IsFile sb d fs1 ip2
          × ((i : ℕ) → content fs1 ip2 i ≡ content fs1 ip1 i) =
        resized fs1 ip ip1 (off + n) (ap (λ p. p.size) r.kept) (ap (λ p. p.inum) r.kept) r.file in
      let (size, num, file, same) = sized in
      let place2 : IsPlaced sb ip2 = rw num place in
      let (file', spared) = stored fs1 ip2 place2 file in
      (
        ip2,
        iupdate sb ip2 fs1,
        rw (writei, inside, fits, q) refl,
        record {
          file = file';
          size = size;
          bytes =
              λ i lt. iupdate-content sb d layout fs1 ip2 i place2 file lt ∙ same i ∙ r.bytes i lt;
          spared = let s = r.spared in omega (arith, s, spared);
          data_block = r.logs.data_block;
          logs = λ x h. elim (iupdate-logs sb ip2 fs1 x h) [
            | inr at ↦ inr (inl (at ∙ ap (iblock sb) num))
            | inl h1 ↦ elim (r.logs.each x h1) [
              | inl old ↦ inl old
              | inr (inl m) ↦ inr (inr (inl m))
              | inr (inr (inl piece)) ↦ inr (inr (inr (inl piece)))
              | inr (inr (inr (there, at))) ↦
                  inr (inr (inr (inr (at ∙ resized_addrs ip1 (off + n) ndirect))))
            ]
          ];
        },
      )

  -- `readi` to the kernel's memory, of such a file, that is no larger than the largest, at an offset
  -- up to its size: it copies `n` bytes, or those that are left in the file, and changes neither
  -- the file nor the rest of the memory.
  pub readi_lem :
      (mem : Bytes) (dst off n : ℕ) (ip : Inode) (fs : Fs)
      → IsFile sb d fs ip
      → ip.size ≤ max_file * bsize
      → off ≤ ip.size
      → off + n < 2 ^ 32
      → dst + n < 2 ^ 64
      → 2 * rounds off n ≤ spare sb fs sb.size
      → let m = if ltb ip.size (off + n) then ip.size - off else n in
        (ip' : Inode) × (fs' : Fs) × (mem' : Bytes) × (readi sb to_kernel dst off n ip fs mem
          ≡ some (some m, (ip', (fs', mem'))))
        × ((a : ℕ) → mem' a ≡ overwrite dst m (content fs ip) off mem a)
        × IsFile sb d fs' ip'
        × (ip'.size ≡ ip.size)
        × ((i : ℕ) → i < max_file * bsize → content fs' ip' i ≡ content fs ip i)
  unfolding readi
  readi_lem mem dst off n ip fs w small le top addr room =
      let m : ℕ = if ltb ip.size (off + n) then ip.size - off else n in
      let most : (m ≤ n) × (off + m ≤ ip.size) = (ground arith, ground arith) in
      let z : m - 0 ≡ m = omega arith in
      let fewer : rounds off m ≤ rounds off n = rounds_mono off m n most.0 in
      let (ip1, fs1, mem1, q, r) = rw z at (
        read_from-ok sb d layout (suc (m / bsize + 2)) 0 off dst m ip fs mem w (omega arith)
          (rw z (omega (arith, most, small))) (rw z (omega (arith, most, addr)))
          (rw z (ground arith)) (rw z (omega (arith, fewer, room)))) in
      let inside : (ltb ip.size off || ltb ((off + n) % 2 ^ 32) off) ≡ false = ground arith in
      let wrap : (off + n) % 2 ^ 32 ≡ off + n = omega (arith, top) in
      (
        ip1,
        fs1,
        mem1,
        rw (readi, inside, wrap) q,
        r.copied,
        r.file,
        ap (λ p. p.size) r.kept,
        r.bytes,
      )
