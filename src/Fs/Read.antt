-- ===== src/Fs/Read.antt =====
-- kernel/fs/fs.c: what the loop of `readi` copies to the kernel's memory.
use tatak_os.Base.{
  ℕ, zero, suc, ◌+◌, ◌-◌, ◌*◌, ◌/◌, ◌%◌, ◌^◌, ◌≡◌, ◌≤◌, ◌<◌, inl, inr, refl, sym, ap, ◌∙◌, Bool,
  true, false, ◌&&◌, some, arith, ltb, leb, Bool-cases,
}
use tatak_os.Fs.{max_file, bsize, Bytes, Superblock, Fs, Inode}
use tatak_os.Fs.Balloc.{IsLayout}
use tatak_os.Fs.Data.{chunk, splice, read_from}
use tatak_os.Fs.Grow.{spare, with_addrs, IsMapped}
use tatak_os.Fs.Map.{bmap-ok}
use tatak_os.Fs.Slots.{slot, content, IsFile}
use tatak_os.Fs.Write.{
  rounds, overwrite, content-slot, chunk-cases, overwrite_same, overwrite_trans,
}

-- `either_copyout` to the kernel's own memory, of proc.c.
abbrev pub to_kernel : ℕ → Bytes → ℕ → Bytes → Bool × Bytes
to_kernel dst x m mem = (true, splice mem dst m x)

module _ (sb : Superblock) (d : ℕ) (layout : IsLayout sb d) where
  -- The same file, and the memory with `left` of its bytes, from `off` on, at `dst`.
  pub record IsRead (fs : Fs) (ip : Inode) (mem : Bytes) (dst off left : ℕ) (fs' : Fs) (ip' : Inode)
      (mem' : Bytes) : Type 0 where
    pub file : IsFile sb d fs' ip'
    pub bytes : (i : ℕ) → i < max_file * bsize → content fs' ip' i ≡ content fs ip i
    pub copied : (a : ℕ) → mem' a ≡ overwrite dst left (content fs ip) off mem a
    pub kept : ip' ≡ with_addrs ip ip'.addrs

  IsRead-trans :
      (fs : Fs) (ip : Inode) (mem : Bytes) (dst off m left rest : ℕ) (fs1 : Fs) (ip1 : Inode)
      (mem1 : Bytes) (fs' : Fs) (ip' : Inode) (mem' : Bytes)
      → m ≤ left
      → rest ≡ left - m
      → off + left ≤ max_file * bsize
      → IsRead fs ip mem dst off m fs1 ip1 mem1
      → IsRead fs1 ip1 mem1 (dst + m) (off + m) rest fs' ip' mem'
      → IsRead fs ip mem dst off left fs' ip' mem'
  IsRead-trans fs ip mem dst off m left rest fs1 ip1 mem1 fs' ip' mem' le e top a b = record {
    file = b.file;
    bytes = λ i lt. b.bytes i lt ∙ a.bytes i lt;
    copied = λ p.
        b.copied p
        ∙ overwrite_same (dst + m) rest (content fs1 ip1) (content fs ip) (off + m) mem1
            (overwrite dst m (content fs ip) off mem) p
            (λ j lt. a.bytes (off + m + j) (omega (arith, lt, e, le, top))) (a.copied p)
        ∙ ap
            (λ l.
              overwrite (dst + m) l (content fs ip) (off + m)
                (overwrite dst m (content fs ip) off mem) p)
            e
        ∙ overwrite_trans dst m left (content fs ip) off mem p le;
    kept = b.kept ∙ ap (λ p. with_addrs p ip'.addrs) a.kept;
  }

  -- A chunk of a block of the file.
  copy_chunk :
      (fs fs1 : Fs) (ip ip1 : Inode) (b off m dst : ℕ) (mem : Bytes) (a : ℕ)
      → IsMapped sb d fs ip (off / bsize) b fs1 ip1 2
      → off % bsize + m ≤ bsize
      → off + m ≤ max_file * bsize
      → splice mem dst m (λ j. fs1.blocks b (off % bsize + j)) a
        ≡ overwrite dst m (content fs ip) off mem a
  copy_chunk fs fs1 ip ip1 b off m dst mem a w inside top =
      elim (Bool-cases (leb dst a && ltb a (dst + m))) [
        | inr e ↦ rw e refl
        | inl e ↦
            let j : ℕ = a - dst in
            let lt : a - dst < m = ground arith in
            let same : (off + (a - dst)) / bsize ≡ off / bsize = omega (arith, lt, inside) in
            let at : (off + (a - dst)) % bsize ≡ off % bsize + (a - dst) =
              omega (arith, lt, inside) in
            rw e (
              ap (fs1.blocks b) (sym at)
              ∙ sym
                  (content-slot fs1 ip1 b (off + (a - dst)) (ap (slot fs1 ip1) same ∙ w.here) w.pos)
              ∙ w.same (off + (a - dst)) (omega (arith, lt, top)))
      ]

  -- One round of the loop.
  IsRead-round :
      (fuel tot off dst n m : ℕ) (ip : Inode) (fs : Fs) (mem : Bytes)
      → IsFile sb d fs ip
      → ltb tot n ≡ true
      → chunk (n - tot) off ≡ m
      → 1 ≤ m
      → off % bsize + m ≤ bsize
      → off + m ≤ max_file * bsize
      → dst + m < 2 ^ 64
      → 2 ≤ spare sb fs sb.size
      → (ip1 : Inode) × (fs1 : Fs) × (mem1 : Bytes) × (read_from sb to_kernel
            (suc fuel)
            tot
            off
            dst
            n
            ip
            fs
            mem
          ≡ read_from sb to_kernel fuel (tot + m) (off + m) (dst + m) n ip1 fs1 mem1)
        × (spare sb fs sb.size ≤ spare sb fs1 sb.size + 2)
        × IsRead fs ip mem dst off m fs1 ip1 mem1
  unfolding read_from
  IsRead-round fuel tot off dst n m ip fs mem w go e pos fits top addr room =
      let (b, ip1, fs1, q, mapped) =
        bmap-ok sb d layout fs ip (off / bsize) w (omega (arith, pos, top)) room in
      let off_mod : (off + m) % 2 ^ 32 ≡ off + m = omega (arith, top) in
      let dst_mod : (dst + m) % 2 ^ 64 ≡ dst + m = omega (arith, addr) in
      (
        ip1,
        fs1,
        splice mem dst m (λ j. fs1.blocks b (off % bsize + j)),
        rw (read_from, go, q, e, off_mod, dst_mod) refl,
        mapped.spared,
        record {
          file = mapped.file;
          bytes = mapped.same;
          copied = λ a. copy_chunk fs fs1 ip ip1 b off m dst mem a mapped fits top;
          kept = mapped.kept;
        },
      )

  read_end :
      (fuel tot off dst n : ℕ) (ip : Inode) (fs : Fs) (mem : Bytes)
      → ltb tot n ≡ false
      → tot ≡ n
      → read_from sb to_kernel (suc fuel) tot off dst n ip fs mem ≡ some (some n, (ip, (fs, mem)))
  unfolding read_from
  read_end fuel tot off dst n ip fs mem e done = rw (read_from, e, done) refl

  pub read_from-ok :
      (fuel tot off dst n : ℕ) (ip : Inode) (fs : Fs) (mem : Bytes)
      → IsFile sb d fs ip
      → tot ≤ n
      → off + (n - tot) ≤ max_file * bsize
      → dst + (n - tot) < 2 ^ 64
      → rounds off (n - tot) < fuel
      → 2 * rounds off (n - tot) ≤ spare sb fs sb.size
      → (ip' : Inode) × (fs' : Fs) × (mem' : Bytes) × (read_from sb to_kernel fuel tot off dst n ip
            fs mem
          ≡ some (some n, (ip', (fs', mem'))))
        × IsRead fs ip mem dst off (n - tot) fs' ip' mem'
  read_from-ok zero tot off dst n ip fs mem w le fits addr enough room = absurd (omega arith)
  read_from-ok (suc fuel) tot off dst n ip fs mem w le fits addr enough room =
      elim (Bool-cases (ltb tot n)) [
        | inr e ↦
            let done : tot ≡ n = ground arith in
            (
              ip,
              fs,
              mem,
              read_end fuel tot off dst n ip fs mem e done,
              record {
                file = w;
                bytes = λ i lt. refl;
                copied = λ a. ground (arith, done);
                kept = refl;
              },
            )
        | inl e ↦
            let left : 1 ≤ n - tot = ground arith in
            let (pos, short, inside, fewer) = chunk-cases (n - tot) off left in
            let m : ℕ = chunk (n - tot) off in
            let (ip1, fs1, mem1, q, s, r) =
              IsRead-round fuel tot off dst n m ip fs mem w e refl pos inside
                (omega (arith, short, fits)) (omega (arith, short, addr))
                (omega (arith, fewer, room)) in
            let rest : n - (tot + m) ≡ n - tot - m = omega arith in
            let (ip', fs', mem', q', r') =
              read_from-ok fuel (tot + m) (off + m) (dst + m) n ip1 fs1 mem1 r.file
                (omega (arith, short, left)) (omega (arith, short, fits, left))
                (omega (arith, short, addr)) (rw rest (omega (arith, fewer, enough)))
                (rw rest (omega (arith, fewer, room, s))) in
            (
              ip',
              fs',
              mem',
              q ∙ q',
              IsRead-trans fs ip mem dst off m (n - tot) (n - (tot + m)) fs1 ip1 mem1 fs' ip' mem'
                  short rest fits r r',
            )
      ]
