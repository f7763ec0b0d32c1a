-- ===== src/Fs/Map.antt =====
-- kernel/fs/fs.c: `bmap` finds or makes the block of the file at an index.
use tatak_os.Base.{
  ℕ, ◌+◌, ◌-◌, ◌^◌, ◌≡◌, ◌≢◌, ◌≤◌, ◌<◌, inl, inr, refl, sym, ap, ◌∙◌, true, false, some, arith, ltb,
  ◌==◌, if◌then◌else◌, Bool-cases,
}
use tatak_os.Disk.{update, update_self, update_ne}
use tatak_os.Fs.{
  ndirect, nindirect, max_file, Bytes, Superblock, Fs, Inode, modify, log_write, word, put_word,
  bblock, addr_at, entry_at, bmap,
}
use tatak_os.Fs.Balloc.{used, IsLayout}
use tatak_os.Fs.Bits.{word-put_word, word-put_word_ne}
use tatak_os.Fs.Grow.{
  spare, spare_one, with_addrs, IsMapped, index, grown-content, balloc-ok, place-cases, addr_slots,
}
use tatak_os.Fs.Slots.{slot, IsFile, IsGrown, fresh-slot, IsGrown-IsFile}

module _ (sb : Superblock) (d : ℕ) (layout : IsLayout sb d) where
  -- A change of a data block leaves the map alone.
  pub map_kept :
      (fs : Fs) (b : ℕ) (x : Bytes) (c : ℕ)
      → d ≤ b
      → c < sb.size
      → used sb (log_write b (modify b x fs)) c ≡ used sb fs c
  unfolding used
  map_kept fs b x c above lt =
      let low = layout.map_below in
      let ne : b ≢ bblock sb c = λ e. absurd (omega (arith, above, low, lt, e)) in
      rw (update_ne fs.blocks b (bblock sb c) x ne) refl

  -- A file that has grown by a block of zeros is mapped there.
  IsGrown-IsMapped :
      (fs : Fs) (ip : Inode) (k r : ℕ) (fs' : Fs) (ip' : Inode)
      → IsFile sb d fs ip
      → IsGrown sb d fs ip k r fs' ip'
      → ((j : ℕ) → fs'.blocks r j ≡ 0)
      → ((b : ℕ) → d ≤ b → r ≢ b → b ≢ slot fs ip max_file → fs'.blocks b ≡ fs.blocks b)
      → k ≤ max_file
      → ip' ≡ with_addrs ip ip'.addrs
      → IsMapped sb d fs ip k r fs' ip' 1
  IsGrown-IsMapped fs ip k r fs' ip' w g zeros others le kept = record {
    file = IsGrown-IsFile sb d layout fs ip k r fs' ip' w g;
    here = let s = g.slots k le in ground (arith, s);
    pos = λ z. absurd (let low = layout.map_below in let a = g.above in omega (arith, low, a, z));
    same = λ i lt. grown-content sb d layout fs ip k r fs' ip' i w g zeros others lt;
    kept = kept;
    spared =
        let c = spare_one sb fs fs' r sb.size (omega arith) g.fresh g.marks in ground (arith, c);
  }

  index-slot : (fs : Fs) (ip : Inode) (i : ℕ) → i ≤ ndirect → slot fs ip (index i) ≡ ip.addrs i
  unfolding slot
  index-slot fs ip i le = elim (Bool-cases (i == ndirect)) [
    | inl e ↦ let at : i ≡ 12 = ground arith in rw at refl
    | inr e ↦ ground (arith, e, le)
  ]

  addr_at-ok :
      (fs : Fs) (ip : Inode) (i : ℕ)
      → IsFile sb d fs ip
      → i ≤ ndirect
      → 1 ≤ spare sb fs sb.size
      → (r : ℕ) × (ip' : Inode) × (fs' : Fs) × (addr_at sb i ip fs ≡ some (r, (ip', fs')))
        × IsMapped sb d fs ip (index i) r fs' ip' 1
  unfolding addr_at
  addr_at-ok fs ip i w le room = elim (Bool-cases (ip.addrs i == 0)) [
    | inr e ↦ (
      ip.addrs i,
      ip,
      fs,
      rw (addr_at, e) refl,
      record {
        file = w;
        here = index-slot fs ip i le;
        pos = ground arith;
        same = λ j lt. refl;
        kept = refl;
        spared = omega arith;
      },
    )
    | inl e ↦
        let (r, fs', q, a) = balloc-ok sb d layout fs w.marks room in
        let ip' : Inode = record ip { addrs = update ip.addrs i r } in
        let z : ip.addrs i ≡ 0 = ground arith in
        (
          r,
          ip',
          fs',
          rw (addr_at, e, q) refl,
          IsGrown-IsMapped fs ip (index i) r fs' ip' w
              (record {
                hole = index-slot fs ip i le ∙ z;
                above = a.above;
                below = a.below;
                fresh = a.fresh;
                marks = a.marks;
                slots = λ l le'. addr_slots sb d layout fs fs' ip i r l w a le z le';
              })
              a.zeros (λ b ab ne ne'. a.others b ab ne) (ground (arith, le)) refl,
        )
  ]

  -- The indirect block `b` lists the blocks from index `ndirect` on.
  entry_slot :
      (fs : Fs) (ip : Inode) (b j : ℕ)
      → ip.addrs ndirect ≡ b
      → b ≢ 0
      → j < nindirect
      → slot fs ip (j + ndirect) ≡ word (fs.blocks b) j
  unfolding slot
  entry_slot fs ip b j e pos lt =
      let q : ltb (j + 12) 12 ≡ false = ground arith in
      let q' : (j + 12 == 268) ≡ false = ground arith in
      let n : (ip.addrs 12 == 0) ≡ false = ground (arith, e) in
      let back : j + 12 - 12 ≡ j = omega arith in rw (q, q', n, e, back) refl

  -- The blocks of the file after an assignment to the indirect block.
  entry_slots :
      (fs fs' : Fs) (ip : Inode) (b j r l : ℕ)
      → ip.addrs ndirect ≡ b
      → b ≢ 0
      → r < 2 ^ 32
      → j < nindirect
      → fs'.blocks b ≡ put_word j r (fs.blocks b)
      → l ≤ max_file
      → slot fs' ip l ≡ (if j + ndirect == l then r else slot fs ip l)
  unfolding slot
  entry_slots fs fs' ip b j r l e pos small lt x le = elim (place-cases l le) [
    | inl q ↦ ground (arith, q)
    | inr (inl q) ↦ rw q (ground arith)
    | inr (inr (q, q')) ↦
        let n : (ip.addrs 12 == 0) ≡ false = ground (arith, e) in
        elim (Bool-cases (j + 12 == l)) [
          | inl s ↦
              let at : l - 12 ≡ j = ground arith in
              rw (q, q', n, s, e, x, at) (word-put_word (fs.blocks b) j r small)
          | inr s ↦
              let ne : j ≢ l - 12 = λ c. absurd (ground arith) in
              rw (q, q', n, s, e, x) (word-put_word_ne (fs.blocks b) j (l - 12) r ne)
        ]
  ]

  entry_at-ok :
      (fs : Fs) (ip : Inode) (b j : ℕ)
      → IsFile sb d fs ip
      → ip.addrs ndirect ≡ b
      → b ≢ 0
      → j < nindirect
      → 1 ≤ spare sb fs sb.size
      → (r : ℕ) × (ip' : Inode) × (fs' : Fs) × (entry_at sb b j ip fs ≡ some (r, (ip', fs')))
        × IsMapped sb d fs ip (j + ndirect) r fs' ip' 1
  unfolding entry_at slot
  entry_at-ok fs ip b j w e pos lt room = elim (Bool-cases (word (fs.blocks b) j == 0)) [
    | inr q ↦ (
      word (fs.blocks b) j,
      ip,
      fs,
      rw (entry_at, q) refl,
      record {
        file = w;
        here = entry_slot fs ip b j e pos lt;
        pos = ground arith;
        same = λ i lt'. refl;
        kept = refl;
        spared = omega arith;
      },
    )
    | inl q ↦
        let (r, fs1, c, a) = balloc-ok sb d layout fs w.marks room in
        let high = w.above max_file (omega arith) (λ z. pos (sym e ∙ z)) in
        let b_above : d ≤ b = ground (arith, high, e) in
        let ne : r ≢ b = λ z.
          fresh-slot sb d layout fs ip r max_file w a.fresh a.above (omega arith) (z ∙ sym e) in
        let fs' : Fs = log_write b (modify b (put_word j r (fs1.blocks b)) fs1) in
        let x : fs'.blocks b ≡ put_word j r (fs.blocks b) =
          update_self fs1.blocks b (put_word j r (fs1.blocks b))
          ∙ ap (put_word j r) (a.others b b_above ne) in
        let small : r < 2 ^ 32 =
          let top = a.below in let narrow = layout.narrow in omega (arith, top, narrow) in
        (
          r,
          ip,
          fs',
          rw (entry_at, q, c) refl,
          IsGrown-IsMapped fs ip (j + ndirect) r fs' ip w
              (record {
                hole = entry_slot fs ip b j e pos lt ∙ (ground arith);
                above = a.above;
                below = a.below;
                fresh = a.fresh;
                marks = λ m top.
                    map_kept fs1 b (put_word j r (fs1.blocks b)) m b_above top ∙ a.marks m top;
                slots = λ l le. entry_slots fs fs' ip b j r l e pos small lt x le;
              })
              (λ i.
                ap (λ f. f i)
                  (update_ne fs1.blocks b r (put_word j r (fs1.blocks b)) (λ z. ne (sym z)))
                ∙ a.zeros i)
              (λ m ab n n'.
                update_ne fs1.blocks b m (put_word j r (fs1.blocks b)) (λ z. n' (sym z ∙ sym e))
                ∙ a.others m ab n)
              (omega (arith, lt)) refl,
        )
  ]

  -- A file that is mapped twice.
  IsMapped-trans :
      (fs : Fs) (ip : Inode) (k r m : ℕ) (fs' : Fs) (ip' : Inode) (k' r' m' : ℕ) (fs'' : Fs)
      (ip'' : Inode)
      → IsMapped sb d fs ip k r fs' ip' m
      → IsMapped sb d fs' ip' k' r' fs'' ip'' m'
      → IsMapped sb d fs ip k' r' fs'' ip'' (m + m')
  IsMapped-trans fs ip k r m fs' ip' k' r' m' fs'' ip'' a b = record {
    file = b.file;
    here = b.here;
    pos = b.pos;
    same = λ i lt. b.same i lt ∙ a.same i lt;
    kept = b.kept ∙ ap (λ p. with_addrs p ip''.addrs) a.kept;
    spared = let x = a.spared in let y = b.spared in omega (arith, x, y);
  }

  -- `bmap` with two free blocks gives the block of the file at index `k`, and leaves the bytes of
  -- the file as they were.
  pub bmap-ok :
      (fs : Fs) (ip : Inode) (k : ℕ)
      → IsFile sb d fs ip
      → k < max_file
      → 2 ≤ spare sb fs sb.size
      → (r : ℕ) × (ip' : Inode) × (fs' : Fs) × (bmap sb k ip fs ≡ some (r, (ip', fs')))
        × IsMapped sb d fs ip k r fs' ip' 2
  unfolding bmap slot
  bmap-ok fs ip k w lt room = elim (Bool-cases (ltb k ndirect)) [
    | inl e ↦
        let (r, ip', fs', q, m) = addr_at-ok fs ip k w (ground arith) (omega (arith, room)) in
        let at : index k ≡ k = ground (arith, e) in
        let m' : IsMapped sb d fs ip k r fs' ip' 1 = rw at at m in
        (
          r,
          ip',
          fs',
          rw (bmap, e) q,
          record {
            file = m'.file;
            here = m'.here;
            pos = m'.pos;
            same = m'.same;
            kept = m'.kept;
            spared = let s = m'.spared in omega (arith, s);
          },
        )
    | inr e ↦
        let (b, ip1, fs1, q1, m1) =
          addr_at-ok fs ip ndirect w (omega arith) (omega (arith, room)) in
        let left : 1 ≤ spare sb fs1 sb.size = let s = m1.spared in omega (arith, s, room) in
        let (r, ip', fs', q, m) =
          entry_at-ok fs1 ip1 b (k - ndirect) m1.file m1.here m1.pos (ground arith) left in
        let in_range : ltb (k - ndirect) nindirect ≡ true = ground arith in
        let at : k - 12 + 12 ≡ k = ground (arith, e) in
        (
          r,
          ip',
          fs',
          rw (bmap, e, in_range, q1) q,
          IsMapped-trans fs ip max_file b 1 fs1 ip1 k r 1 fs' ip' m1 (rw at at m),
        )
  ]
