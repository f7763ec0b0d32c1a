-- ===== src/Fs/Slots.antt =====
-- kernel/fs/fs.c: the blocks of an inode, and the bytes that they make up.
use tatak_os.Base.{
  ℕ, ◌-◌, ◌/◌, ◌%◌, ◌≡◌, ◌≢◌, ◌≤◌, ◌<◌, inl, inr, refl, sym, ◌∙◌, true, false, arith, ltb, ◌==◌,
  if◌then◌else◌, Bool-cases,
}
use tatak_os.Fs.{ndirect, max_file, bsize, Superblock, Fs, Inode, word}
use tatak_os.Fs.Balloc.{used, IsLayout, IsMarked}

-- The block with index `k` of the file, 0 for a hole; index `max_file` is the indirect block.
unfoldable pub slot : Fs → Inode → ℕ → ℕ
slot fs ip k =
    if ltb k ndirect
    then ip.addrs k
    else if k == max_file
    then ip.addrs ndirect
    else if ip.addrs ndirect == 0
    then 0
    else word (fs.blocks (ip.addrs ndirect)) (k - ndirect)

-- Byte `i` of the file.
unfoldable pub content : Fs → Inode → ℕ → ℕ
content fs ip i = let b = slot fs ip (i / bsize) in if b == 0 then 0 else fs.blocks b (i % bsize)

-- The blocks of the file are marked data, each with one place in the file.
pub record IsFile (sb : Superblock) (d : ℕ) (fs : Fs) (ip : Inode) : Type 0 where
  pub marks : IsMarked sb d fs
  pub above : (k : ℕ) → k ≤ max_file → slot fs ip k ≢ 0 → d ≤ slot fs ip k
  pub below : (k : ℕ) → k ≤ max_file → slot fs ip k ≢ 0 → slot fs ip k < sb.size
  pub marked : (k : ℕ) → k ≤ max_file → slot fs ip k ≢ 0 → used sb fs (slot fs ip k) ≡ true
  pub apart :
      (k l : ℕ)
      → k ≤ max_file
      → l ≤ max_file
      → slot fs ip k ≢ 0
      → slot fs ip k ≡ slot fs ip l
      → k ≡ l

-- Index `k` gets the new block `r`.
pub record IsGrown (sb : Superblock) (d : ℕ) (fs : Fs) (ip : Inode) (k r : ℕ) (fs' : Fs)
    (ip' : Inode) : Type 0 where
  pub hole : slot fs ip k ≡ 0
  pub above : d ≤ r
  pub below : r < sb.size
  pub fresh : used sb fs r ≡ false
  pub marks : (b : ℕ) → b < sb.size → used sb fs' b ≡ (if r == b then true else used sb fs b)
  pub slots : (l : ℕ) → l ≤ max_file → slot fs' ip' l ≡ (if k == l then r else slot fs ip l)

module _ (sb : Superblock) (d : ℕ) (layout : IsLayout sb d) where
  -- The new block is none of the file's.
  pub fresh-slot :
      (fs : Fs) (ip : Inode) (r l : ℕ)
      → IsFile sb d fs ip
      → used sb fs r ≡ false
      → d ≤ r
      → l ≤ max_file
      → r ≢ slot fs ip l
  fresh-slot fs ip r l w fresh above le e =
      let low = layout.map_below in
      let pos : slot fs ip l ≢ 0 = λ z. absurd (omega (arith, above, low, e, z)) in
      absurd (let m = w.marked l le pos in let m' = rw (← e) at m in cc)

  pub IsGrown-IsFile :
      (fs : Fs) (ip : Inode) (k r : ℕ) (fs' : Fs) (ip' : Inode)
      → IsFile sb d fs ip
      → IsGrown sb d fs ip k r fs' ip'
      → IsFile sb d fs' ip'
  IsGrown-IsFile fs ip k r fs' ip' w g =
      let top = layout.data_below in
      record {
        marks = λ b lt.
            let m = g.marks b (omega (arith, top, lt)) in
            let o = w.marks b lt in ground (arith, m, o);
        above = λ l le pos. elim (Bool-cases (k == l)) [
          | inl e ↦ let s = g.slots l le in let a = g.above in ground (arith, e, s, a)
          | inr e ↦
              let s : slot fs' ip' l ≡ slot fs ip l = g.slots l le ∙ (rw e refl) in
              rw s (w.above l le (λ z. pos (s ∙ z)))
        ];
        below = λ l le pos. elim (Bool-cases (k == l)) [
          | inl e ↦ let s = g.slots l le in let a = g.below in ground (arith, e, s, a)
          | inr e ↦
              let s : slot fs' ip' l ≡ slot fs ip l = g.slots l le ∙ (rw e refl) in
              rw s (w.below l le (λ z. pos (s ∙ z)))
        ];
        marked = λ l le pos. elim (Bool-cases (k == l)) [
          | inl e ↦
              let s : slot fs' ip' l ≡ r = g.slots l le ∙ (rw e refl) in
              let m = g.marks r g.below in rw s (ground (arith, m))
          | inr e ↦
              let s : slot fs' ip' l ≡ slot fs ip l = g.slots l le ∙ (rw e refl) in
              let pos' : slot fs ip l ≢ 0 = λ z. pos (s ∙ z) in
              let m = g.marks (slot fs ip l) (w.below l le pos') in
              let o = w.marked l le pos' in rw s (ground (arith, m, o))
        ];
        apart = λ l l' le le' pos q.
            let s = g.slots l le in
            let s' = g.slots l' le' in
            elim (Bool-cases (k == l)) [
              | inl e ↦ elim (Bool-cases (k == l')) [
                | inl e' ↦ ground (arith, e, e')
                | inr e' ↦ absurd (
                    fresh-slot fs ip r l' w g.fresh g.above le'
                      (sym (s ∙ (rw e refl)) ∙ q ∙ s' ∙ (rw e' refl)))
              ]
              | inr e ↦
                  let old : slot fs' ip' l ≡ slot fs ip l = s ∙ (rw e refl) in
                  elim (Bool-cases (k == l')) [
                    | inl e' ↦ absurd (
                        fresh-slot fs ip r l w g.fresh g.above le
                          (sym (s' ∙ (rw e' refl)) ∙ sym q ∙ old))
                    | inr e' ↦
                        w.apart l l' le le' (λ z. pos (old ∙ z)) (sym old ∙ q ∙ s' ∙ (rw e' refl))
                  ]
            ];
      }
