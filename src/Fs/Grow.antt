-- ===== src/Fs/Grow.antt =====
-- kernel/fs/fs.c: what a new block of an inode leaves of the file.
use tatak_os.Base.{
  ℕ, zero, suc, ◌+◌, ◌-◌, ◌*◌, ◌/◌, ◌%◌, ◌≡◌, ◌≢◌, ◌≤◌, ◌<◌, ◌⊎◌, inl, inr, refl, sym, ap, ◌∙◌,
  true, false, some, arith, ltb, ◌==◌, if◌then◌else◌, Bool-cases,
}
use tatak_os.Disk.{update, update_self}
use tatak_os.Fs.{ndirect, max_file, bsize, Bytes, Superblock, Fs, Inode, word, balloc}
use tatak_os.Fs.Balloc.{used, IsLayout, IsMarked, IsAllocated, balloc-cases}
use tatak_os.Fs.Slots.{slot, content, IsFile, IsGrown, fresh-slot}

-- The blocks before `n` that are free.
unfoldable pub spare : Superblock → Fs → ℕ → ℕ
spare sb fs zero = 0
spare sb fs (suc n) = spare sb fs n + (if used sb fs n then 0 else 1)

spare_full :
    (sb : Superblock) (fs : Fs) (n : ℕ)
    → n ≤ sb.size
    → ((c : ℕ) → c < sb.size → used sb fs c ≡ true)
    → spare sb fs n ≡ 0
unfolding spare
spare_full sb fs zero le all = refl
spare_full sb fs (suc n) le all =
    let rest = spare_full sb fs n (omega arith) all in
    let here = all n (omega arith) in ground (arith, rest, here)

pub spare_one :
    (sb : Superblock) (fs fs' : Fs) (r n : ℕ)
    → n ≤ sb.size
    → used sb fs r ≡ false
    → ((b : ℕ) → b < sb.size → used sb fs' b ≡ (if r == b then true else used sb fs b))
    → spare sb fs' n + (if ltb r n then 1 else 0) ≡ spare sb fs n
unfolding spare
spare_one sb fs fs' r zero le fresh marks = ground arith
spare_one sb fs fs' r (suc n) le fresh marks =
    let rest = spare_one sb fs fs' r n (omega arith) fresh marks in
    let here = marks n (omega arith) in
    elim (Bool-cases (r == n)) [
      | inl e ↦
          let same : r ≡ n = ground arith in
          let fresh' : used sb fs n ≡ false = rw (← same) fresh in
          ground (arith, rest, here, fresh', e)
      | inr e ↦ ground (arith, rest, here, e)
    ]

-- An inode with other blocks.
abbrev pub with_addrs : Inode → (ℕ → ℕ) → Inode
with_addrs ip a = record ip { addrs = a }

-- The block with index `k` is `r`, and the file is the same.
pub record IsMapped (sb : Superblock) (d : ℕ) (fs : Fs) (ip : Inode) (k r : ℕ) (fs' : Fs)
    (ip' : Inode) (m : ℕ) : Type 0 where
  pub file : IsFile sb d fs' ip'
  pub here : slot fs' ip' k ≡ r
  pub pos : r ≢ 0
  pub same : (i : ℕ) → i < max_file * bsize → content fs' ip' i ≡ content fs ip i
  pub kept : ip' ≡ with_addrs ip ip'.addrs
  pub spared : spare sb fs sb.size ≤ spare sb fs' sb.size + m

-- The index of the block that `ip->addrs[i]` names.
abbrev pub index : ℕ → ℕ
index i = if i == ndirect then max_file else i

word-zero : (x : Bytes) (i : ℕ) → ((j : ℕ) → x j ≡ 0) → word x i ≡ 0
unfolding word
word-zero x i h =
    let a = h (4 * i) in
    let b = h (4 * i + 1) in let c = h (4 * i + 2) in let e = h (4 * i + 3) in rw (a, b, c, e) refl

-- Where an index stands: among the direct blocks, the indirect one, or those that it lists.
pub place-cases :
    (l : ℕ)
    → l ≤ max_file
    → (ltb l ndirect ≡ true)
      ⊎ (l ≡ max_file)
      ⊎ ((ltb l ndirect ≡ false) × ((l == max_file) ≡ false))
place-cases l le = elim (Bool-cases (ltb l ndirect)) [
  | inl e ↦ inl e
  | inr e ↦ elim (Bool-cases (l == max_file)) [
    | inl q ↦ inr (inl (ground arith))
    | inr q ↦ inr (inr (e, q))
  ]
]

module _ (sb : Superblock) (d : ℕ) (layout : IsLayout sb d) where
  pub grown-content :
      (fs : Fs) (ip : Inode) (k r : ℕ) (fs' : Fs) (ip' : Inode) (i : ℕ)
      → IsFile sb d fs ip
      → IsGrown sb d fs ip k r fs' ip'
      → ((j : ℕ) → fs'.blocks r j ≡ 0)
      → ((b : ℕ) → d ≤ b → r ≢ b → b ≢ slot fs ip max_file → fs'.blocks b ≡ fs.blocks b)
      → i < max_file * bsize
      → content fs' ip' i ≡ content fs ip i
  unfolding content
  grown-content fs ip k r fs' ip' i w g zeros others lt =
      let l : ℕ = i / bsize in
      let le : i / bsize ≤ max_file = omega (arith, lt) in
      let s = g.slots (i / bsize) le in
      elim (Bool-cases (k == i / bsize)) [
        | inl e ↦
            let s' : slot fs' ip' (i / bsize) ≡ r = s ∙ (rw e refl) in
            let same : k ≡ i / bsize = ground arith in
            let old : slot fs ip (i / bsize) ≡ 0 = ap (slot fs ip) (sym same) ∙ g.hole in
            let z = zeros (i % bsize) in rw (s', old) (ground (arith, z))
        | inr e ↦
            let s' : slot fs' ip' (i / bsize) ≡ slot fs ip (i / bsize) = s ∙ (rw e refl) in
            elim (Bool-cases (slot fs ip (i / bsize) == 0)) [
              | inl z ↦ rw (s', z) refl
              | inr z ↦
                  let pos : slot fs ip (i / bsize) ≢ 0 = ground arith in
                  let ne = fresh-slot sb d layout fs ip r (i / bsize) w g.fresh g.above le in
                  let apart : slot fs ip (i / bsize) ≢ slot fs ip max_file = λ q. absurd (
                    let a = w.apart (i / bsize) max_file le (omega arith) pos q in
                    omega (arith, a, lt)) in
                  let same =
                    others (slot fs ip (i / bsize)) (w.above (i / bsize) le pos) ne apart in
                  rw (s', z, same) refl
            ]
      ]

  pub balloc-ok :
      (fs : Fs)
      → IsMarked sb d fs
      → 1 ≤ spare sb fs sb.size
      → (r : ℕ) × (fs' : Fs) × (balloc sb fs ≡ some (r, fs')) × IsAllocated sb d fs r fs'
  balloc-ok fs marks room = elim (balloc-cases sb d layout fs marks) [
    | inl (e, full) ↦
        absurd (let z = spare_full sb fs sb.size (omega arith) full in omega (arith, z, room))
    | inr h ↦ h
  ]

  -- The blocks of the file after `addr_at` has called `balloc`.
  pub addr_slots :
      (fs fs' : Fs) (ip : Inode) (i r l : ℕ)
      → IsFile sb d fs ip
      → IsAllocated sb d fs r fs'
      → i ≤ ndirect
      → ip.addrs i ≡ 0
      → l ≤ max_file
      → slot fs' (record ip { addrs = update ip.addrs i r }) l
        ≡ (if index i == l then r else slot fs ip l)
  unfolding slot
  addr_slots fs fs' ip i r l w a le z le' =
      let low = layout.map_below in
      let r_pos : (r == 0) ≡ false = let ab = a.above in ground (arith, ab, low) in
      elim (Bool-cases (i == ndirect)) [
        | inl e ↦
            let at : i ≡ 12 = ground arith in
            let none_yet : ip.addrs 12 ≡ 0 = rw (← at) z in
            elim (place-cases l le') [
              | inl q ↦ ground (arith, e, q, le', at)
              | inr (inl q) ↦ rw (q, e, update_self ip.addrs 12 r) (ground (arith, e, at))
              | inr (inr (q, q')) ↦
                  let zero_word = word-zero (fs'.blocks r) (l - ndirect) a.zeros in
                  ground (arith, e, q, q', at, none_yet, r_pos, zero_word)
            ]
        | inr e ↦ elim (place-cases l le') [
          | inl q ↦ ground (arith, e, q, le)
          | inr (inl q) ↦ rw q (ground (arith, e, le))
          | inr (inr (q, q')) ↦ elim (Bool-cases (ip.addrs 12 == 0)) [
            | inl n ↦ ground (arith, e, q, q', le, le', n)
            | inr n ↦
                let pos : ip.addrs 12 ≢ 0 = ground arith in
                let ne = fresh-slot sb d layout fs ip r max_file w a.fresh a.above (omega arith) in
                let same = a.others (ip.addrs 12) (w.above max_file (omega arith) pos) ne in
                let out : (i == 12) ≡ false = e in
                let out' : (i == l) ≡ false = ground arith in rw (q, q', e, out', n, same) refl
          ]
        ]
      ]
