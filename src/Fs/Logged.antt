-- ===== src/Fs/Logged.antt =====
-- kernel/fs/fs.c: the blocks that `bmap` hands to `log_write`.
use tatak_os.Base.{
  ℕ, zero, suc, ◌+◌, ◌-◌, ◌/◌, ◌≡◌, ◌≢◌, ◌≤◌, ◌<◌, ◌⊎◌, inl, inr, refl, sym, ap, ◌∙◌, true, false,
  some, some-injective, arith, ltb, ◌==◌, if◌then◌else◌, Bool-cases, Option-cases,
}
use tatak_os.Disk.{update, update_self, update_ne}
use tatak_os.Fs.{
  ndirect, nindirect, max_file, bits_per_block, Bytes, Superblock, Fs, Inode, modify, log_write,
  bzero, word, put_word, set_bit, find_clear, bblock, balloc_from, balloc, addr_at, entry_at, bmap,
}
use tatak_os.Fs.Dinode.{iblock, iupdate}
use tatak_os.Fs.Slots.{slot}

-- A block of the free map.
abbrev pub IsMapBlock : Superblock → ℕ → Type 0
IsMapBlock sb x = (c : ℕ) × (c < sb.size) × (x ≡ bblock sb c)

log_write-cases :
    (b : ℕ) (fs : Fs) (x : ℕ) → (log_write b fs).logged x ≡ true → (fs.logged x ≡ true) ⊎ (x ≡ b)
log_write-cases b fs x h = elim (Bool-cases (b == x)) [
  | inl e ↦ inr (ground arith)
  | inr e ↦ inl (rw e at h)
]

pub iupdate-logs :
    (sb : Superblock) (ip : Inode) (fs : Fs) (x : ℕ)
    → (iupdate sb ip fs).logged x ≡ true
    → (fs.logged x ≡ true) ⊎ (x ≡ iblock sb ip.inum)
unfolding iupdate
iupdate-logs sb ip fs x h = log_write-cases (iblock sb ip.inum) fs x h

module _ (sb : Superblock) where
  -- The blocks that `balloc` logs: one of the map, and the new one.
  balloc_from-logs :
      (fuel b : ℕ) (fs : Fs) (r : ℕ) (fs' : Fs)
      → balloc_from sb fuel b fs ≡ some (r, fs')
      → (x : ℕ) → fs'.logged x ≡ true
      → (fs.logged x ≡ true) ⊎ IsMapBlock sb x ⊎ (x ≡ r)
  unfolding balloc_from
  balloc_from-logs zero b fs r fs' e x h = cc
  balloc_from-logs (suc fuel) b fs r fs' e x h = elim (Bool-cases (ltb b sb.size)) [
    | inr q ↦ absurd (let e' = rw (balloc_from, q) at e in cc)
    | inl q ↦
        let block = fs.blocks (bblock sb b) in
        elim (Option-cases (find_clear block b sb.size 0 bits_per_block)) [
          | inl z ↦
              balloc_from-logs fuel (b + bits_per_block) fs r fs' (rw (balloc_from, q, z) at e) x h
          | inr (bi, z) ↦
              let fs1 = log_write (bblock sb b) (modify (bblock sb b) (set_bit bi block) fs) in
              let same : (b + bi, bzero (b + bi) fs1) ≡ (r, fs') =
                some-injective _ _ (rw (balloc_from, q, z) at e) in
              let at : b + bi ≡ r = ap (λ p. p.0) same in
              let h1 : (bzero (b + bi) fs1).logged x ≡ true = ap (λ p. p.1.logged x) same ∙ h in
              elim (log_write-cases (b + bi) (modify (b + bi) (λ j. 0) fs1) x h1) [
                | inr here ↦ inr (inr (here ∙ at))
                | inl h2 ↦ elim (log_write-cases (bblock sb b) fs x h2) [
                  | inl old ↦ inl old
                  | inr here ↦ inr (inl (b, ground (arith, q), here))
                ]
              ]
        ]
  ]

  balloc-logs :
      (fs : Fs) (r : ℕ) (fs' : Fs)
      → balloc sb fs ≡ some (r, fs')
      → (x : ℕ) → fs'.logged x ≡ true
      → (fs.logged x ≡ true) ⊎ IsMapBlock sb x ⊎ (x ≡ r)
  unfolding balloc
  balloc-logs fs r fs' e = balloc_from-logs (suc (sb.size / bits_per_block)) 0 fs r fs' e

  -- What `addr_at` and `entry_at` log, and that the indirect block stays the same.
  addr_at-logs :
      (i : ℕ) (ip : Inode) (fs : Fs) (r : ℕ) (ip' : Inode) (fs' : Fs)
      → addr_at sb i ip fs ≡ some (r, (ip', fs'))
      → ((x : ℕ) → fs'.logged x ≡ true → (fs.logged x ≡ true) ⊎ IsMapBlock sb x ⊎ (x ≡ r))
        × (ip'.addrs i ≡ r)
        × (ip.addrs ndirect ≢ 0 → ip'.addrs ndirect ≡ ip.addrs ndirect)
  unfolding addr_at
  addr_at-logs i ip fs r ip' fs' e = elim (Bool-cases (ip.addrs i == 0)) [
    | inr q ↦
        let same : (ip.addrs i, (ip, fs)) ≡ (r, (ip', fs')) =
          some-injective _ _ (rw (addr_at, q) at e) in
        (
          λ x h. inl (ap (λ p. p.1.1.logged x) same ∙ h),
          sym (ap (λ p. p.1.0.addrs i) same) ∙ ap (λ p. p.0) same,
          λ pos. sym (ap (λ p. p.1.0.addrs ndirect) same),
        )
    | inl q ↦ elim (Option-cases (balloc sb fs)) [
      | inl z ↦ absurd (let e' = rw (addr_at, q, z) at e in cc)
      | inr ((a, fs1), z) ↦
          let same : (a, (record ip { addrs = update ip.addrs i a }, fs1)) ≡ (r, (ip', fs')) =
            some-injective _ _ (rw (addr_at, q, z) at e) in
          let at : a ≡ r = ap (λ p. p.0) same in
          (
            λ x h. rw at at (balloc-logs fs a fs1 z x (ap (λ p. p.1.1.logged x) same ∙ h)),
            sym (ap (λ p. p.1.0.addrs i) same) ∙ update_self ip.addrs i a ∙ at,
            λ pos.
                sym (ap (λ p. p.1.0.addrs ndirect) same)
                ∙ update_ne ip.addrs i ndirect a (λ s. pos (ground (arith, s, q))),
          )
    ]
  ]

  entry_at-logs :
      (b i : ℕ) (ip : Inode) (fs : Fs) (r : ℕ) (ip' : Inode) (fs' : Fs)
      → entry_at sb b i ip fs ≡ some (r, (ip', fs'))
      → ((x : ℕ) → fs'.logged x ≡ true → (fs.logged x ≡ true) ⊎ IsMapBlock sb x ⊎ (x ≡ r) ⊎ (x ≡ b))
        × (ip ≡ ip')
  unfolding entry_at
  entry_at-logs b i ip fs r ip' fs' e = elim (Bool-cases (word (fs.blocks b) i == 0)) [
    | inr q ↦
        let same : (word (fs.blocks b) i, (ip, fs)) ≡ (r, (ip', fs')) =
          some-injective _ _ (rw (entry_at, q) at e) in
        (λ x h. inl (ap (λ p. p.1.1.logged x) same ∙ h), ap (λ p. p.1.0) same)
    | inl q ↦ elim (Option-cases (balloc sb fs)) [
      | inl z ↦ absurd (let e' = rw (entry_at, q, z) at e in cc)
      | inr ((a, fs1), z) ↦
          let fs2 = modify b (put_word i a (fs1.blocks b)) fs1 in
          let same : (a, (ip, log_write b fs2)) ≡ (r, (ip', fs')) =
            some-injective _ _ (rw (entry_at, q, z) at e) in
          let at : a ≡ r = ap (λ p. p.0) same in
          (
            λ x h. elim (log_write-cases b fs2 x (ap (λ p. p.1.1.logged x) same ∙ h)) [
              | inr here ↦ inr (inr (inr here))
              | inl h1 ↦ elim (balloc-logs fs a fs1 z x h1) [
                | inl old ↦ inl old
                | inr (inl m) ↦ inr (inl m)
                | inr (inr here) ↦ inr (inr (inl (here ∙ at)))
              ]
            ],
            ap (λ p. p.1.0) same,
          )
    ]
  ]

  -- What `bmap` logs: blocks of the map, the block that it returns, and the indirect block if the
  -- index is not direct.
  pub bmap-logs :
      (k : ℕ) (ip : Inode) (fs : Fs) (r : ℕ) (ip' : Inode) (fs' : Fs)
      → bmap sb k ip fs ≡ some (r, (ip', fs'))
      → ((x : ℕ)
          → fs'.logged x ≡ true
          → (fs.logged x ≡ true)
            ⊎ IsMapBlock sb x
            ⊎ (x ≡ r)
            ⊎ ((ltb k ndirect ≡ false) × (x ≡ ip'.addrs ndirect)))
        × (ip.addrs ndirect ≢ 0 → ip'.addrs ndirect ≡ ip.addrs ndirect)
  unfolding bmap
  bmap-logs k ip fs r ip' fs' e = elim (Bool-cases (ltb k ndirect)) [
    | inl q ↦
        let (logs, at, stable) = addr_at-logs k ip fs r ip' fs' (rw (bmap, q) at e) in
        (
          λ x h. elim (logs x h) [
            | inl old ↦ inl old
            | inr (inl m) ↦ inr (inl m)
            | inr (inr here) ↦ inr (inr (inl here))
          ],
          stable,
        )
    | inr q ↦ elim (Bool-cases (ltb (k - ndirect) nindirect)) [
      | inr q' ↦ absurd (let e' = rw (bmap, q, q') at e in cc)
      | inl q' ↦ elim (Option-cases (addr_at sb ndirect ip fs)) [
        | inl z ↦ absurd (let e' = rw (bmap, q, q', z) at e in cc)
        | inr ((b, (ip1, fs1)), z) ↦
            let (logs, at, stable) = addr_at-logs ndirect ip fs b ip1 fs1 z in
            let (logs', same) =
              entry_at-logs b (k - ndirect) ip1 fs1 r ip' fs' (rw (bmap, q, q', z) at e) in
            let here : b ≡ ip'.addrs ndirect = sym at ∙ ap (λ p. p.addrs ndirect) same in
            (
              λ x h. elim (logs' x h) [
                | inl h1 ↦ elim (logs x h1) [
                  | inl old ↦ inl old
                  | inr (inl m) ↦ inr (inl m)
                  | inr (inr x_at) ↦ inr (inr (inr (q, x_at ∙ here)))
                ]
                | inr (inl m) ↦ inr (inl m)
                | inr (inr (inl x_at)) ↦ inr (inr (inl x_at))
                | inr (inr (inr x_at)) ↦ inr (inr (inr (q, x_at ∙ here)))
              ],
              λ pos. sym (ap (λ p. p.addrs ndirect) same) ∙ stable pos,
            )
      ]
    ]
  ]

  -- All that is logged besides what was: blocks of the map, `n` blocks of data, and the indirect
  -- block of the file, which does not change once it is there.
  pub record IsLogged (fs : Fs) (ip : Inode) (n : ℕ) (fs' : Fs) (ip' : Inode) : Type 0 where
    pub data_block : ℕ → ℕ
    pub each :
        (x : ℕ)
        → fs'.logged x ≡ true
        → (fs.logged x ≡ true)
          ⊎ IsMapBlock sb x
          ⊎ ((i : ℕ) × (i < n) × (x ≡ data_block i))
          ⊎ ((ip'.addrs ndirect ≢ 0) × (x ≡ ip'.addrs ndirect))
    pub stable : ip.addrs ndirect ≢ 0 → ip'.addrs ndirect ≡ ip.addrs ndirect

  pub IsLogged-none : (fs : Fs) (ip : Inode) (n : ℕ) → IsLogged fs ip n fs ip
  IsLogged-none fs ip n = record { data_block = λ i. 0; each = λ x h. inl h; stable = λ pos. refl }

  pub IsLogged-trans :
      (fs : Fs) (ip : Inode) (n m k : ℕ) (fs1 : Fs) (ip1 : Inode) (fs' : Fs) (ip' : Inode)
      → n + m ≤ k
      → IsLogged fs ip n fs1 ip1
      → IsLogged fs1 ip1 m fs' ip'
      → IsLogged fs ip k fs' ip'
  IsLogged-trans fs ip n m k fs1 ip1 fs' ip' le a b =
      let both : ℕ → ℕ = λ i. if ltb i n then a.data_block i else b.data_block (i - n) in
      record {
        data_block = both;
        each = λ x h. elim (b.each x h) [
          | inl h1 ↦ elim (a.each x h1) [
            | inl old ↦ inl old
            | inr (inl m) ↦ inr (inl m)
            | inr (inr (inl (i, lt, at))) ↦
                let low : ltb i n ≡ true = ground arith in
                inr (inr (inl (i, omega (arith, lt, le), rw low at)))
            | inr (inr (inr (pos, at))) ↦
                let same = b.stable pos in inr (inr (inr (rw same pos, rw same at)))
          ]
          | inr (inl m) ↦ inr (inl m)
          | inr (inr (inl (i, lt, at))) ↦
              let high : ltb (n + i) n ≡ false = ground arith in
              let back : n + i - n ≡ i = omega arith in
              inr (inr (inl (n + i, omega (arith, lt, le), rw (high, back) at)))
          | inr (inr (inr last)) ↦ inr (inr (inr last))
        ];
        stable = λ pos. let same = a.stable pos in b.stable (rw same pos) ∙ same;
      }

-- A block of a file beyond the direct ones needs the indirect block.
indirect_there :
    (fs : Fs) (ip : Inode) (k : ℕ)
    → k < max_file
    → ltb k ndirect ≡ false
    → slot fs ip k ≢ 0
    → ip.addrs ndirect ≢ 0
unfolding slot
indirect_there fs ip k lt far pos z =
    let last : (k == max_file) ≡ false = ground (arith, lt) in pos (rw (far, last, z) refl)

-- One round of the loop of `writei`.
pub round-logs :
    (sb : Superblock) (fs : Fs) (ip : Inode) (k n b : ℕ) (x : Bytes) (fs1 : Fs) (ip1 : Inode)
    → k < max_file
    → 0 < n
    → bmap sb k ip fs ≡ some (b, (ip1, fs1))
    → slot fs1 ip1 k ≡ b
    → b ≢ 0
    → IsLogged sb fs ip n (log_write b (modify b x fs1)) ip1
round-logs sb fs ip k n b x fs1 ip1 lt some_left e here pos =
    let (logs, stable) = bmap-logs sb k ip fs b ip1 fs1 e in
    record {
      data_block = λ i. b;
      each = λ y h. elim (log_write-cases b (modify b x fs1) y h) [
        | inr at ↦ inr (inr (inl (0, some_left, at)))
        | inl h1 ↦ elim (logs y h1) [
          | inl old ↦ inl old
          | inr (inl m) ↦ inr (inl m)
          | inr (inr (inl at)) ↦ inr (inr (inl (0, some_left, at)))
          | inr (inr (inr (far, at))) ↦
              inr (inr (inr (indirect_there fs1 ip1 k lt far (λ z. pos (sym here ∙ z)), at)))
        ]
      ];
      stable = stable;
    }
