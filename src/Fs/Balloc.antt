-- ===== src/Fs/Balloc.antt =====
-- kernel/fs/fs.c: `balloc` and `bfree` on the free map.
use tatak_os.Base.{
  ℕ, zero, suc, ◌+◌, ◌*◌, ◌/◌, ◌%◌, ◌^◌, ◌≡◌, ◌≢◌, ◌≤◌, ◌<◌, ◌⊎◌, inl, inr, refl, ap, ◌∙◌, Bool,
  true, false, none, some, arith, ltb, ◌==◌, if◌then◌else◌, Bool-cases, Option-cases,
}
use tatak_os.Disk.{update, update_self, update_ne, update-cases}
use tatak_os.Fs.{
  bits_per_block, Bytes, Superblock, Fs, modify, log_write, bzero, is_set, set_bit, clear_bit,
  find_clear, bblock, balloc_from, balloc, bfree,
}
use tatak_os.Fs.Bits.{is_set-set_bit, is_set-clear_bit, find_clear-some, find_clear-none}

-- Whether the map marks block `b`.
unfoldable pub used : Superblock → Fs → ℕ → Bool
used sb fs b = is_set (fs.blocks (bblock sb b)) (b % bits_per_block)

-- The free map lies before block `d`, where the data begin, and block numbers are `uint`.
pub record IsLayout (sb : Superblock) (d : ℕ) : Type 0 where
  pub map_below : sb.bmapstart + sb.size / bits_per_block < d
  pub data_below : d ≤ sb.size
  pub narrow : sb.size < 2 ^ 32

-- The map marks what is not data.
abbrev pub IsMarked : Superblock → ℕ → Fs → Type 0
IsMarked sb d fs = (b : ℕ) → b < d → used sb fs b ≡ true

-- Block `r` was free and is not, and its bytes are zero; the other data are as they were.
pub record IsAllocated (sb : Superblock) (d : ℕ) (fs : Fs) (r : ℕ) (fs' : Fs) : Type 0 where
  pub above : d ≤ r
  pub below : r < sb.size
  pub fresh : used sb fs r ≡ false
  pub marks : (b : ℕ) → b < sb.size → used sb fs' b ≡ (if r == b then true else used sb fs b)
  pub zeros : (j : ℕ) → fs'.blocks r j ≡ 0
  pub others : (b : ℕ) → d ≤ b → r ≢ b → fs'.blocks b ≡ fs.blocks b

-- A change of one mark.
set_marks :
    (sb : Superblock) (fs : Fs) (m bi r c : ℕ)
    → bblock sb r ≡ m
    → r % bits_per_block ≡ bi
    → used sb (modify m (set_bit bi (fs.blocks m)) fs) c ≡ (if r == c then true else used sb fs c)
unfolding used
set_marks sb fs m bi r c at place =
    elim (update-cases fs.blocks m (set_bit bi (fs.blocks m)) (bblock sb c)) [
      | inl (e, h) ↦
          let same : (bi == c % bits_per_block) ≡ (r == c) = ground (arith, e, at, place) in
          rw (h, is_set-set_bit (fs.blocks m) bi (c % bits_per_block), same, e) refl
      | inr (e, h) ↦ let ne : (r == c) ≡ false = ground (arith, e, at) in rw (h, ne) refl
    ]

clear_marks :
    (sb : Superblock) (fs : Fs) (m bi r c : ℕ)
    → bblock sb r ≡ m
    → r % bits_per_block ≡ bi
    → used sb (modify m (clear_bit bi (fs.blocks m)) fs) c
      ≡ (if r == c then false else used sb fs c)
unfolding used
clear_marks sb fs m bi r c at place =
    elim (update-cases fs.blocks m (clear_bit bi (fs.blocks m)) (bblock sb c)) [
      | inl (e, h) ↦
          let same : (bi == c % bits_per_block) ≡ (r == c) = ground (arith, e, at, place) in
          rw (h, is_set-clear_bit (fs.blocks m) bi (c % bits_per_block), same, e) refl
      | inr (e, h) ↦ let ne : (r == c) ≡ false = ground (arith, e, at) in rw (h, ne) refl
    ]

module _ (sb : Superblock) (d : ℕ) (layout : IsLayout sb d) where
  -- The changes that `balloc` makes for bit `bi` of the map's block for `b`.
  marked-IsAllocated :
      (fs : Fs) (b bi : ℕ)
      → IsMarked sb d fs
      → b % bits_per_block ≡ 0
      → bi < bits_per_block
      → b + bi < sb.size
      → is_set (fs.blocks (bblock sb b)) bi ≡ false
      → IsAllocated sb d fs (b + bi) (
          bzero (b + bi) (
            log_write
              (bblock sb b)
              (modify (bblock sb b) (set_bit bi (fs.blocks (bblock sb b))) fs)))
  unfolding used
  marked-IsAllocated fs b bi marks whole lt top clear =
      let r : ℕ = b + bi in
      let m : ℕ = bblock sb b in
      let x : Bytes = set_bit bi (fs.blocks m) in
      let at : bblock sb r ≡ m = omega (arith, whole, lt) in
      let place : r % bits_per_block ≡ bi = omega (arith, whole, lt) in
      let fresh : is_set (fs.blocks (bblock sb r)) (r % bits_per_block) ≡ false =
        rw (at, place) clear in
      let above : d ≤ r = elim (Bool-cases (ltb r d)) [
        | inl e ↦ absurd (let u = marks r (ground arith) in cc)
        | inr e ↦ ground arith
      ] in
      let low = layout.map_below in
      record {
        above = above;
        below = top;
        fresh = fresh;
        marks = λ c c_top.
            let ne : r ≢ bblock sb c = λ e. absurd (omega (arith, above, low, c_top, e)) in
            rw (update_ne (update fs.blocks m x) r (bblock sb c) (λ j. 0) ne)
              (set_marks sb fs m bi r c at place);
        zeros = λ j. ap (λ f. f j) (update_self (update fs.blocks m x) r (λ i. 0));
        others = λ c c_above ne.
            let ne' : m ≢ c = λ e. absurd (omega (arith, c_above, low, top, e)) in
            update_ne (update fs.blocks m x) r c (λ j. 0) ne ∙ update_ne fs.blocks m c x ne';
      }

  all_set :
      (b c : ℕ) (fs : Fs)
      → b % bits_per_block ≡ 0
      → b ≤ c
      → c < b + bits_per_block
      → is_set (fs.blocks (bblock sb b)) (c % bits_per_block) ≡ true
      → used sb fs c ≡ true
  unfolding used
  all_set b c fs whole lo hi h =
      let at : bblock sb c ≡ bblock sb b = omega (arith, whole, lo, hi) in rw at h

  -- All blocks before `b` are in use, and the fuel reaches the end of the disk.
  balloc_from-cases :
      (fuel b : ℕ) (fs : Fs)
      → IsMarked sb d fs
      → b % bits_per_block ≡ 0
      → sb.size < b + fuel * bits_per_block
      → ((c : ℕ) → c < b → c < sb.size → used sb fs c ≡ true)
      → ((balloc_from sb fuel b fs ≡ none) × ((c : ℕ) → c < sb.size → used sb fs c ≡ true))
        ⊎ ((r : ℕ) × (fs' : Fs) × (balloc_from sb fuel b fs ≡ some (r, fs'))
            × IsAllocated sb d fs r fs')
  unfolding balloc_from
  balloc_from-cases zero b fs marks whole enough before =
      inl (refl, λ c lt. before c (omega (arith, enough, lt)) lt)
  balloc_from-cases (suc fuel) b fs marks whole enough before = elim (Bool-cases (ltb b sb.size)) [
    | inr e ↦ inl (rw (balloc_from, e) refl, λ c lt. before c (ground arith) lt)
    | inl e ↦
        elim (Option-cases (find_clear (fs.blocks (bblock sb b)) b sb.size 0 bits_per_block)) [
          | inl q ↦
              let here : (c : ℕ) → c < b + bits_per_block → c < sb.size → used sb fs c ≡ true =
                λ c lt top. elim (Bool-cases (ltb c b)) [
                  | inl l ↦ before c (ground arith) top
                  | inr l ↦ all_set b c fs whole (ground arith) lt (
                      find_clear-none (fs.blocks (bblock sb b)) b sb.size 0 bits_per_block
                        (c % bits_per_block) q (omega arith) (omega arith)
                        (ground (arith, whole, lt, top)))
                ] in
              let rest =
                balloc_from-cases fuel (b + bits_per_block) fs marks (omega (arith, whole))
                  (omega (arith, enough)) here in
              rw (balloc_from, e, q) rest
          | inr (bi, q) ↦
              let (lo, lt, top, clear) =
                find_clear-some (fs.blocks (bblock sb b)) b sb.size 0 bits_per_block bi q in
              inr (
                b + bi,
                bzero (b + bi) (
                    log_write (bblock sb b)
                      (modify (bblock sb b) (set_bit bi (fs.blocks (bblock sb b))) fs)),
                rw (balloc_from, e, q) refl,
                marked-IsAllocated fs b bi marks whole (omega (arith, lt)) top clear,
              )
        ]
  ]

  -- `balloc` takes a free block, or panics when the map marks every block.
  pub balloc-cases :
      (fs : Fs)
      → IsMarked sb d fs
      → ((balloc sb fs ≡ none) × ((c : ℕ) → c < sb.size → used sb fs c ≡ true))
        ⊎ ((r : ℕ) × (fs' : Fs) × (balloc sb fs ≡ some (r, fs')) × IsAllocated sb d fs r fs')
  unfolding balloc
  balloc-cases fs marks =
      balloc_from-cases (suc (sb.size / bits_per_block)) 0 fs marks refl (omega arith)
        (λ c lt top. absurd (omega arith))

-- A marked block is freed without a panic, and its mark alone is taken away.
pub bfree_lem :
    (sb : Superblock) (fs : Fs) (b : ℕ)
    → used sb fs b ≡ true
    → (fs' : Fs) × (bfree sb b fs ≡ some fs')
      × ((c : ℕ) → used sb fs' c ≡ (if b == c then false else used sb fs c))
unfolding bfree used
bfree_lem sb fs b marked =
    let m = bblock sb b in
    (
      log_write m (modify m (clear_bit (b % bits_per_block) (fs.blocks m)) fs),
      rw marked refl,
      λ c. clear_marks sb fs m (b % bits_per_block) b c refl refl,
    )
