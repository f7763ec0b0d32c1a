-- ===== src/Fs/Bits.antt =====
-- kernel/fs/fs.c: the bits of the free map and the words of a block.
use tatak_os.Base.{
  ℕ, zero, suc, ◌+◌, ◌*◌, ◌/◌, ◌%◌, ◌^◌, ◌≡◌, ◌≢◌, ◌≤◌, ◌<◌, inl, inr, refl, ap, ◌∙◌, true, false,
  none, some, some-injective, arith, ltb, ◌==◌, if◌then◌else◌, Bool-cases,
}
use tatak_os.Disk.{update_self, update_ne}
use tatak_os.Fs.{
  Bytes, has_bit, is_set, or_bit, and_not_bit, set_bit, clear_bit, find_clear, word, byte_of,
  put_word,
}

-- A property of the numbers below 8.
cases8 : (P : ℕ → Type 0) → P 0 → P 1 → P 2 → P 3 → P 4 → P 5 → P 6 → P 7 → (k : ℕ) → k < 8 → P k
cases8 P p0 p1 p2 p3 p4 p5 p6 p7 zero lt = p0
cases8 P p0 p1 p2 p3 p4 p5 p6 p7 (suc zero) lt = p1
cases8 P p0 p1 p2 p3 p4 p5 p6 p7 (suc (suc zero)) lt = p2
cases8 P p0 p1 p2 p3 p4 p5 p6 p7 (suc (suc (suc zero))) lt = p3
cases8 P p0 p1 p2 p3 p4 p5 p6 p7 (suc (suc (suc (suc zero)))) lt = p4
cases8 P p0 p1 p2 p3 p4 p5 p6 p7 (suc (suc (suc (suc (suc zero))))) lt = p5
cases8 P p0 p1 p2 p3 p4 p5 p6 p7 (suc (suc (suc (suc (suc (suc zero)))))) lt = p6
cases8 P p0 p1 p2 p3 p4 p5 p6 p7 (suc (suc (suc (suc (suc (suc (suc zero))))))) lt = p7
cases8 P p0 p1 p2 p3 p4 p5 p6 p7 (suc (suc (suc (suc (suc (suc (suc (suc k)))))))) lt =
    absurd (omega arith)

or_bit_self : (k : ℕ) → k < 8 → (v : ℕ) → has_bit (or_bit v k) k ≡ true
or_bit_self =
    cases8 (λ k. (v : ℕ) → has_bit (or_bit v k) k ≡ true) (λ v. ground arith) (λ v. ground arith)
      (λ v. ground arith) (λ v. ground arith) (λ v. ground arith) (λ v. ground arith)
      (λ v. ground arith) (λ v. ground arith)

and_not_bit_self : (k : ℕ) → k < 8 → (v : ℕ) → has_bit (and_not_bit v k) k ≡ false
and_not_bit_self =
    cases8 (λ k. (v : ℕ) → has_bit (and_not_bit v k) k ≡ false) (λ v. ground arith)
      (λ v. ground arith) (λ v. ground arith) (λ v. ground arith) (λ v. ground arith)
      (λ v. ground arith) (λ v. ground arith) (λ v. ground arith)

or_bit_ne :
    (k : ℕ) → k < 8 → (j : ℕ) → j < 8 → k ≢ j → (v : ℕ) → has_bit (or_bit v k) j ≡ has_bit v j
or_bit_ne =
    cases8 (λ k. (j : ℕ) → j < 8 → k ≢ j → (v : ℕ) → has_bit (or_bit v k) j ≡ has_bit v j)
      (cases8 (λ j. 0 ≢ j → (v : ℕ) → has_bit (or_bit v 0) j ≡ has_bit v j) (λ ne v. ground arith)
        (λ ne v. ground arith) (λ ne v. ground arith) (λ ne v. ground arith) (λ ne v. ground arith)
        (λ ne v. ground arith) (λ ne v. ground arith) (λ ne v. ground arith))
      (cases8 (λ j. 1 ≢ j → (v : ℕ) → has_bit (or_bit v 1) j ≡ has_bit v j) (λ ne v. ground arith)
        (λ ne v. ground arith) (λ ne v. ground arith) (λ ne v. ground arith) (λ ne v. ground arith)
        (λ ne v. ground arith) (λ ne v. ground arith) (λ ne v. ground arith))
      (cases8 (λ j. 2 ≢ j → (v : ℕ) → has_bit (or_bit v 2) j ≡ has_bit v j) (λ ne v. ground arith)
        (λ ne v. ground arith) (λ ne v. ground arith) (λ ne v. ground arith) (λ ne v. ground arith)
        (λ ne v. ground arith) (λ ne v. ground arith) (λ ne v. ground arith))
      (cases8 (λ j. 3 ≢ j → (v : ℕ) → has_bit (or_bit v 3) j ≡ has_bit v j) (λ ne v. ground arith)
        (λ ne v. ground arith) (λ ne v. ground arith) (λ ne v. ground arith) (λ ne v. ground arith)
        (λ ne v. ground arith) (λ ne v. ground arith) (λ ne v. ground arith))
      (cases8 (λ j. 4 ≢ j → (v : ℕ) → has_bit (or_bit v 4) j ≡ has_bit v j) (λ ne v. ground arith)
        (λ ne v. ground arith) (λ ne v. ground arith) (λ ne v. ground arith) (λ ne v. ground arith)
        (λ ne v. ground arith) (λ ne v. ground arith) (λ ne v. ground arith))
      (cases8 (λ j. 5 ≢ j → (v : ℕ) → has_bit (or_bit v 5) j ≡ has_bit v j) (λ ne v. ground arith)
        (λ ne v. ground arith) (λ ne v. ground arith) (λ ne v. ground arith) (λ ne v. ground arith)
        (λ ne v. ground arith) (λ ne v. ground arith) (λ ne v. ground arith))
      (cases8 (λ j. 6 ≢ j → (v : ℕ) → has_bit (or_bit v 6) j ≡ has_bit v j) (λ ne v. ground arith)
        (λ ne v. ground arith) (λ ne v. ground arith) (λ ne v. ground arith) (λ ne v. ground arith)
        (λ ne v. ground arith) (λ ne v. ground arith) (λ ne v. ground arith))
      (cases8 (λ j. 7 ≢ j → (v : ℕ) → has_bit (or_bit v 7) j ≡ has_bit v j) (λ ne v. ground arith)
        (λ ne v. ground arith) (λ ne v. ground arith) (λ ne v. ground arith) (λ ne v. ground arith)
        (λ ne v. ground arith) (λ ne v. ground arith) (λ ne v. ground arith))

and_not_bit_ne :
    (k : ℕ) → k < 8 → (j : ℕ) → j < 8 → k ≢ j → (v : ℕ) → has_bit (and_not_bit v k) j ≡ has_bit v j
and_not_bit_ne =
    cases8 (λ k. (j : ℕ) → j < 8 → k ≢ j → (v : ℕ) → has_bit (and_not_bit v k) j ≡ has_bit v j)
      (cases8 (λ j. 0 ≢ j → (v : ℕ) → has_bit (and_not_bit v 0) j ≡ has_bit v j)
        (λ ne v. ground arith) (λ ne v. ground arith) (λ ne v. ground arith) (λ ne v. ground arith)
        (λ ne v. ground arith) (λ ne v. ground arith) (λ ne v. ground arith) (λ ne v. ground arith))
      (cases8 (λ j. 1 ≢ j → (v : ℕ) → has_bit (and_not_bit v 1) j ≡ has_bit v j)
        (λ ne v. ground arith) (λ ne v. ground arith) (λ ne v. ground arith) (λ ne v. ground arith)
        (λ ne v. ground arith) (λ ne v. ground arith) (λ ne v. ground arith) (λ ne v. ground arith))
      (cases8 (λ j. 2 ≢ j → (v : ℕ) → has_bit (and_not_bit v 2) j ≡ has_bit v j)
        (λ ne v. ground arith) (λ ne v. ground arith) (λ ne v. ground arith) (λ ne v. ground arith)
        (λ ne v. ground arith) (λ ne v. ground arith) (λ ne v. ground arith) (λ ne v. ground arith))
      (cases8 (λ j. 3 ≢ j → (v : ℕ) → has_bit (and_not_bit v 3) j ≡ has_bit v j)
        (λ ne v. ground arith) (λ ne v. ground arith) (λ ne v. ground arith) (λ ne v. ground arith)
        (λ ne v. ground arith) (λ ne v. ground arith) (λ ne v. ground arith) (λ ne v. ground arith))
      (cases8 (λ j. 4 ≢ j → (v : ℕ) → has_bit (and_not_bit v 4) j ≡ has_bit v j)
        (λ ne v. ground arith) (λ ne v. ground arith) (λ ne v. ground arith) (λ ne v. ground arith)
        (λ ne v. ground arith) (λ ne v. ground arith) (λ ne v. ground arith) (λ ne v. ground arith))
      (cases8 (λ j. 5 ≢ j → (v : ℕ) → has_bit (and_not_bit v 5) j ≡ has_bit v j)
        (λ ne v. ground arith) (λ ne v. ground arith) (λ ne v. ground arith) (λ ne v. ground arith)
        (λ ne v. ground arith) (λ ne v. ground arith) (λ ne v. ground arith) (λ ne v. ground arith))
      (cases8 (λ j. 6 ≢ j → (v : ℕ) → has_bit (and_not_bit v 6) j ≡ has_bit v j)
        (λ ne v. ground arith) (λ ne v. ground arith) (λ ne v. ground arith) (λ ne v. ground arith)
        (λ ne v. ground arith) (λ ne v. ground arith) (λ ne v. ground arith) (λ ne v. ground arith))
      (cases8 (λ j. 7 ≢ j → (v : ℕ) → has_bit (and_not_bit v 7) j ≡ has_bit v j)
        (λ ne v. ground arith) (λ ne v. ground arith) (λ ne v. ground arith) (λ ne v. ground arith)
        (λ ne v. ground arith) (λ ne v. ground arith) (λ ne v. ground arith) (λ ne v. ground arith))

pub is_set-set_bit :
    (x : Bytes) (i j : ℕ) → is_set (set_bit i x) j ≡ (if i == j then true else is_set x j)
unfolding is_set set_bit
is_set-set_bit x i j = elim (Bool-cases (i / 8 == j / 8)) [
  | inl e ↦
      let byte : i / 8 ≡ j / 8 = ground arith in
      elim (Bool-cases (i == j)) [
        | inl d ↦
            let same : i ≡ j = ground arith in
            rw (d, same, update_self x (j / 8) (or_bit (x (j / 8)) (j % 8)))
              (or_bit_self (j % 8) (omega arith) (x (j / 8)))
        | inr d ↦
            let ne : i % 8 ≢ j % 8 = λ q. absurd (ground arith) in
            rw (byte, update_self x (j / 8) (or_bit (x (j / 8)) (i % 8)), d)
              (or_bit_ne (i % 8) (omega arith) (j % 8) (omega arith) ne (x (j / 8)))
      ]
  | inr e ↦
      let d : (i == j) ≡ false = ground arith in
      rw (update_ne x (i / 8) (j / 8) (or_bit (x (i / 8)) (i % 8)) (ground arith), d) refl
]

pub is_set-clear_bit :
    (x : Bytes) (i j : ℕ) → is_set (clear_bit i x) j ≡ (if i == j then false else is_set x j)
unfolding is_set clear_bit
is_set-clear_bit x i j = elim (Bool-cases (i / 8 == j / 8)) [
  | inl e ↦
      let byte : i / 8 ≡ j / 8 = ground arith in
      elim (Bool-cases (i == j)) [
        | inl d ↦
            let same : i ≡ j = ground arith in
            rw (d, same, update_self x (j / 8) (and_not_bit (x (j / 8)) (j % 8)))
              (and_not_bit_self (j % 8) (omega arith) (x (j / 8)))
        | inr d ↦
            let ne : i % 8 ≢ j % 8 = λ q. absurd (ground arith) in
            rw (byte, update_self x (j / 8) (and_not_bit (x (j / 8)) (i % 8)), d)
              (and_not_bit_ne (i % 8) (omega arith) (j % 8) (omega arith) ne (x (j / 8)))
      ]
  | inr e ↦
      let d : (i == j) ≡ false = ground arith in
      rw (update_ne x (i / 8) (j / 8) (and_not_bit (x (i / 8)) (i % 8)) (ground arith), d) refl
]

pub find_clear-some :
    (x : Bytes) (b size bi n k : ℕ)
    → find_clear x b size bi n ≡ some k
    → (bi ≤ k) × (k < bi + n) × (b + k < size) × (is_set x k ≡ false)
unfolding find_clear
find_clear-some x b size bi zero k e = absurd (cc)
find_clear-some x b size bi (suc n) k e = elim (Bool-cases (ltb (b + bi) size)) [
  | inr q ↦ absurd (let e' = rw q at e in cc)
  | inl q ↦ elim (Bool-cases (is_set x bi)) [
    | inr s ↦
        let same : bi ≡ k = some-injective _ _ (rw (q, s) at e) in
        (omega arith, omega arith, ground arith, rw (← same) s)
    | inl s ↦
        let (lo, hi, top, h) = find_clear-some x b size (bi + 1) n k (rw (q, s) at e) in
        (omega arith, omega arith, top, h)
  ]
]

pub find_clear-none :
    (x : Bytes) (b size bi n k : ℕ)
    → find_clear x b size bi n ≡ none
    → bi ≤ k
    → k < bi + n
    → b + k < size
    → is_set x k ≡ true
unfolding find_clear
find_clear-none x b size bi zero k e lo hi top = absurd (omega arith)
find_clear-none x b size bi (suc n) k e lo hi top =
    let q : ltb (b + bi) size ≡ true = ground arith in
    elim (Bool-cases (is_set x bi)) [
      | inr s ↦ absurd (let e' = rw (q, s) at e in cc)
      | inl s ↦ elim (Bool-cases (bi == k)) [
        | inl d ↦ let same : bi ≡ k = ground arith in rw (← same) s
        | inr d ↦
            find_clear-none x b size (bi + 1) n k (rw (q, s) at e) (ground arith) (omega arith) top
      ]
    ]

put_word-byte : (x : Bytes) (i v k : ℕ) → k < 4 → put_word i v x (4 * i + k) ≡ byte_of v k
unfolding put_word
put_word-byte x i v k lt =
    let q : ((4 * i + k) / 4 == i) ≡ true = ground arith in
    let r : (4 * i + k) % 4 ≡ k = omega (arith, lt) in rw (q, r) refl

pub word-put_word : (x : Bytes) (i v : ℕ) → v < 2 ^ 32 → word (put_word i v x) i ≡ v
unfolding word
word-put_word x i v lt =
    let b0 : put_word i v x (4 * i) ≡ v % 256 =
      ap (put_word i v x) (omega arith) ∙ put_word-byte x i v 0 (omega arith) in
    let b1 : put_word i v x (4 * i + 1) ≡ v / 256 % 256 = put_word-byte x i v 1 (omega arith) in
    let b2 : put_word i v x (4 * i + 2) ≡ v / 2 ^ 16 % 256 = put_word-byte x i v 2 (omega arith) in
    let b3 : put_word i v x (4 * i + 3) ≡ v / 2 ^ 24 % 256 = put_word-byte x i v 3 (omega arith) in
    rw (b0, b1, b2, b3) (omega (arith, lt))

pub word-put_word_ne : (x : Bytes) (i j v : ℕ) → i ≢ j → word (put_word i v x) j ≡ word x j
unfolding word put_word
word-put_word_ne x i j v ne = ground arith
