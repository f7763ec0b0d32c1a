-- ===== src/Cstring/Comparing.antt =====
-- kernel/lib/string.c: strings that end at a zero byte.
use tatak_os.Base.{
  ℕ, zero, suc, ◌+◌, ◌≡◌, ◌≤◌, ◌<◌, ◌⊎◌, ◌↔◌, inl, inr, refl, sym, ◌∙◌, ap, ap₂, true, not, ◌&&◌,
  some, List, [], ◌∷◌, arith, ◌==◌, if◌then◌else◌, Bool-cases, length,
}
use tatak_os.Disk.{update, update_self, update_ne}
use tatak_os.Cstring.{
  Bytes, Difference, same, minus, memcmp, strncmp, safe_copy, safestrcpy, strlen_from,
}

-- The string at an address, without its zero byte, cut to `n` bytes.
abbrev pub string_at : ℕ → ℕ → Bytes → List ℕ
string_at s zero m = []
string_at s (suc n) m = if m s == 0 then [] else m s ∷ string_at (s + 1) n m

-- One round of `strncmp`, with the rest of it in `r`, `xs` and `ys`.
strncmp_round :
    (a b : ℕ) (r : Difference) (xs ys : List ℕ)
    → (r ≡ same) ↔ (xs ≡ ys)
    → ((if not (a == 0) && (a == b) then r else minus a b) ≡ same)
      ↔ ((if a == 0 then [] else a ∷ xs) ≡ (if b == 0 then [] else b ∷ ys))
strncmp_round a b r xs ys ih = elim (Bool-cases (a == b)) [
  | inl f ↦
      let q : b ≡ a = ground arith in
      rw q (elim (Bool-cases (a == 0)) [
        | inl e ↦ rw e (λ h. refl, λ h. ground arith)
        | inr e ↦ (λ h. ground (arith, ih.0), λ h. ground (arith, ih.1))
      ])
  | inr f ↦ rw f (λ h. absurd (ground arith), λ h. absurd (ground arith))
]

-- `strncmp` is 0 exactly if the two strings, which end at a zero byte or after `n` bytes, are the
-- same.
pub strncmp_iff :
    (p q n : ℕ) (m : Bytes) → (strncmp p q n m ≡ same) ↔ (string_at p n m ≡ string_at q n m)
unfolding strncmp
strncmp_iff p q zero m = (λ e. refl, λ e. refl)
strncmp_iff p q (suc n) m = strncmp_round (m p) (m q) _ _ _ (strncmp_iff (p + 1) (q + 1) n m)

pub string_at-same :
    (s n : ℕ) (m m' : Bytes)
    → ((i : ℕ) → i < n → m' (s + i) ≡ m (s + i))
    → string_at s n m' ≡ string_at s n m
string_at-same s zero m m' h = refl
string_at-same s (suc n) m m' h =
    let first : m' s ≡ m s = rw at_zero at (h 0 (omega arith)) in
    let ih =
      string_at-same (s + 1) n m m'
        (λ i lt. let q : s + 1 + i ≡ s + (i + 1) = omega arith in rw q (h (i + 1) (omega arith))) in
    rw (first, ih) refl
  where
    at_zero : s + 0 ≡ s
    at_zero = omega arith

string_at-zero : (s n : ℕ) (m : Bytes) → m s ≡ 0 → string_at s (suc n) m ≡ []
string_at-zero s n m e = rw e refl

-- Nothing outside of the `n + 1` bytes at `s` changes.
safe_copy_out : (s t n : ℕ) (m : Bytes) (j : ℕ) → j < s ⊎ s + n < j → safe_copy s t n m j ≡ m j
unfolding safe_copy
safe_copy_out s t zero m j h = ground arith
safe_copy_out s t (suc n) m j h =
    let ih = safe_copy_out (s + 1) (t + 1) n (update m s (m t)) j (ground arith) in
    elim (Bool-cases (m t == 0)) [ inl e ↦ rw e (ground arith) | inr e ↦ rw (e, ih) (ground arith) ]

-- Objects that do not overlap.
abbrev pub Apart : ℕ → ℕ → ℕ → Type 0
Apart s t n = (t + n ≤ s) ⊎ (s + n ≤ t)

safe_copy_lem :
    (s t n : ℕ) (m : Bytes)
    → Apart s t (suc n)
    → string_at s (suc n) (safe_copy s t n m) ≡ string_at t n m
unfolding safe_copy
safe_copy_lem s t zero m h = rw (update_self m s 0) refl
safe_copy_lem s t (suc n) m h = elim (Bool-cases (m t == 0)) [
  | inl e ↦
      string_at-zero s (suc n) (safe_copy s t (suc n) m) (rw e (ground arith))
      ∙ sym (string_at-zero t n m (ground arith))
  | inr e ↦
      let m' = update m s (m t) in
      let first : safe_copy (s + 1) (t + 1) n m' s ≡ m t =
        safe_copy_out (s + 1) (t + 1) n m' s (omega arith) ∙ update_self m s (m t) in
      let rest : string_at (s + 1) (suc n) (safe_copy (s + 1) (t + 1) n m')
          ≡ string_at (t + 1) n m =
        safe_copy_lem (s + 1) (t + 1) n m' (ground arith)
        ∙ string_at-same (t + 1) n m m' (λ i lt. update_ne m s (t + 1 + i) (m t) (ground arith)) in
      rw (e, first, e, rest) refl
]

-- `safestrcpy` into `n + 1` bytes, from an object that does not overlap them: the string at `s` is
-- then the one at `t`, cut to `n` bytes, so it ends within the object, and nothing outside changes.
pub safestrcpy_lem :
    (s t n : ℕ) (m : Bytes) (j : ℕ)
    → Apart s t (suc n)
    → j < s ⊎ s + n < j
    → (string_at s (suc n) (safestrcpy s t (suc n) m) ≡ string_at t n m)
      × (safestrcpy s t (suc n) m j ≡ m j)
unfolding safestrcpy
safestrcpy_lem s t n m j h out = (safe_copy_lem s t n m h, safe_copy_out s t n m j out)

strlen_from_lem :
    (s i k fuel : ℕ) (m : Bytes)
    → m (s + i + k) ≡ 0
    → k < fuel
    → strlen_from s i fuel m ≡ some (i + length (string_at (s + i) (suc k) m))
unfolding strlen_from
strlen_from_lem s i k zero m h lt = absurd (omega arith)
strlen_from_lem s i zero (suc fuel) m h lt =
    let q : s + i + 0 ≡ s + i = omega arith in
    let e : (m (s + i) == 0) ≡ true = let z = rw q at h in ground arith in
    rw e (ap some (omega arith))
strlen_from_lem s i (suc k) (suc fuel) m h lt = elim (Bool-cases (m (s + i) == 0)) [
  | inl e ↦ rw e (ap some (omega arith))
  | inr e ↦
      let q : s + (i + 1) ≡ s + i + 1 = omega arith in
      let p : s + (i + 1) + k ≡ s + i + suc k = omega arith in
      let ih = strlen_from_lem s (i + 1) k fuel m (ap m p ∙ h) (omega arith) in
      rw (e, rw q at ih) (ap some (omega arith))
]

-- `strlen` ends, if a zero byte stands `k` bytes after `s`, and returns the length of the string.
pub strlen_lem :
    (s k fuel : ℕ) (m : Bytes)
    → m (s + k) ≡ 0
    → k < fuel
    → strlen_from s 0 fuel m ≡ some (length (string_at s (suc k) m))
strlen_lem s k fuel m h lt =
    let p : s + 0 + k ≡ s + k = omega arith in
    let q : s + 0 ≡ s = omega arith in
    rw q at (strlen_from_lem s 0 k fuel m (ap m p ∙ h) lt) ∙ ap some (omega arith)

abbrev pub bytes_at : ℕ → ℕ → Bytes → List ℕ
bytes_at s zero m = []
bytes_at s (suc n) m = m s ∷ bytes_at (s + 1) n m

-- `memcmp` is 0 exactly if the `n` bytes at both addresses are the same.
pub memcmp_iff :
    (s1 s2 n : ℕ) (m : Bytes) → (memcmp s1 s2 n m ≡ same) ↔ (bytes_at s1 n m ≡ bytes_at s2 n m)
unfolding memcmp
memcmp_iff s1 s2 zero m = (λ e. refl, λ e. refl)
memcmp_iff s1 s2 (suc n) m =
    let ih = memcmp_iff (s1 + 1) (s2 + 1) n m in
    elim (Bool-cases (m s1 == m s2)) [
      | inl e ↦ let q : m s1 ≡ m s2 = ground arith in rw e (λ h. ap₂ ◌∷◌ q (ih.0 h), λ h. ih.1 (cc))
      | inr e ↦ rw e (λ h. absurd (ground arith), λ h. absurd (ground arith))
    ]
