-- ===== src/Cstring/Copying.antt =====
-- kernel/lib/string.c: what the copying functions leave in memory.
use tatak_os.Base.{
  ℕ, zero, suc, ◌+◌, ◌-◌, ◌%◌, ◌≡◌, ◌≤◌, ◌<◌, ◌⊎◌, inl, inr, ◌∙◌, ◌&&◌, arith, ltb, leb, ◌==◌,
  if◌then◌else◌, Bool-cases,
}
use tatak_os.Disk.{update, update_ne, update-cases}
use tatak_os.Cstring.{memset, memcpy, Bytes, memset_from, copy_down, copy_up, memmove}

-- The `n` bytes at `d` are those at `s` of `m`, and the others are those of `m`.
abbrev pub moved : ℕ → ℕ → ℕ → Bytes → Bytes
moved d s n m j = if leb d j && ltb j (d + n) then m (s + (j - d)) else m j

copy_down_lem : (d s n : ℕ) (m : Bytes) (j : ℕ) → s < d → copy_down d s n m j ≡ moved d s n m j
unfolding copy_down
copy_down_lem d s zero m j lt = ground arith
copy_down_lem d s (suc n) m j lt =
    let m' = update m (d + n) (m (s + n)) in
    copy_down_lem d s n m' j lt ∙ (elim (Bool-cases (leb d j && ltb j (d + n))) [
      | inl e ↦ rw (e, update_ne m (d + n) (s + (j - d)) (m (s + n)) (ground arith)) (ground arith)
      | inr e ↦ rw e (elim (update-cases m (d + n) (m (s + n)) j) [
        | inl (y, u) ↦ let q : s + (j - d) ≡ s + n = omega arith in rw (u, q) (ground arith)
        | inr (y, u) ↦ rw u (ground arith)
      ])
    ])

copy_up_lem :
    (d s n : ℕ) (m : Bytes) (j : ℕ) → d ≤ s ⊎ s + n ≤ d → copy_up d s n m j ≡ moved d s n m j
unfolding copy_up
copy_up_lem d s zero m j h = ground arith
copy_up_lem d s (suc n) m j h =
    let m' = update m d (m s) in
    copy_up_lem (d + 1) (s + 1) n m' j (ground arith) ∙ (elim (update-cases m d (m s) j) [
      | inl (y, u) ↦ let q : s + (j - d) ≡ s = omega arith in rw (u, q) (ground arith)
      | inr (y, u) ↦ elim (Bool-cases (leb (d + 1) j && ltb j (d + 1 + n))) [
        | inl e ↦
            let q : s + 1 + (j - (d + 1)) ≡ s + (j - d) = ground arith in
            rw (e, q, update_ne m d (s + (j - d)) (m s) (ground arith)) (ground arith)
        | inr e ↦ rw (e, u) (ground arith)
      ]
    ])

-- `memmove` copies the `n` bytes at `s` to `d`, also where the two overlap in either direction, and
-- changes nothing else.
pub memmove_lem : (d s n : ℕ) (m : Bytes) (j : ℕ) → memmove d s n m j ≡ moved d s n m j
unfolding memmove
memmove_lem d s n m j = elim (Bool-cases (n == 0)) [
  | inl e ↦ rw e (ground arith)
  | inr e ↦ elim (Bool-cases (ltb s d && ltb d (s + n))) [
    | inl f ↦ rw (e, f) (copy_down_lem d s n m j (ground arith))
    | inr f ↦ rw (e, f) (copy_up_lem d s n m j (ground arith))
  ]
]

pub memset_from_lem :
    (dst c i k : ℕ) (m : Bytes) (j : ℕ)
    → memset_from dst c i k m j ≡ (if leb (dst + i) j && ltb j (dst + i + k) then c % 256 else m j)
unfolding memset_from
memset_from_lem dst c i zero m j = ground arith
memset_from_lem dst c i (suc k) m j =
    memset_from_lem dst c (i + 1) k (update m (dst + i) (c % 256)) j ∙ ground arith

-- `memset` fills the `n` bytes at `dst` with the low byte of `c`, and changes nothing else.
pub memset_lem :
    (dst c n : ℕ) (m : Bytes) (j : ℕ)
    → memset dst c n m j ≡ (if leb dst j && ltb j (dst + n) then c % 256 else m j)
unfolding memset
memset_lem dst c n m j = memset_from_lem dst c 0 n m j ∙ ground arith

pub memcpy_lem : (d s n : ℕ) (m : Bytes) (j : ℕ) → memcpy d s n m j ≡ moved d s n m j
unfolding memcpy
memcpy_lem d s n m j = memmove_lem d s n m j
