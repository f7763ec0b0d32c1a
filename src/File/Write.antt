-- ===== src/File/Write.antt =====
-- kernel/fs/file.c: what `filewrite` does to a file of the file system.
use tatak_os.Base.{
  ℕ, zero, suc, ◌+◌, ◌-◌, ◌%◌, ◌^◌, ◌≡◌, ◌≢◌, ◌≤◌, ◌⊎◌, inl, inr, refl, ap, true, Option, none,
  some, some-injective, arith, ltb, ◌==◌, if◌then◌else◌, Bool-cases, Option-cases,
}
use tatak_os.File.{fd_inode, Ftable, Lower, max_bytes, write_chunk, write_chunks, filewrite}
use tatak_os.File.Chunks.{write_chunks-ends}
use tatak_os.File.Table.{IsTable, no_raw}

-- In a table whose counts are right, `filewrite` on a writable file of the file system ends, with
-- the whole count or with -1; with the count, the offset has moved by as much (as a `uint`).
pub filewrite_lem :
    {S : Type 0} (lower : Lower S) (need : ℕ → ℕ) (f addr n : ℕ) (t : Ftable S)
    → f ≢ 0
    → 1 ≤ need f
    → IsTable need no_raw t.files
    → (t.files f).writable ≡ true
    → (t.files f).type ≡ fd_inode
    → (r : Option ℕ) × (t' : Ftable S) × (filewrite lower f addr n t ≡ some (r, t'))
      × ((r ≡ none) ⊎ ((r ≡ some n) × ((t'.files f).off % 2 ^ 32 ≡ ((t.files f).off + n) % 2 ^ 32)))
unfolding filewrite
filewrite_lem lower need f addr n t here pos w q z =
    let (j, t', e, r) =
      write_chunks-ends lower need (suc n) f addr n 0 t here pos (omega arith) (omega arith) w in
    elim (Bool-cases (j == n)) [
      | inl d ↦ (
        some n,
        t',
        rw (filewrite, q, z, e, d) refl,
        inr (refl, let o = r.off (ground arith) in omega (arith, o)),
      )
      | inr d ↦ (none, t', rw (filewrite, q, z, e, d) refl, inl refl)
    ]

-- One transaction of `filewrite`, on what lies below the table.
abbrev pub transaction : {S : Type 0} → Lower S → ℕ → ℕ → ℕ → ℕ → S → S
transaction lower ip addr off n s =
    lower.end_op
      (lower.iunlock ip (lower.writei ip addr off n (lower.ilock ip (lower.begin_op s))).1)

module _ {S : Type 0} (lower : Lower S) (P : S → Type 0)
    (kept : (ip addr off n : ℕ) (s : S)
      → 1 ≤ n
      → n ≤ max_bytes
      → P s
      → P (transaction lower ip addr off n s)) where
  chunks_fit :
      (fuel f addr n i j : ℕ) (t t' : Ftable S)
      → write_chunks lower fuel f addr n i t ≡ some (j, t')
      → P t.rest
      → P t'.rest
  unfolding write_chunks write_chunk
  chunks_fit zero f addr n i j t t' e h = absurd cc
  chunks_fit (suc fuel) f addr n i j t t' e h =
      let n1 : ℕ = if ltb max_bytes (n - i) then max_bytes else n - i in
      let a : ℕ = (addr + i) % 2 ^ 64 in
      let t1 : Ftable S = (write_chunk lower f a n1 t).1 in
      let off : ℕ = (t.files f).off in
      elim (Bool-cases (ltb i n)) [
        | inr q ↦
            let same : t ≡ t' = ap (λ x. x.1) (some-injective _ _ (rw (write_chunks, q) at e)) in
            rw (← same) h
        | inl q ↦
            let size : (1 ≤ n1) × (n1 ≤ max_bytes) = (ground arith, ground arith) in
            let h1 : P t1.rest = kept (t.files f).ip a off n1 t.rest size.0 size.1 h in
            elim (Option-cases (write_chunk lower f a n1 t).0) [
              | inl z ↦
                  let same : t1 ≡ t' =
                    ap (λ x. x.1) (some-injective _ _ (rw (write_chunks, q, z) at e)) in
                  rw (← same) h1
              | inr (k, z) ↦ elim (Bool-cases (k == n1)) [
                | inr d ↦
                    let same : t1 ≡ t' =
                      ap (λ x. x.1) (some-injective _ _ (rw (write_chunks, q, z, d) at e)) in
                    rw (← same) h1
                | inl d ↦
                    chunks_fit fuel f addr n (i + k) j t1 t' (rw (write_chunks, q, z, d) at e) h1
              ]
            ]
      ]

  -- A property of what lies below the table of files, which every transaction that writes some
  -- bytes, but not more than the bound of `filewrite`, keeps, is kept by `filewrite` with any count.
  transactions_bounded :
      (f addr n : ℕ) (r : Option ℕ) (t t' : Ftable S)
      → (t.files f).type ≡ fd_inode
      → filewrite lower f addr n t ≡ some (r, t')
      → P t.rest
      → P t'.rest
  unfolding filewrite
  transactions_bounded f addr n r t t' z e h = elim (Bool-cases (t.files f).writable) [
    | inr q ↦
        let same : t ≡ t' = ap (λ x. x.1) (some-injective _ _ (rw (filewrite, q) at e)) in
        rw (← same) h
    | inl q ↦ elim (Option-cases (write_chunks lower (suc n) f addr n 0 t)) [
      | inl w ↦ absurd (let e' = rw (filewrite, q, z, w) at e in cc)
      | inr ((j, t1), w) ↦
          let same : t1 ≡ t' = ap (λ x. x.1) (some-injective _ _ (rw (filewrite, q, z, w) at e)) in
          rw (← same) (chunks_fit (suc n) f addr n 0 j t t1 w h)
    ]
  ]
