-- ===== src/File/Chunks.antt =====
-- kernel/fs/file.c: `fileread` and `filewrite` on an open file.
use tatak_os.Base.{
  ℕ, zero, suc, ◌+◌, ◌-◌, ◌%◌, ◌^◌, ◌≡◌, ◌≢◌, ◌≤◌, ◌<◌, ◌⊎◌, inl, inr, refl, Option, none, some,
  arith, ltb, ◌==◌, if◌then◌else◌, Bool-cases, Option-cases,
}
use tatak_os.File.{
  FileType, fd_none, fd_pipe, fd_inode, fd_device, File, Ftable, Lower, move, no_device, max_bytes,
  fileread, write_chunk, write_chunks, filewrite,
}
use tatak_os.File.Table.{IsTable, no_raw, IsTable-set}

-- A change of the offset.
pub move-IsTable :
    (need : ℕ → ℕ) (fs : ℕ → File) (f : ℕ) (r : Option ℕ)
    → f ≢ 0
    → 1 ≤ need f
    → IsTable need no_raw fs
    → IsTable need no_raw (move f r fs)
move-IsTable need fs f none here pos w = w
move-IsTable need fs f (some r) here pos w =
    IsTable-set need need no_raw no_raw fs f (record (fs f) { off = ((fs f).off + r) % 2 ^ 32 })
      (w.counted f here) (w.quiet f here) (w.typed f here) (λ x p. refl) (λ x p q. q) w

pub write_chunk-IsTable :
    {S : Type 0} (lower : Lower S) (need : ℕ → ℕ) (f addr n1 : ℕ) (t : Ftable S)
    → f ≢ 0
    → 1 ≤ need f
    → IsTable need no_raw t.files
    → IsTable need no_raw (write_chunk lower f addr n1 t).1.files
unfolding write_chunk
write_chunk-IsTable lower need f addr n1 t here pos w =
    move-IsTable need t.files f (write_chunk lower f addr n1 t).0 here pos w

-- The offset after a chunk that is written as a whole.
write_chunk-off :
    {S : Type 0} (lower : Lower S) (f addr n1 k : ℕ) (t : Ftable S)
    → (write_chunk lower f addr n1 t).0 ≡ some k
    → ((write_chunk lower f addr n1 t).1.files f).off ≡ ((t.files f).off + k) % 2 ^ 32
unfolding write_chunk
write_chunk-off lower f addr n1 k t e = rw (write_chunk, e) (ground arith)

-- How the loop of `filewrite` ends, from `i` on: at `j`.
pub record IsWritten {S : Type 0} (need : ℕ → ℕ) (f n i j : ℕ) (t t' : Ftable S) : Type 0 where
  pub table : IsTable need no_raw t'.files
  pub most : j ≤ n
  pub off : j ≡ n → (t'.files f).off % 2 ^ 32 ≡ ((t.files f).off + (n - i)) % 2 ^ 32

-- With enough fuel the loop of `filewrite` ends.
pub write_chunks-ends :
    {S : Type 0} (lower : Lower S) (need : ℕ → ℕ) (fuel f addr n i : ℕ) (t : Ftable S)
    → f ≢ 0
    → 1 ≤ need f
    → i ≤ n
    → n - i < fuel
    → IsTable need no_raw t.files
    → (j : ℕ) × (t' : Ftable S) × (write_chunks lower fuel f addr n i t ≡ some (j, t'))
      × IsWritten need f n i j t t'
unfolding write_chunks
write_chunks-ends lower need zero f addr n i t here pos le enough w = absurd (omega arith)
write_chunks-ends {S = S} lower need (suc fuel) f addr n i t here pos le enough w =
    elim (Bool-cases (ltb i n)) [
      | inr e ↦
          let done : i ≡ n = ground arith in
          (
            i,
            t,
            rw (write_chunks, e) refl,
            record { table = w; most = le; off = λ q. ground arith },
          )
      | inl e ↦
          let n1 : ℕ = if ltb max_bytes (n - i) then max_bytes else n - i in
          let size : (1 ≤ n1) × (n1 ≤ n - i) = (ground arith, ground arith) in
          let t1 : Ftable S = (write_chunk lower f ((addr + i) % 2 ^ 64) n1 t).1 in
          let w1 = write_chunk-IsTable lower need f ((addr + i) % 2 ^ 64) n1 t here pos w in
          let short : IsWritten need f n i i t t1 = record {
            table = w1;
            most = le;
            off = λ q. absurd (ground arith);
          } in
          elim (Option-cases (write_chunk lower f ((addr + i) % 2 ^ 64) n1 t).0) [
            | inl e1 ↦ (i, t1, rw (write_chunks, e, e1) refl, short)
            | inr (k, e1) ↦ elim (Bool-cases (k == n1)) [
              | inr e2 ↦ (i, t1, rw (write_chunks, e, e1, e2) refl, short)
              | inl e2 ↦
                  let all : k ≡ n1 = ground arith in
                  let moved = write_chunk-off lower f ((addr + i) % 2 ^ 64) n1 k t e1 in
                  let (j, t', q, r) =
                    write_chunks-ends lower need fuel f addr n (i + k) t1 here pos
                      (omega (arith, all, size)) (omega (arith, all, size, enough)) w1 in
                  (
                    j,
                    t',
                    rw (write_chunks, e, e1, e2) q,
                    record {
                      table = r.table;
                      most = r.most;
                      off = λ z. let o = r.off z in omega (arith, o, moved, all, size);
                    },
                  )
            ]
          ]
    ]

pub type-cases : (k : FileType) → (k ≡ fd_none) ⊎ (k ≡ fd_pipe) ⊎ (k ≡ fd_inode) ⊎ (k ≡ fd_device)
type-cases fd_none = inl refl
type-cases fd_pipe = inr (inl refl)
type-cases fd_inode = inr (inr (inl refl))
type-cases fd_device = inr (inr (inr refl))

-- How `filewrite` and `fileread` end.
unfoldable pub IsMoved : {S : Type 0} → (ℕ → ℕ) → Option (Option ℕ × Ftable S) → Type 0
IsMoved need none = ⊥
IsMoved need (some (r, t)) = IsTable need no_raw t.files

-- A file in use has a type.
in_use :
    (need : ℕ → ℕ) (fs : ℕ → File) (f : ℕ)
    → f ≢ 0
    → 1 ≤ need f
    → IsTable need no_raw fs
    → (fs f).type ≢ fd_none
in_use need fs f here pos w = w.typed f here refl (omega (arith, pos, w.counted f here))

pub filewrite-IsMoved :
    {S : Type 0} (lower : Lower S) (need : ℕ → ℕ) (f addr n : ℕ) (t : Ftable S)
    → f ≢ 0
    → 1 ≤ need f
    → IsTable need no_raw t.files
    → IsMoved need (filewrite lower f addr n t)
unfolding filewrite IsMoved
filewrite-IsMoved lower need f addr n t here pos w =
    let (j, t', e, r) =
      write_chunks-ends lower need (suc n) f addr n 0 t here pos (omega arith) (omega arith) w in
    elim (Bool-cases (t.files f).writable) [
      | inr q ↦ rw (filewrite, q) w
      | inl q ↦ elim (type-cases (t.files f).type) [
        | inl z ↦ absurd (in_use need t.files f here pos w z)
        | inr (inl z) ↦ rw (filewrite, q, z) w
        | inr (inr (inl z)) ↦ rw (filewrite, q, z, e) r.table
        | inr (inr (inr z)) ↦ elim (Bool-cases (no_device lower.has_write (t.files f).major)) [
          | inl d ↦ rw (filewrite, q, z, d) w
          | inr d ↦ rw (filewrite, q, z, d) w
        ]
      ]
    ]

pub fileread-IsMoved :
    {S : Type 0} (lower : Lower S) (need : ℕ → ℕ) (f addr n : ℕ) (t : Ftable S)
    → f ≢ 0
    → 1 ≤ need f
    → IsTable need no_raw t.files
    → IsMoved need (fileread lower f addr n t)
unfolding fileread IsMoved
fileread-IsMoved lower need f addr n t here pos w = elim (Bool-cases (t.files f).readable) [
  | inr q ↦ rw (fileread, q) w
  | inl q ↦ elim (type-cases (t.files f).type) [
    | inl z ↦ absurd (in_use need t.files f here pos w z)
    | inr (inl z) ↦ rw (fileread, q, z) w
    | inr (inr (inl z)) ↦
        let s1 = lower.ilock (t.files f).ip t.rest in
        let (r, s2) = lower.readi (t.files f).ip addr (t.files f).off n s1 in
        rw (fileread, q, z) (move-IsTable need t.files f r here pos w)
    | inr (inr (inr z)) ↦ elim (Bool-cases (no_device lower.has_read (t.files f).major)) [
      | inl d ↦ rw (fileread, q, z, d) w
      | inr d ↦ rw (fileread, q, z, d) w
    ]
  ]
]
