-- ===== src/File/Pipes.antt =====
-- kernel/fs/pipe.c: what `pipealloc` leaves in the table of files.
use tatak_os.Base.{
  ℕ, ◌≡◌, ◌≢◌, ◌≤◌, ◌⊎◌, inl, inr, refl, ◌∙◌, Bool, true, false, none, some, arith, ◌==◌,
  Bool-cases,
}
use tatak_os.Disk.{update}
use tatak_os.File.{File, Ftable, Lower, filealloc, fileclose, pipe_end, give_up, connect, pipealloc}
use tatak_os.File.Table.{
  IsTable, with_one, no_raw, or_raw, IsTable-need, IsTable-set, filealloc-cases, fileclose-IsTable,
}

-- One end of a new pipe gets its type.
pub pipe_end-IsTable :
    (need : ℕ → ℕ) (raw : ℕ → Bool) (fs : ℕ → File) (f pi : ℕ) (w : Bool)
    → f ≢ 0
    → 1 ≤ need f
    → IsTable need (or_raw f raw) fs
    → IsTable need raw (update fs f (pipe_end pi w (fs f)))
pipe_end-IsTable need raw fs f pi w here pos t =
    IsTable-set need need (or_raw f raw) raw fs f (pipe_end pi w (fs f)) (t.counted f here)
      (λ z. absurd (omega (arith, pos, z, t.counted f here))) (λ r z e. absurd cc) (λ x p. refl)
      (λ x p r. ground arith) t

give_up_step :
    {S : Type 0} (lower : Lower S) (t t1 t2 : Ftable S) (f0 f1 : ℕ)
    → (f0 == 0) ≡ false
    → (f1 == 0) ≡ false
    → fileclose lower f0 t ≡ some t1
    → fileclose lower f1 t1 ≡ some t2
    → give_up lower f0 f1 t ≡ some (none, t2)
unfolding give_up
give_up_step lower t t1 t2 f0 f1 g0 g1 e1 e2 = rw (give_up, g0, e1, g1, e2) refl

-- Without a page, `pipealloc` gives its files back.
give_up-IsTable :
    {S : Type 0} (lower : Lower S) (need : ℕ → ℕ) (t : Ftable S) (f0 f1 : ℕ)
    → f0 ≢ 0
    → f1 ≢ 0
    → need f0 ≡ 0
    → need f1 ≡ 0
    → f0 ≢ f1
    → IsTable (with_one f1 (with_one f0 need)) (or_raw f1 (or_raw f0 no_raw)) t.files
    → (t' : Ftable S) × (give_up lower f0 f1 t ≡ some (none, t')) × IsTable need no_raw t'.files
give_up-IsTable lower need t f0 f1 h0 h1 z0 z1 ne w =
    let w' =
      IsTable-need (with_one f1 (with_one f0 need)) (with_one f0 (with_one f1 need))
        (or_raw f1 (or_raw f0 no_raw)) (or_raw f1 (or_raw f0 no_raw)) t.files (λ f p. omega arith)
        (λ f p r. r) w in
    let (t1, e1, w1) =
      fileclose-IsTable lower (with_one f1 need) (or_raw f1 (or_raw f0 no_raw)) (or_raw f1 no_raw) t
        f0 h0
        (λ x r. elim (Bool-cases (x == f0)) [
          | inl e ↦ inr (ground arith, ground arith)
          | inr e ↦ inl (ground arith)
        ])
        w' in
    let (t2, e2, w2) =
      fileclose-IsTable lower need (or_raw f1 no_raw) no_raw t1 f1 h1
        (λ x r. elim (Bool-cases (x == f1)) [
          | inl e ↦ inr (ground arith, z1)
          | inr e ↦ inl (ground arith)
        ])
        w1 in
    let g0 : (f0 == 0) ≡ false = ground arith in
    let g1 : (f1 == 0) ≡ false = ground arith in
    (t2, give_up_step lower t t1 t2 f0 f1 g0 g1 e1 e2, w2)

pipealloc_step :
    {S : Type 0} (lower : Lower S) (t : Ftable S) (f0 f1 : ℕ) (fs0 fs1 : ℕ → File)
    → (f0 == 0) ≡ false
    → filealloc t.files ≡ (f0, fs0)
    → filealloc fs0 ≡ (f1, fs1)
    → pipealloc lower t ≡ connect lower f0 f1 (record t { files = fs1 })
unfolding pipealloc
pipealloc_step lower t f0 f1 fs0 fs1 g0 e0 e1 = rw (pipealloc, e0, g0, e1) refl

connect_short :
    {S : Type 0} (lower : Lower S) (t t1 : Ftable S) (f0 : ℕ)
    → (f0 == 0) ≡ false
    → fileclose lower f0 t ≡ some t1
    → connect lower f0 0 t ≡ some (none, t1)
unfolding connect give_up
connect_short lower t t1 f0 g0 e = rw (connect, give_up, g0, e) refl

-- With two files, and needing them for nothing else.
connect-cases :
    {S : Type 0} (lower : Lower S) (need : ℕ → ℕ) (t : Ftable S) (f0 f1 : ℕ)
    → f0 ≢ 0
    → f1 ≢ 0
    → need f0 ≡ 0
    → need f1 ≡ 0
    → f0 ≢ f1
    → IsTable (with_one f1 (with_one f0 need)) (or_raw f1 (or_raw f0 no_raw)) t.files
    → ((t' : Ftable S) × (connect lower f0 f1 t ≡ some (none, t')) × IsTable need no_raw t'.files)
      ⊎ ((t' : Ftable S) × (connect lower f0 f1 t ≡ some (some (f0, f1), t'))
          × IsTable (with_one f1 (with_one f0 need)) no_raw t'.files)
unfolding connect
connect-cases {S = S} lower need t f0 f1 h0 h1 z0 z1 ne w =
    let g0 : (f0 == 0) ≡ false = ground arith in
    let g1 : (f1 == 0) ≡ false = ground arith in
    elim (Bool-cases ((lower.kalloc t.rest).0 == 0)) [
      | inl e ↦
          let t1 : Ftable S = record t { rest = (lower.kalloc t.rest).1 } in
          let (t', q, w') = give_up-IsTable lower need t1 f0 f1 h0 h1 z0 z1 ne w in
          inl (t', rw (connect, g0, g1, e) q, w')
      | inr e ↦
          let n2 : ℕ → ℕ = with_one f1 (with_one f0 need) in
          let pi : ℕ = (lower.kalloc t.rest).0 in
          let raw' : (ℕ → Bool) = or_raw f0 (or_raw f1 no_raw) in
          let w0 : IsTable n2 raw' t.files =
            IsTable-need n2 n2 (or_raw f1 (or_raw f0 no_raw)) raw' t.files (λ f p. refl)
              (λ f p r. ground arith) w in
          let w1 =
            pipe_end-IsTable n2 (or_raw f1 no_raw) t.files f0 pi false h0 (ground arith) w0 in
          let fs : (ℕ → File) = update t.files f0 (pipe_end pi false (t.files f0)) in
          let w2 = pipe_end-IsTable n2 no_raw fs f1 pi true h1 (ground arith) w1 in
          inr (
            record {
              files = update fs f1 (pipe_end pi true (fs f1));
              rest = lower.pipe_init pi (lower.kalloc t.rest).1;
            },
            rw (connect, g0, g1, e) refl,
            w2,
          )
    ]

connect-none : {S : Type 0} (lower : Lower S) (t : Ftable S) → connect lower 0 0 t ≡ some (none, t)
unfolding connect give_up
connect-none lower t = refl

pipealloc_none :
    {S : Type 0} (lower : Lower S) (t : Ftable S)
    → filealloc t.files ≡ (0, t.files)
    → pipealloc lower t ≡ connect lower 0 0 t
unfolding pipealloc
pipealloc_none lower t e = rw (pipealloc, e) refl

-- `pipealloc` fails and keeps all counts, or takes two free files.
pub pipealloc-cases :
    {S : Type 0} (lower : Lower S) (need : ℕ → ℕ) (t : Ftable S)
    → IsTable need no_raw t.files
    → ((t' : Ftable S) × (pipealloc lower t ≡ some (none, t')) × IsTable need no_raw t'.files)
      ⊎ ((f0 f1 : ℕ) × (t' : Ftable S) × (pipealloc lower t ≡ some (some (f0, f1), t'))
          × (f0 ≢ 0)
          × (f1 ≢ 0)
          × IsTable (with_one f1 (with_one f0 need)) no_raw t'.files)
pipealloc-cases lower need t w = elim (filealloc-cases need no_raw t.files w) [
  | inl e ↦ inl (t, pipealloc_none lower t e ∙ connect-none lower t, w)
  | inr (f0, fs0, e0, h0, z0, w0) ↦
      let g0 : (f0 == 0) ≡ false = ground arith in
      elim (filealloc-cases (with_one f0 need) (or_raw f0 no_raw) fs0 w0) [
        | inl e ↦
            let (t1, e1, w1) =
              fileclose-IsTable lower need (or_raw f0 no_raw) no_raw (record t { files = fs0 }) f0
                h0
                (λ x r. elim (Bool-cases (x == f0)) [
                  | inl i ↦ inr (ground arith, z0)
                  | inr i ↦ inl (ground arith)
                ])
                w0 in
            inl (
              t1,
              pipealloc_step lower t f0 0 fs0 fs0 g0 e0 e
                  ∙ connect_short lower (record t { files = fs0 }) t1 f0 g0 e1,
              w1,
            )
        | inr (f1, fs1, e1, h1, z1, w1) ↦
            let ne : f0 ≢ f1 = λ i. absurd (ground arith) in
            let step = pipealloc_step lower t f0 f1 fs0 fs1 g0 e0 e1 in
            elim (connect-cases lower need (record t { files = fs1 }) f0 f1 h0 h1 z0 (ground arith)
              ne w1) [
                | inl (t', q, w') ↦ inl (t', step ∙ q, w')
                | inr (t', q, w') ↦ inr (f0, f1, t', step ∙ q, h0, h1, w')
              ]
      ]
]
