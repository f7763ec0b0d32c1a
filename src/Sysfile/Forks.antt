-- ===== src/Sysfile/Forks.antt =====
-- kernel/proc.c on the table of files: what the loops of `fork` and `exit` over `ofile` do to it.
use tatak_os.Base.{
  ℕ, zero, suc, ◌+◌, ◌≡◌, ◌≢◌, ◌≤◌, ◌<◌, inl, inr, refl, ap, ◌∙◌, false, not, ◌&&◌, Option, none,
  some, arith, ltb, leb, ◌==◌, if◌then◌else◌, Bool-cases,
}
use tatak_os.Buffers.Counts.{one_if}
use tatak_os.File.{Ftable, Lower, filedup, fileclose}
use tatak_os.File.Counts.{count, count-agree}
use tatak_os.File.Table.{
  IsTable, with_one, no_raw, IsTable-need, filedup-IsTable, fileclose-IsTable,
}
use tatak_os.Proc.{Services}
use tatak_os.Proc.Calls.{copy_files, close_files}

-- The files in use, `none` after a panic.
abbrev pub Panics : Type 0 → Type 0
Panics S = Option (Ftable S)

-- The kernel below the table of files, with the state of the table beside its own.
module _ {S : Type 0} where
  abbrev pub on_rest : (S → S) → Panics S → Panics S
  on_rest f none = none
  on_rest f (some t) = some (record t { rest = f t.rest })

  abbrev pub with_rest : {A : Type 0} → A → (S → A × S) → Panics S → A × Panics S
  with_rest a f none = (a, none)
  with_rest a f (some t) = let (b, s) = f t.rest in (b, some (record t { rest = s }))

  abbrev pub dup_file : ℕ → Panics S → Panics S
  dup_file f none = none
  dup_file f (some t) = elim (filedup f t.files) [
    | none ↦ none
    | some fs ↦ some (record t { files = fs })
  ]

module _ {S : Type 0} (lower : Lower S) (base : Services S) where
  open base use {
    kalloc, kfree, proc_pagetable, proc_freepagetable, uvmcopy, copy_registers, idup, iput, copyout,
  }

  abbrev pub close_file : ℕ → Panics S → Panics S
  close_file f none = none
  close_file f (some t) = fileclose lower f t

  -- What proc.c calls, with the functions of file.c.
  abbrev pub services : Services (Panics S)
  services = record {
    kalloc = with_rest 0 kalloc;
    kfree = λ pa. on_rest (kfree pa);
    proc_pagetable = λ page. with_rest 0 (proc_pagetable page);
    proc_freepagetable = λ table size. on_rest (proc_freepagetable table size);
    uvmcopy = λ old new size. with_rest false (uvmcopy old new size);
    copy_registers = λ from to. on_rest (copy_registers from to);
    filedup = dup_file;
    fileclose = close_file;
    idup = λ ip. on_rest (idup ip);
    iput = λ ip. on_rest (iput ip);
    copyout = λ table addr v. with_rest false (copyout table addr v);
  }

  pub copy_files_row :
      (from : ℕ → ℕ) (fd n : ℕ) (to : ℕ → ℕ) (s : Panics S) (j : ℕ)
      → (copy_files services from fd n to s).0 j
        ≡ (if leb fd j && ltb j (fd + n) && not (from j == 0) then from j else to j)
  unfolding copy_files
  copy_files_row from fd zero to s j = ground arith
  copy_files_row from fd (suc n) to s j =
      let f : ℕ = from fd in
      copy_files_row from (fd + 1) n (if f == 0 then to else λ i. if fd == i then f else to i)
        (if f == 0 then s else dup_file f s) j
      ∙ (elim (Bool-cases (fd == j)) [
        | inl q ↦ let same : j ≡ fd = ground arith in rw same (ground arith)
        | inr q ↦ ground arith
      ])

  pub copy_files-IsTable :
      (from : ℕ → ℕ) (fd n : ℕ) (to need : ℕ → ℕ) (t : Ftable S)
      → ((j : ℕ) → fd ≤ j → j < fd + n → from j ≢ 0 → 1 ≤ need (from j))
      → IsTable need no_raw t.files
      → (t' : Ftable S) × ((copy_files services from fd n to (some t)).1 ≡ some t')
        × IsTable (λ x. need x + count x from fd n) no_raw t'.files
  unfolding copy_files count
  copy_files-IsTable from fd zero to need t used w = (
    t,
    refl,
    IsTable-need need (λ x. need x + 0) no_raw no_raw t.files (λ x p. omega arith) (λ x p r. r) w,
  )
  copy_files-IsTable from fd (suc n) to need t used w = elim (Bool-cases (from fd == 0)) [
    | inl z ↦
        let (t', e, w') =
          copy_files-IsTable from (fd + 1) n to need t
            (λ j lo hi. used j (omega (arith, lo)) (omega (arith, hi))) w in
        (
          t',
          rw (copy_files, z) e,
          IsTable-need (λ x. need x + count x from (fd + 1) n)
              (λ x. need x + (one_if x (from fd) + count x from (fd + 1) n)) no_raw no_raw t'.files
              (λ x p. ground arith) (λ x p r. r) w',
        )
    | inr z ↦
        let f : ℕ = from fd in
        let here : from fd ≢ 0 = ground arith in
        let (fs, q, w1) =
          filedup-IsTable need no_raw t.files f here (used fd (omega arith) (omega arith) here) w in
        let copied : dup_file f (some t) ≡ some (record t { files = fs }) = rw (dup_file, q) refl in
        let to' : (ℕ → ℕ) = λ i. if fd == i then f else to i in
        let (t', e, w') =
          copy_files-IsTable from (fd + 1) n to' (with_one f need) (record t { files = fs })
            (λ j lo hi p.
              let u = used j (omega (arith, lo)) (omega (arith, hi)) p in omega (arith, u))
            w1 in
        (
          t',
          rw (copy_files, z) (ap (λ s. (copy_files services from (fd + 1) n to' s).1) copied ∙ e),
          IsTable-need (λ x. with_one f need x + count x from (fd + 1) n)
              (λ x. need x + (one_if x (from fd) + count x from (fd + 1) n)) no_raw no_raw t'.files
              (λ x p. omega arith) (λ x p r. r) w',
        )
  ]

  pub close_files_row :
      (fd n : ℕ) (g : ℕ → ℕ) (s : Panics S) (j : ℕ)
      → (close_files services fd n g s).0 j ≡ (if leb fd j && ltb j (fd + n) then 0 else g j)
  unfolding close_files
  close_files_row fd zero g s j = ground arith
  close_files_row fd (suc n) g s j =
      let f : ℕ = g fd in
      close_files_row (fd + 1) n (if f == 0 then g else λ i. if fd == i then 0 else g i)
        (if f == 0 then s else close_file f s) j
      ∙ (elim (Bool-cases (fd == j)) [
        | inl q ↦ let same : j ≡ fd = ground arith in rw same (ground arith)
        | inr q ↦ ground arith
      ])

  pub close_files-IsTable :
      (fd n : ℕ) (g need : ℕ → ℕ) (t : Ftable S)
      → IsTable (λ x. need x + count x g fd n) no_raw t.files
      → (t' : Ftable S) × ((close_files services fd n g (some t)).1 ≡ some t')
        × IsTable need no_raw t'.files
  unfolding close_files count
  close_files-IsTable fd zero g need t w = (
    t,
    refl,
    IsTable-need (λ x. need x + 0) need no_raw no_raw t.files (λ x p. omega arith) (λ x p r. r) w,
  )
  close_files-IsTable fd (suc n) g need t w =
      let rest : (ℕ → ℕ) = λ x. count x g (fd + 1) n in
      elim (Bool-cases (g fd == 0)) [
        | inl z ↦
            let (t', e, w') = close_files-IsTable (fd + 1) n g need t (
              IsTable-need (λ x. need x + (one_if x (g fd) + rest x)) (λ x. need x + rest x) no_raw
                no_raw t.files (λ x p. ground arith) (λ x p r. r) w) in
            (t', rw (close_files, z) e, w')
        | inr z ↦
            let f : ℕ = g fd in
            let here : g fd ≢ 0 = ground arith in
            let w0 =
              IsTable-need (λ x. need x + (one_if x (g fd) + rest x))
                (with_one f (λ x. need x + rest x)) no_raw no_raw t.files (λ x p. omega arith)
                (λ x p r. r) w in
            let (t1, q, w1) =
              fileclose-IsTable lower (λ x. need x + rest x) no_raw no_raw t f here (λ x r. inl r)
                w0 in
            let g' : (ℕ → ℕ) = λ i. if fd == i then 0 else g i in
            let same : (x : ℕ) → count x g (fd + 1) n ≡ count x g' (fd + 1) n =
              λ x. count-agree x g g' (fd + 1) n λ j lo hi. ground arith in
            let (t', e, w') = close_files-IsTable (fd + 1) n g' need t1 (
              IsTable-need (λ x. need x + rest x) (λ x. need x + count x g' (fd + 1) n) no_raw
                no_raw t1.files (λ x p. ap (λ c. need x + c) (same x)) (λ x p r. r) w1) in
            (t', rw (close_files, z) (ap (λ s. (close_files services (fd + 1) n g' s).1) q ∙ e), w')
      ]
