-- ===== src/Sysfile/Safe.antt =====
-- kernel/sysfile.c: each call on descriptors keeps the counts of the table of files.
use tatak_os.Base.{
  ℕ, ◌+◌, ◌≡◌, ◌≢◌, ◌≤◌, ◌<◌, inl, inr, sym, ap, ◌∙◌, false, some, arith, ◌==◌, Bool-cases,
  Option-cases,
}
use tatak_os.Disk.{update}
use tatak_os.File.{File, Ftable, Lower, fileclose, fileread, filewrite}
use tatak_os.File.Chunks.{IsMoved, fileread-IsMoved, filewrite-IsMoved}
use tatak_os.File.Counts.{count-agree}
use tatak_os.File.Stat.{filestat-files}
use tatak_os.File.Table.{
  IsTable, with_one, no_raw, IsTable-need, filedup-IsTable, fileclose-IsTable,
}
use tatak_os.Proc.{nofile}
use tatak_os.Sysfile.{Names, argfd, sys_dup, sys_close, sys_read, sys_write, sys_fstat, close_both}
use tatak_os.Sysfile.Needs.{
  needs, IsSafe, needs-present, needs-add, needs-drop, fdalloc-cases, argfd-cases,
}

module _ {S : Type 0} (lower : Lower S) (names : Names S) (others : ℕ → ℕ) where
  pub sys_dup-IsSafe :
      (fd : ℕ) (g : ℕ → ℕ) (t : Ftable S)
      → IsTable (needs others g) no_raw t.files
      → IsSafe others (sys_dup lower names fd g t)
  unfolding sys_dup IsSafe
  sys_dup-IsSafe fd g t w = elim (argfd-cases fd g) [
    | inl e ↦ rw (sys_dup, e) w
    | inr (lt, e, here) ↦
        let f : ℕ = argfd fd g in
        let h : argfd fd g ≢ 0 = λ z. here (sym e ∙ z) in
        let g0 : (argfd fd g == 0) ≡ false = ground arith in
        let pos : 1 ≤ needs others g (argfd fd g) = rw e (needs-present others g fd lt) in
        elim (fdalloc-cases (argfd fd g) g) [
          | inl q ↦ rw (sys_dup, q, g0, q) w
          | inr (d, q, lt', z) ↦
              let (fs, q', w') = filedup-IsTable (needs others g) no_raw t.files f h pos w in
              rw (sys_dup, q, g0, q', q)
                (IsTable-need (with_one f (needs others g)) (needs others (update g d f)) no_raw
                  no_raw fs (λ x p. needs-add others g d f x lt' z p) (λ x p r. r) w')
        ]
  ]

  -- A descriptor is given up.
  drop-IsTable :
      (fd : ℕ) (g : ℕ → ℕ) (t : Ftable S)
      → fd < nofile
      → g fd ≢ 0
      → IsTable (needs others g) no_raw t.files
      → (t' : Ftable S) × (fileclose lower (g fd) t ≡ some t')
        × IsTable (needs others (update g fd 0)) no_raw t'.files
  drop-IsTable fd g t lt here w =
      fileclose-IsTable lower (needs others (update g fd 0)) no_raw no_raw t (g fd) here
        (λ x r. inl r)
        (IsTable-need (needs others g) (with_one (g fd) (needs others (update g fd 0))) no_raw
          no_raw t.files (λ x p. needs-drop others g fd x lt p) (λ x p r. r) w)

  pub sys_close-IsSafe :
      (fd : ℕ) (g : ℕ → ℕ) (t : Ftable S)
      → IsTable (needs others g) no_raw t.files
      → IsSafe others (sys_close lower names fd g t)
  unfolding sys_close IsSafe
  sys_close-IsSafe fd g t w = elim (argfd-cases fd g) [
    | inl e ↦ rw (sys_close, e) w
    | inr (lt, e, here) ↦
        let g0 : (g fd == 0) ≡ false = ground arith in
        let (t', q, w') = drop-IsTable fd g t lt here w in rw (sys_close, e, g0, q) w'
  ]

  pub sys_read-IsSafe :
      (fd p n : ℕ) (g : ℕ → ℕ) (t : Ftable S)
      → IsTable (needs others g) no_raw t.files
      → IsSafe others (sys_read lower names fd p n g t)
  unfolding sys_read IsSafe IsMoved
  sys_read-IsSafe fd p n g t w = elim (argfd-cases fd g) [
    | inl e ↦ rw (sys_read, e) w
    | inr (lt, e, here) ↦
        let g0 : (g fd == 0) ≡ false = ground arith in
        let m =
          fileread-IsMoved lower (needs others g) (g fd) p n t here (needs-present others g fd lt)
            w in
        elim (Option-cases (fileread lower (g fd) p n t)) [
          | inl q ↦ absurd (rw q at m)
          | inr ((r, t'), q) ↦ rw (sys_read, e, g0, q) (rw q at m)
        ]
  ]

  pub sys_write-IsSafe :
      (fd p n : ℕ) (g : ℕ → ℕ) (t : Ftable S)
      → IsTable (needs others g) no_raw t.files
      → IsSafe others (sys_write lower names fd p n g t)
  unfolding sys_write IsSafe IsMoved
  sys_write-IsSafe fd p n g t w = elim (argfd-cases fd g) [
    | inl e ↦ rw (sys_write, e) w
    | inr (lt, e, here) ↦
        let g0 : (g fd == 0) ≡ false = ground arith in
        let m =
          filewrite-IsMoved lower (needs others g) (g fd) p n t here (needs-present others g fd lt)
            w in
        elim (Option-cases (filewrite lower (g fd) p n t)) [
          | inl q ↦ absurd (rw q at m)
          | inr ((r, t'), q) ↦ rw (sys_write, e, g0, q) (rw q at m)
        ]
  ]

  pub sys_fstat-IsSafe :
      (fd st : ℕ) (g : ℕ → ℕ) (t : Ftable S)
      → IsTable (needs others g) no_raw t.files
      → IsSafe others (sys_fstat lower names fd st g t)
  unfolding sys_fstat IsSafe
  sys_fstat-IsSafe fd st g t w =
      let same = filestat-files lower (argfd fd g) st t in
      elim (Bool-cases (argfd fd g == 0)) [
        | inl e ↦ rw (sys_fstat, e) w
        | inr e ↦ rw (sys_fstat, e, same) w
      ]

  -- Two files that no descriptor names are given up.
  pub close_both-IsSafe :
      (rf wf : ℕ) (g : ℕ → ℕ) (t : Ftable S)
      → rf ≢ 0
      → wf ≢ 0
      → IsTable (with_one wf (with_one rf (needs others g))) no_raw t.files
      → IsSafe others (close_both lower names rf wf g t)
  unfolding close_both IsSafe
  close_both-IsSafe rf wf g t h0 h1 w =
      let w0 : IsTable (with_one rf (with_one wf (needs others g))) no_raw t.files =
        IsTable-need (with_one wf (with_one rf (needs others g)))
          (with_one rf (with_one wf (needs others g))) no_raw no_raw t.files (λ x p. omega arith)
          (λ x p r. r) w in
      let (t1, e1, w1) =
        fileclose-IsTable lower (with_one wf (needs others g)) no_raw no_raw t rf h0 (λ x r. inl r)
          w0 in
      let (t2, e2, w2) =
        fileclose-IsTable lower (needs others g) no_raw no_raw t1 wf h1 (λ x r. inl r) w1 in
      rw (close_both, e1, e2) w2

  -- The references that a process needs when its descriptors are the same.
  pub needs-agree :
      (g g' : ℕ → ℕ) (fs : ℕ → File)
      → ((j : ℕ) → j < nofile → g j ≡ g' j)
      → IsTable (needs others g) no_raw fs
      → IsTable (needs others g') no_raw fs
  needs-agree g g' fs e w =
      IsTable-need (needs others g) (needs others g') no_raw no_raw fs
        (λ x p. ap (λ c. others x + c) (count-agree x g g' 0 nofile λ j lo hi. e j hi)) (λ x p r. r)
        w
