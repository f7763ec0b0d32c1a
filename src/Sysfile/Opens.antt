-- ===== src/Sysfile/Opens.antt =====
-- kernel/sysfile.c: `sys_pipe` and `sys_open` keep the counts of the table of files.
use tatak_os.Base.{
  ℕ, ◌+◌, ◌^◌, ◌≡◌, ◌≢◌, ◌≤◌, ◌<◌, inl, inr, refl, ap, ◌∙◌, false, ◌&&◌, ◌||◌, Option, none, some,
  List, arith, leb, ◌==◌, Bool-cases,
}
use tatak_os.Buffers.Counts.{one_if}
use tatak_os.Disk.{update}
use tatak_os.File.{ndev, fd_none, File, Ftable, Lower}
use tatak_os.File.Counts.{count-agree}
use tatak_os.File.Pipes.{pipealloc-cases}
use tatak_os.File.Table.{
  IsTable, with_one, no_raw, or_raw, IsTable-need, IsTable-set, filealloc-cases, fileclose-IsTable,
}
use tatak_os.Proc.{nofile}
use tatak_os.Sysfile.{
  Names, close_both, copy_fds, pipe_fds, sys_pipe, t_device, open_inode, opened, finish_open,
  sys_open,
}
use tatak_os.Sysfile.Needs.{needs, IsSafe, needs-add, fdalloc-cases}
use tatak_os.Sysfile.Safe.{close_both-IsSafe}

module _ {S : Type 0} (lower : Lower S) (names : Names S) (others : ℕ → ℕ) where
  -- Two descriptors are given back as they were.
  restored :
      (g : ℕ → ℕ) (fd0 fd1 rf wf j : ℕ)
      → g fd0 ≡ 0
      → update g fd0 rf fd1 ≡ 0
      → g j ≡ update (update (update (update g fd0 rf) fd1 wf) fd0 0) fd1 0 j
  restored g fd0 fd1 rf wf j z0 z1 = ground arith

  close_restored :
      (rf wf : ℕ) (g g' : ℕ → ℕ) (t : Ftable S)
      → rf ≢ 0
      → wf ≢ 0
      → ((j : ℕ) → j < nofile → g j ≡ g' j)
      → IsTable (with_one wf (with_one rf (needs others g))) no_raw t.files
      → IsSafe others (close_both lower names rf wf g' t)
  close_restored rf wf g g' t h0 h1 e w = close_both-IsSafe lower names others rf wf g' t h0 h1 (
      IsTable-need (with_one wf (with_one rf (needs others g)))
        (with_one wf (with_one rf (needs others g'))) no_raw no_raw t.files
        (λ x p.
          ap (λ c. others x + c + one_if x rf + one_if x wf)
            (count-agree x g g' 0 nofile λ j lo hi. e j hi))
        (λ x p r. r) w)

  pipe_fds-IsSafe :
      (fdarray rf wf : ℕ) (g : ℕ → ℕ) (t : Ftable S)
      → rf ≢ 0
      → wf ≢ 0
      → IsTable (with_one wf (with_one rf (needs others g))) no_raw t.files
      → IsSafe others (pipe_fds lower names fdarray rf wf g t)
  unfolding pipe_fds IsSafe
  pipe_fds-IsSafe fdarray rf wf g t h0 h1 w = elim (fdalloc-cases rf g) [
    | inl q0 ↦ rw (pipe_fds, q0) (close_restored rf wf g g t h0 h1 (λ j lt. refl) w)
    | inr (fd0, q0, lt0, z0) ↦ elim (fdalloc-cases wf (update g fd0 rf)) [
      | inl q1 ↦
          rw (pipe_fds, q0, q0, q1, q0)
            (close_restored rf wf g (update (update g fd0 rf) fd0 0) t h0 h1 (λ j lt. ground arith)
              w)
      | inr (fd1, q1, lt1, z1) ↦
          let g2 : (ℕ → ℕ) = update (update g fd0 rf) fd1 wf in
          let done : IsTable (needs others g2) no_raw t.files =
            IsTable-need (with_one wf (with_one rf (needs others g))) (needs others g2) no_raw
              no_raw t.files
              (λ x p.
                let a = needs-add others g fd0 rf x lt0 z0 p in
                let b = needs-add others (update g fd0 rf) fd1 wf x lt1 z1 p in omega (arith, a, b))
              (λ x p r. r) w in
          elim (Bool-cases (copy_fds lower names fdarray fd0 fd1 t.rest).0) [
            | inl ok ↦ rw (pipe_fds, q0, q0, q1, q0, q1, ok) done
            | inr ok ↦
                let s = (copy_fds lower names fdarray fd0 fd1 t.rest).1 in
                let back =
                  close_restored rf wf g (update (update g2 fd0 0) fd1 0) (record t { rest = s }) h0
                    h1 (λ j lt. restored g fd0 fd1 rf wf j z0 z1) w in
                rw (pipe_fds, q0, q0, q1, q0, q1, ok) back
          ]
    ]
  ]

  pub sys_pipe-IsSafe :
      (fdarray : ℕ) (g : ℕ → ℕ) (t : Ftable S)
      → IsTable (needs others g) no_raw t.files
      → IsSafe others (sys_pipe lower names fdarray g t)
  unfolding sys_pipe IsSafe
  sys_pipe-IsSafe fdarray g t w = elim (pipealloc-cases lower (needs others g) t w) [
    | inl (t', e, w') ↦ rw (sys_pipe, e) w'
    | inr (f0, f1, t', e, h0, h1, w') ↦
        rw (sys_pipe, e) (pipe_fds-IsSafe fdarray f0 f1 g t' h0 h1 w')
  ]

  opened-ref : (ip omode : ℕ) (s : S) (ff : File) → (opened lower names ip omode s ff).ref ≡ ff.ref
  unfolding opened
  opened-ref ip omode s ff = elim (Bool-cases (names.inode_type ip s == t_device)) [
    | inl e ↦ rw (opened, e) refl
    | inr e ↦ rw (opened, e) refl
  ]

  opened-type :
      (ip omode : ℕ) (s : S) (ff : File) → (opened lower names ip omode s ff).type ≢ fd_none
  unfolding opened
  opened-type ip omode s ff h = elim (Bool-cases (names.inode_type ip s == t_device)) [
    | inl e ↦ absurd (let h' = rw (opened, e) at h in cc)
    | inr e ↦ absurd (let h' = rw (opened, e) at h in cc)
  ]

  -- The file of `sys_open` gets its type, and its descriptor.
  finish_open-IsSafe :
      (ip omode f fd : ℕ) (g : ℕ → ℕ) (t : Ftable S)
      → f ≢ 0
      → fd < nofile
      → g fd ≡ 0
      → IsTable (with_one f (needs others g)) (or_raw f no_raw) t.files
      → IsSafe others (finish_open lower names ip omode f fd (update g fd f) t)
  unfolding finish_open IsSafe
  finish_open-IsSafe ip omode f fd g t here lt z w =
      let w0 =
        IsTable-need (with_one f (needs others g)) (needs others (update g fd f)) (or_raw f no_raw)
          (or_raw f no_raw) t.files (λ x p. needs-add others g fd f x lt z p) (λ x p r. r) w in
      let v : File = opened lower names ip omode t.rest (t.files f) in
      let same = opened-ref ip omode t.rest (t.files f) in
      let need : (ℕ → ℕ) = needs others (update g fd f) in
      let pos : 1 ≤ (t.files f).ref =
        let c = w.counted f here in let o : one_if f f ≡ 1 = ground arith in omega (arith, c, o) in
      IsTable-set need need (or_raw f no_raw) no_raw t.files f v (same ∙ w0.counted f here)
        (λ q. absurd (omega (arith, q, same, pos))) (λ r q. opened-type ip omode t.rest (t.files f))
        (λ x p. refl) (λ x p r. ground arith) w0

  pub sys_open-IsSafe :
      (path : Option (List ℕ)) (omode : ℕ) (g : ℕ → ℕ) (t : Ftable S)
      → IsTable (needs others g) no_raw t.files
      → IsSafe others (sys_open lower names path omode g t)
  unfolding sys_open IsSafe
  sys_open-IsSafe none omode g t w = w
  sys_open-IsSafe (some path) omode g t w =
      let ip : ℕ = (open_inode lower names path omode t.rest).0 in
      let s : S = (open_inode lower names path omode t.rest).1 in
      elim (Bool-cases (ip == 0)) [
        | inl e ↦ rw (sys_open, e) w
        | inr e ↦
            elim (Bool-cases (
              (names.inode_type ip s == t_device)
              && (leb (2 ^ 15) (names.inode_major ip s) || leb ndev (names.inode_major ip s)))) [
                | inl d ↦ rw (sys_open, e, d) w
                | inr d ↦ elim (filealloc-cases (needs others g) no_raw t.files w) [
                  | inl q ↦ rw (sys_open, e, d, q) w
                  | inr (f, fs, q, here, z, w1) ↦
                      let g0 : (f == 0) ≡ false = ground arith in
                      let t1 : Ftable S = record { files = fs; rest = s } in
                      elim (fdalloc-cases f g) [
                        | inr (fd, q1, lt, free) ↦
                            rw (sys_open, e, d, q, g0, q1, q, q1)
                              (finish_open-IsSafe ip omode f fd g t1 here lt free w1)
                        | inl q1 ↦
                            let (t', q2, w2) =
                              fileclose-IsTable lower (needs others g) (or_raw f no_raw) no_raw t1 f
                                here
                                (λ x r. elim (Bool-cases (x == f)) [
                                  | inl i ↦ inr (ground arith, z)
                                  | inr i ↦ inl (ground arith)
                                ])
                                w1 in
                            rw (sys_open, e, d, q, g0, q1, q, q2) w2
                      ]
                ]
              ]
      ]
