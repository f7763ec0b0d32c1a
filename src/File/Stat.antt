-- ===== src/File/Stat.antt =====
-- kernel/fs/file.c: `filestat`.
use tatak_os.Base.{ℕ, ◌≡◌, refl, inl, inr, Option, none, some, if◌then◌else◌}
use tatak_os.File.{fd_none, fd_pipe, fd_inode, fd_device, Ftable, Lower}
use tatak_os.File.Chunks.{type-cases}

module _ {S : Type 0} (lower : Lower S) where
  open lower use {ilock, iunlock, stati, copyout}

  -- The metadata of an inode.
  unfoldable pub copy_stat : ℕ → ℕ → S → Option ℕ × S
  copy_stat ip addr s =
      let s1 = ilock ip s in
      let (ok, s2) = copyout addr (stati ip s1) (iunlock ip s1) in (if ok then some 0 else none, s2)

  -- `none` is the result -1.
  unfoldable pub filestat : ℕ → ℕ → Ftable S → Option ℕ × Ftable S
  filestat f addr t =
      let ff = t.files f in
      let (r, s) = copy_stat ff.ip addr t.rest in
      elim ff.type [
        | fd_inode ↦ (r, record t { rest = s })
        | fd_device ↦ (r, record t { rest = s })
        | fd_none ↦ (none, t)
        | fd_pipe ↦ (none, t)
      ]

  -- It changes no file.
  pub filestat-files : (f addr : ℕ) (t : Ftable S) → (filestat f addr t).1.files ≡ t.files
  unfolding filestat
  filestat-files f addr t = elim (type-cases (t.files f).type) [
    | inl z ↦ rw (filestat, z) refl
    | inr (inl z) ↦ rw (filestat, z) refl
    | inr (inr (inl z)) ↦ rw (filestat, z) refl
    | inr (inr (inr z)) ↦ rw (filestat, z) refl
  ]
