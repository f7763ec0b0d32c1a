-- ===== src/Sysfile.antt =====
-- kernel/sysfile.c (src/kernel/sysfile.c in the repository): the calls on file descriptors.
-- `g` is `ofile` of the calling process. A call's result is `some` of a number, or `none` for -1;
-- outside, `none` is a panic. `argint` and `argaddr` do not fail.
pub mod Needs
pub mod Safe
pub mod Opens
pub mod System
pub mod Forks
pub mod Sound
mod Tests
use tatak_os.Base.{
  ℕ, zero, suc, ◌+◌, ◌/◌, ◌%◌, ◌^◌, Bool, false, not, ◌&&◌, ◌||◌, Option, none, some, List, leb,
  ◌==◌, if◌then◌else◌,
}
use tatak_os.Disk.{update}
use tatak_os.File.{
  ndev, fd_inode, fd_device, File, Ftable, Lower, filealloc, filedup, fileclose, pipealloc,
  fileread, filewrite,
}
use tatak_os.File.Stat.{filestat}
use tatak_os.Proc.{nofile}

-- The names and the inodes, and the user's memory, as sysfile.c calls them: a null inode is 0.
pub record Names (S : Type 0) : Type 0 where
  pub create : List ℕ → ℕ → ℕ → ℕ → S → ℕ × S
  pub namei : List ℕ → S → ℕ × S
  pub inode_type : ℕ → S → ℕ
  pub inode_major : ℕ → S → ℕ
  pub iunlockput : ℕ → S → S
  pub itrunc : ℕ → S → S
  pub copyout : ℕ → ℕ → S → Bool × S

-- The process's descriptors and the kernel after a call, with the call's result.
abbrev pub Outcome : Type 0 → Type 0
Outcome S = Option (Option ℕ × ((ℕ → ℕ) × Ftable S))

-- `argfd`: the file, or null; `fd` is an `int`, as the number below 2 ^ 32 with its bits.
unfoldable pub argfd : ℕ → (ℕ → ℕ) → ℕ
argfd fd g = if leb (2 ^ 31) fd || leb nofile fd then 0 else g fd

-- The first descriptor from `fd` on, for `n` descriptors, that is free.
unfoldable pub first_free : (ℕ → ℕ) → ℕ → ℕ → Option ℕ
first_free g fd zero = none
first_free g fd (suc n) = let rest = first_free g (fd + 1) n in if g fd == 0 then some fd else rest

unfoldable pub fdalloc : ℕ → (ℕ → ℕ) → Option ℕ × (ℕ → ℕ)
fdalloc f g = elim (first_free g 0 nofile) [ none ↦ (none, g) | some fd ↦ (some fd, update g fd f) ]

-- T_DIR, T_FILE and T_DEVICE of include/kernel/stat.h.
abbrev pub t_dir : ℕ
t_dir = 1

abbrev pub t_file : ℕ
t_file = 2

abbrev pub t_device : ℕ
t_device = 3

-- O_WRONLY, O_RDWR, O_CREATE and O_TRUNC of include/kernel/fcntl.h, as bits of `omode`.
abbrev pub o_wronly : ℕ → Bool
o_wronly omode = omode % 2 == 1

abbrev pub o_rdwr : ℕ → Bool
o_rdwr omode = omode / 2 % 2 == 1

abbrev pub o_create : ℕ → Bool
o_create omode = omode / 512 % 2 == 1

abbrev pub o_trunc : ℕ → Bool
o_trunc omode = omode / 1024 % 2 == 1

module _ {S : Type 0} (lower : Lower S) (names : Names S) where
  open lower use {begin_op, end_op, ilock, iunlock}
  open names use {create, namei, inode_type, inode_major, iunlockput, itrunc, copyout}

  unfoldable pub sys_dup : ℕ → (ℕ → ℕ) → Ftable S → Outcome S
  sys_dup fd g t =
      let f = argfd fd g in
      let (new, g1) = fdalloc f g in
      if f == 0 then some (none, (g, t)) else elim new [
        | none ↦ some (none, (g1, t))
        | some d ↦ elim (filedup f t.files) [
          | none ↦ none
          | some fs ↦ some (some d, (g1, record t { files = fs }))
        ]
      ]

  unfoldable pub sys_close : ℕ → (ℕ → ℕ) → Ftable S → Outcome S
  sys_close fd g t =
      let f = argfd fd g in
      if f == 0
      then some (none, (g, t))
      else elim (fileclose lower f t) [ none ↦ none | some t1 ↦ some (some 0, (update g fd 0, t1)) ]

  unfoldable pub sys_read : ℕ → ℕ → ℕ → (ℕ → ℕ) → Ftable S → Outcome S
  sys_read fd p n g t =
      let f = argfd fd g in
      if f == 0
      then some (none, (g, t))
      else elim (fileread lower f p n t) [ none ↦ none | some (r, t1) ↦ some (r, (g, t1)) ]

  unfoldable pub sys_write : ℕ → ℕ → ℕ → (ℕ → ℕ) → Ftable S → Outcome S
  sys_write fd p n g t =
      let f = argfd fd g in
      if f == 0
      then some (none, (g, t))
      else elim (filewrite lower f p n t) [ none ↦ none | some (r, t1) ↦ some (r, (g, t1)) ]

  unfoldable pub sys_fstat : ℕ → ℕ → (ℕ → ℕ) → Ftable S → Outcome S
  sys_fstat fd st g t =
      let f = argfd fd g in
      let (r, t1) = filestat lower f st t in
      if f == 0 then some (none, (g, t)) else some (r, (g, t1))

  -- `fileclose(rf); fileclose(wf); return -1;`
  unfoldable pub close_both : ℕ → ℕ → (ℕ → ℕ) → Ftable S → Outcome S
  close_both rf wf g t = elim (fileclose lower rf t) [
    | none ↦ none
    | some t1 ↦ elim (fileclose lower wf t1) [ none ↦ none | some t2 ↦ some (none, (g, t2)) ]
  ]

  -- The two `copyout` of `sys_pipe`.
  unfoldable pub copy_fds : ℕ → ℕ → ℕ → S → Bool × S
  copy_fds fdarray fd0 fd1 s =
      let (ok, s1) = copyout fdarray fd0 s in
      if ok then copyout ((fdarray + 4) % 2 ^ 64) fd1 s1 else (false, s1)

  -- `sys_pipe` after `pipealloc`.
  unfoldable pub pipe_fds : ℕ → ℕ → ℕ → (ℕ → ℕ) → Ftable S → Outcome S
  pipe_fds fdarray rf wf g t =
      let (new0, g1) = fdalloc rf g in
      let (new1, g2) = fdalloc wf g1 in
      elim new0 [
        | none ↦ close_both rf wf g t
        | some fd0 ↦ elim new1 [
          | none ↦ close_both rf wf (update g1 fd0 0) t
          | some fd1 ↦
              let (ok, s) = copy_fds fdarray fd0 fd1 t.rest in
              if ok
              then some (some 0, (g2, record t { rest = s }))
              else close_both rf wf (update (update g2 fd0 0) fd1 0) (record t { rest = s })
        ]
      ]

  unfoldable pub sys_pipe : ℕ → (ℕ → ℕ) → Ftable S → Outcome S
  sys_pipe fdarray g t = elim (pipealloc lower t) [
    | none ↦ none
    | some (none, t1) ↦ some (none, (g, t1))
    | some (some (rf, wf), t1) ↦ pipe_fds fdarray rf wf g t1
  ]

  -- The inode that `sys_open` opens, locked and inside the transaction; or 0, after `end_op`.
  unfoldable pub open_inode : List ℕ → ℕ → S → ℕ × S
  open_inode path omode s =
      let s0 = begin_op s in
      let (ip, s1) = create path t_file 0 0 s0 in
      let (ip', s2) = namei path s0 in
      let s3 = ilock ip' s2 in
      if o_create omode
      then (if ip == 0 then (0, end_op s1) else (ip, s1))
      else if ip' == 0
      then (0, end_op s2)
      else if (inode_type ip' s3 == t_dir) && not (omode == 0)
      then (0, end_op (iunlockput ip' s3))
      else (ip', s3)

  -- The assignments of `sys_open` to the file.
  unfoldable pub opened : ℕ → ℕ → S → File → File
  opened ip omode s ff =
      record (if inode_type ip s == t_device
        then record ff { type = fd_device; major = inode_major ip s }
        else record ff { type = fd_inode; off = 0 }) {
          ip = ip;
          readable = not (o_wronly omode);
          writable = o_wronly omode || o_rdwr omode;
        }

  -- The last part of `sys_open`, with file `f` and descriptor `fd`.
  unfoldable pub finish_open : ℕ → ℕ → ℕ → ℕ → (ℕ → ℕ) → Ftable S → Outcome S
  finish_open ip omode f fd g t =
      let s = t.rest in
      let s1 = if o_trunc omode && (inode_type ip s == t_file) then itrunc ip s else s in
      some (
        some fd,
        (
          g,
          record {
            files = update t.files f (opened ip omode s (t.files f));
            rest = end_op (iunlock ip s1);
          },
        ),
      )

  -- `iunlockput(ip); end_op(); return -1;`
  abbrev pub drop_inode : ℕ → (ℕ → ℕ) → Ftable S → Outcome S
  drop_inode ip g t = some (none, (g, record t { rest = end_op (iunlockput ip t.rest) }))

  -- `sys_open`; `path` is `none` where `argstr` fails.
  unfoldable pub sys_open : Option (List ℕ) → ℕ → (ℕ → ℕ) → Ftable S → Outcome S
  sys_open none omode g t = some (none, (g, t))
  sys_open (some path) omode g t =
      let (ip, s) = open_inode path omode t.rest in
      let major = inode_major ip s in
      let (f, fs) = filealloc t.files in
      let (new, g1) = fdalloc f g in
      if ip == 0
      then some (none, (g, record t { rest = s }))
      else if (inode_type ip s == t_device) && (leb (2 ^ 15) major || leb ndev major)
      then drop_inode ip g (record t { rest = s })
      else if f == 0
      then drop_inode ip g (record { files = fs; rest = s })
      else elim new [
        | some fd ↦ finish_open ip omode f fd g1 (record { files = fs; rest = s })
        | none ↦ elim (fileclose lower f (record { files = fs; rest = s })) [
          | none ↦ none
          | some t1 ↦ drop_inode ip g t1
        ]
      ]
