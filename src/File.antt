-- ===== src/File.antt =====
-- kernel/fs/file.c (src/kernel/fs/file.c in the repository): open files, and `pipealloc` of pipe.c.
-- `ftable.lock` is held as in the code: each critical section is one step. A `struct file` pointer
-- is the number of its slot in `ftable.file` plus one, and 0 is null.
pub mod Counts
pub mod Table
pub mod Pipes
pub mod Stat
pub mod Chunks
pub mod Write
use tatak_os.Base.{
  ℕ, zero, suc, ◌+◌, ◌-◌, ◌*◌, ◌/◌, ◌%◌, ◌^◌, Bool, true, false, not, ◌||◌, Option, none, some,
  List, ltb, leb, ◌==◌, if◌then◌else◌,
}
use tatak_os.Disk.{update}

-- NFILE, NDEV, MAXOPBLOCKS of include/kernel/param.h and BSIZE of include/kernel/fs.h.
abbrev pub nfile : ℕ
nfile = 100

abbrev pub ndev : ℕ
ndev = 10

abbrev pub max_op_blocks : ℕ
max_op_blocks = 10

abbrev pub block_bytes : ℕ
block_bytes = 1024

pub data FileType : Type 0 where
  fd_none fd_pipe fd_inode fd_device : FileType

-- `struct file`. A pipe and an inode are given by their address; `major` is a `short`, as the
-- number from 0 to 65535 with its bits.
pub record File : Type 0 where
  pub type : FileType
  pub ref : ℕ
  pub readable : Bool
  pub writable : Bool
  pub pipe : ℕ
  pub ip : ℕ
  pub off : ℕ
  pub major : ℕ

-- `ftable.file`, and what the rest of the kernel holds.
pub record Ftable (S : Type 0) : Type 0 where
  pub files : ℕ → File
  pub rest : S

-- The rest of the kernel, as file.c calls it. `none` is the result -1 of a transfer; the last
-- numbers are the user's address, the offset and the count. `stati` gives the fields of a `struct
-- stat`, and `copyout` is that of the caller's page table.
pub record Lower (S : Type 0) : Type 0 where
  pub kalloc : S → ℕ × S
  pub pipe_init : ℕ → S → S
  pub pipeclose : ℕ → Bool → S → S
  pub piperead : ℕ → ℕ → ℕ → S → Option ℕ × S
  pub pipewrite : ℕ → ℕ → ℕ → S → Option ℕ × S
  pub has_read : ℕ → Bool
  pub has_write : ℕ → Bool
  pub devread : ℕ → ℕ → ℕ → S → Option ℕ × S
  pub devwrite : ℕ → ℕ → ℕ → S → Option ℕ × S
  pub begin_op : S → S
  pub end_op : S → S
  pub ilock : ℕ → S → S
  pub iunlock : ℕ → S → S
  pub iput : ℕ → S → S
  pub readi : ℕ → ℕ → ℕ → ℕ → S → Option ℕ × S
  pub writei : ℕ → ℕ → ℕ → ℕ → S → Option ℕ × S
  pub stati : ℕ → S → List ℕ
  pub copyout : ℕ → List ℕ → S → Bool × S

-- The first pointer from `i` on, for `n` slots, whose slot has no reference; 0 if there is none.
unfoldable pub find_free : (ℕ → File) → ℕ → ℕ → ℕ
find_free fs i zero = 0
find_free fs i (suc n) = let rest = find_free fs (i + 1) n in if (fs i).ref == 0 then i else rest

unfoldable pub filealloc : (ℕ → File) → ℕ × (ℕ → File)
filealloc fs =
    let f = find_free fs 1 nfile in
    (f, if f == 0 then fs else update fs f (record (fs f) { ref = 1 }))

-- `none` is the panic.
unfoldable pub filedup : ℕ → (ℕ → File) → Option (ℕ → File)
filedup f fs =
    if ltb (fs f).ref 1 then none else some (update fs f (record (fs f) { ref = (fs f).ref + 1 }))

-- The two ends that `pipealloc` makes of its files.
abbrev pub pipe_end : ℕ → Bool → File → File
pipe_end pi w ff = record ff { type = fd_pipe; readable = not w; writable = w; pipe = pi }

-- `f->major < 0 || f->major >= NDEV || !devsw[f->major].op`
abbrev pub no_device : (ℕ → Bool) → ℕ → Bool
no_device has_op major = leb (2 ^ 15) major || (leb ndev major || not (has_op major))

-- The assignment `f->off += r`; `off` is a `uint`.
abbrev pub move : ℕ → Option ℕ → (ℕ → File) → ℕ → File
move f none fs = fs
move f (some r) fs = update fs f (record (fs f) { off = ((fs f).off + r) % 2 ^ 32 })

-- `max`, the bytes that one transaction of `filewrite` writes.
abbrev pub max_bytes : ℕ
max_bytes = (max_op_blocks - 1 - 1 - 2) / 2 * block_bytes

module _ {S : Type 0} (lower : Lower S) where
  open lower use {
    kalloc, pipe_init, pipeclose, piperead, pipewrite, has_read, has_write, devread, devwrite,
    begin_op, end_op, ilock, iunlock, iput, readi, writei,
  }

  -- What `fileclose` does with the copy of the last reference.
  unfoldable pub finish : File → S → S
  finish ff s = elim ff.type [
    | fd_none ↦ s
    | fd_pipe ↦ pipeclose ff.pipe ff.writable s
    | fd_inode ↦ end_op (iput ff.ip (begin_op s))
    | fd_device ↦ end_op (iput ff.ip (begin_op s))
  ]

  -- `none` is the panic.
  unfoldable pub fileclose : ℕ → Ftable S → Option (Ftable S)
  fileclose f t =
      let ff = t.files f in
      if ltb ff.ref 1
      then none
      else if ltb 0 (ff.ref - 1)
      then some (record t { files = update t.files f (record ff { ref = ff.ref - 1 }) })
      else some (record {
        files = update t.files f (record ff { ref = 0; type = fd_none });
        rest = finish ff t.rest;
      })

  -- The label `bad` of `pipealloc`, where it has no page.
  unfoldable pub give_up : ℕ → ℕ → Ftable S → Option (Option (ℕ × ℕ) × Ftable S)
  give_up f0 f1 t = elim (if f0 == 0 then some t else fileclose f0 t) [
    | none ↦ none
    | some t1 ↦ elim (if f1 == 0 then some t1 else fileclose f1 t1) [
      | none ↦ none
      | some t2 ↦ some (none, t2)
    ]
  ]

  -- `pipealloc` after its calls of `filealloc`.
  unfoldable pub connect : ℕ → ℕ → Ftable S → Option (Option (ℕ × ℕ) × Ftable S)
  connect f0 f1 t =
      let (pi, s) = kalloc t.rest in
      if (f0 == 0) || (f1 == 0)
      then give_up f0 f1 t
      else if pi == 0
      then give_up f0 f1 (record t { rest = s })
      else let fs = update t.files f0 (pipe_end pi false (t.files f0)) in
        some (
          some (f0, f1),
          record { files = update fs f1 (pipe_end pi true (fs f1)); rest = pipe_init pi s },
        )

  -- `pipealloc`: the two files, if it succeeds, and `none` outside is a panic.
  unfoldable pub pipealloc : Ftable S → Option (Option (ℕ × ℕ) × Ftable S)
  pipealloc t =
      let (f0, fs0) = filealloc t.files in
      let (f1, fs1) = if f0 == 0 then (0, fs0) else filealloc fs0 in
      connect f0 f1 (record t { files = fs1 })

  -- `fileread`: outside, `none` is the panic; inside, it is the result -1.
  unfoldable pub fileread : ℕ → ℕ → ℕ → Ftable S → Option (Option ℕ × Ftable S)
  fileread f addr n t =
      let ff = t.files f in
      if not ff.readable then some (none, t) else elim ff.type [
        | fd_none ↦ none
        | fd_pipe ↦ let (r, s) = piperead ff.pipe addr n t.rest in some (r, record t { rest = s })
        | fd_device ↦
            if no_device has_read ff.major
            then some (none, t)
            else let (r, s) = devread ff.major addr n t.rest in some (r, record t { rest = s })
        | fd_inode ↦
            let (r, s) = readi ff.ip addr ff.off n (ilock ff.ip t.rest) in
            some (r, record { files = move f r t.files; rest = iunlock ff.ip s })
      ]

  -- The body of the loop of `filewrite`, for `n1` bytes.
  unfoldable pub write_chunk : ℕ → ℕ → ℕ → Ftable S → Option ℕ × Ftable S
  write_chunk f addr n1 t =
      let ff = t.files f in
      let (r, s) = writei ff.ip addr ff.off n1 (ilock ff.ip (begin_op t.rest)) in
      (r, record { files = move f r t.files; rest = end_op (iunlock ff.ip s) })

  -- The loop of `filewrite` from `i` on, for at most `fuel` rounds: the final `i`.
  unfoldable pub write_chunks : ℕ → ℕ → ℕ → ℕ → ℕ → Ftable S → Option (ℕ × Ftable S)
  write_chunks zero f addr n i t = none
  write_chunks (suc fuel) f addr n i t =
      let n1 = if ltb max_bytes (n - i) then max_bytes else n - i in
      let (r, t1) = write_chunk f ((addr + i) % 2 ^ 64) n1 t in
      elim (ltb i n) [
        | false ↦ some (i, t)
        | true ↦ elim r [
          | none ↦ some (i, t1)
          | some k ↦ elim (k == n1) [
            | false ↦ some (i, t1)
            | true ↦ write_chunks fuel f addr n (i + k) t1
          ]
        ]
      ]

  -- `filewrite`, for a count that is not negative.
  unfoldable pub filewrite : ℕ → ℕ → ℕ → Ftable S → Option (Option ℕ × Ftable S)
  filewrite f addr n t =
      let ff = t.files f in
      if not ff.writable then some (none, t) else elim ff.type [
        | fd_none ↦ none
        | fd_pipe ↦ let (r, s) = pipewrite ff.pipe addr n t.rest in some (r, record t { rest = s })
        | fd_device ↦
            if no_device has_write ff.major
            then some (none, t)
            else let (r, s) = devwrite ff.major addr n t.rest in some (r, record t { rest = s })
        | fd_inode ↦ elim (write_chunks (suc n) f addr n 0 t) [
          | none ↦ none
          | some (i, t1) ↦ some (if i == n then some n else none, t1)
        ]
      ]
