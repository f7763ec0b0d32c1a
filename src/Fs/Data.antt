-- ===== src/Fs/Data.antt =====
-- kernel/fs/fs.c: `readi` and `writei`. `D` is the memory that they copy to, and `copyout` and
-- `copyin` are `either_copyout` and `either_copyin` there: `false` is -1, and `copyin` gives what
-- stands in the buffer afterwards, in place of the given bytes. `uint` wraps at 2 ^ 32.
use tatak_os.Base.{
  ℕ, zero, suc, ◌+◌, ◌-◌, ◌*◌, ◌/◌, ◌%◌, ◌^◌, Bool, true, false, ◌&&◌, ◌||◌, Option, none, some,
  ltb, leb, if◌then◌else◌,
}
use tatak_os.Fs.{bsize, max_file, Bytes, Superblock, Fs, Inode, modify, log_write, bmap}
use tatak_os.Fs.Dinode.{iupdate}

-- `min(n - tot, BSIZE - off%BSIZE)`
abbrev pub chunk : ℕ → ℕ → ℕ
chunk left off = if ltb left (bsize - off % bsize) then left else bsize - off % bsize

-- The bytes of a buffer after a copy of `m` bytes to `at`.
abbrev pub splice : Bytes → ℕ → ℕ → Bytes → Bytes
splice x at m new j = if leb at j && ltb j (at + m) then new (j - at) else x j

module _ {D : Type 0} (sb : Superblock) (copyout : ℕ → Bytes → ℕ → D → Bool × D) where
  -- The loop of `readi`, for at most `fuel` rounds; inside, `none` is the result -1.
  unfoldable pub read_from :
      ℕ → ℕ → ℕ → ℕ → ℕ → Inode → Fs → D → Option (Option ℕ × (Inode × (Fs × D)))
  read_from zero tot off dst n ip fs mem = none
  read_from (suc fuel) tot off dst n ip fs mem = elim (ltb tot n) [
    | false ↦ some (some tot, (ip, (fs, mem)))
    | true ↦ elim (bmap sb (off / bsize) ip fs) [
      | none ↦ none
      | some (b, (ip1, fs1)) ↦
          let m = chunk (n - tot) off in
          let (ok, mem1) = copyout dst (λ j. fs1.blocks b (off % bsize + j)) m mem in
          elim ok [
            | false ↦ some (none, (ip1, (fs1, mem1)))
            | true ↦
                read_from fuel (tot + m) ((off + m) % 2 ^ 32) ((dst + m) % 2 ^ 64) n ip1 fs1 mem1
          ]
    ]
  ]

  unfoldable pub readi : ℕ → ℕ → ℕ → Inode → Fs → D → Option (Option ℕ × (Inode × (Fs × D)))
  readi dst off n ip fs mem =
      if ltb ip.size off || ltb ((off + n) % 2 ^ 32) off
      then some (some 0, (ip, (fs, mem)))
      else let n1 = if ltb ip.size ((off + n) % 2 ^ 32) then ip.size - off else n in
        read_from (suc (n1 / bsize + 2)) 0 off dst n1 ip fs mem

module _ (sb : Superblock) (copyin : ℕ → Bytes → ℕ → Bool × Bytes) where
  -- The loop of `writei`, for at most `fuel` rounds: `tot` and `off` at its end.
  unfoldable pub write_from : ℕ → ℕ → ℕ → ℕ → ℕ → Inode → Fs → Option (ℕ × (ℕ × (Inode × Fs)))
  write_from zero tot off src n ip fs = none
  write_from (suc fuel) tot off src n ip fs = elim (ltb tot n) [
    | false ↦ some (tot, (off, (ip, fs)))
    | true ↦ elim (bmap sb (off / bsize) ip fs) [
      | none ↦ none
      | some (b, (ip1, fs1)) ↦
          let m = chunk (n - tot) off in
          let at = off % bsize in
          let (ok, new) = copyin src (λ j. fs1.blocks b (at + j)) m in
          let fs2 = modify b (splice (fs1.blocks b) at m new) fs1 in
          elim ok [
            | false ↦ some (tot, (off, (ip1, fs2)))
            | true ↦
                write_from fuel (tot + m) ((off + m) % 2 ^ 32) ((src + m) % 2 ^ 64) n ip1
                  (log_write b fs2)
          ]
    ]
  ]

  unfoldable pub writei : ℕ → ℕ → ℕ → Inode → Fs → Option (Option ℕ × (Inode × Fs))
  writei src off n ip fs =
      if ltb ip.size off || ltb ((off + n) % 2 ^ 32) off
      then some (none, (ip, fs))
      else if ltb (max_file * bsize) ((off + n) % 2 ^ 32)
      then some (none, (ip, fs))
      else elim (write_from (suc (n / bsize + 2)) 0 off src n ip fs) [
        | none ↦ none
        | some (tot, (off1, (ip1, fs1))) ↦
            let ip2 = if ltb ip1.size off1 then record ip1 { size = off1 } else ip1 in
            some (some tot, (ip2, iupdate sb ip2 fs1))
      ]
