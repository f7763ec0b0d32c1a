-- ===== src/Fs/Trunc.antt =====
-- kernel/fs/fs.c: `itrunc` gives up the blocks of a file. `none` is a panic of `bfree`.
use tatak_os.Base.{ℕ, zero, suc, ◌+◌, true, false, Option, none, some, ◌==◌}
use tatak_os.Disk.{update}
use tatak_os.Fs.{ndirect, nindirect, Superblock, Fs, Inode, word, bfree}
use tatak_os.Fs.Dinode.{iupdate}

module _ (sb : Superblock) where
  -- The first loop of `itrunc` from address `i` on, for `n` addresses.
  unfoldable pub free_direct : ℕ → ℕ → Inode → Fs → Option (Inode × Fs)
  free_direct i zero ip fs = some (ip, fs)
  free_direct i (suc n) ip fs = elim (ip.addrs i == 0) [
    | true ↦ free_direct (i + 1) n ip fs
    | false ↦ elim (bfree sb (ip.addrs i) fs) [
      | none ↦ none
      | some fs1 ↦ free_direct (i + 1) n (record ip { addrs = update ip.addrs i 0 }) fs1
    ]
  ]

  -- The loop over the entries of the indirect block `b`.
  unfoldable pub free_indirect : ℕ → ℕ → ℕ → Fs → Option Fs
  free_indirect b j zero fs = some fs
  free_indirect b j (suc n) fs = elim (word (fs.blocks b) j == 0) [
    | true ↦ free_indirect b (j + 1) n fs
    | false ↦ elim (bfree sb (word (fs.blocks b) j) fs) [
      | none ↦ none
      | some fs1 ↦ free_indirect b (j + 1) n fs1
    ]
  ]

  -- The part of `itrunc` for the indirect block.
  unfoldable pub free_last : Inode → Fs → Option (Inode × Fs)
  free_last ip fs =
      let b = ip.addrs ndirect in
      elim (b == 0) [
        | true ↦ some (ip, fs)
        | false ↦ elim (free_indirect b 0 nindirect fs) [
          | none ↦ none
          | some fs1 ↦ elim (bfree sb b fs1) [
            | none ↦ none
            | some fs2 ↦ some (record ip { addrs = update ip.addrs ndirect 0 }, fs2)
          ]
        ]
      ]

  unfoldable pub itrunc : Inode → Fs → Option (Inode × Fs)
  itrunc ip fs = elim (free_direct 0 ndirect ip fs) [
    | none ↦ none
    | some (ip1, fs1) ↦ elim (free_last ip1 fs1) [
      | none ↦ none
      | some (ip2, fs2) ↦ let ip3 = record ip2 { size = 0 } in some (ip3, iupdate sb ip3 fs2)
    ]
  ]
