-- ===== src/Fs/Files.antt =====
-- kernel/fs/fs.c: `readi` and `writei` on the bytes of a file.
use tatak_os.Base.{
  ℕ, ◌*◌, ◌/◌, ◌%◌, ◌≡◌, ◌≤◌, ◌<◌, refl, inl, inr, arith, ltb, ◌==◌, if◌then◌else◌, Bool-cases,
}
use tatak_os.Disk.{update_ne}
use tatak_os.Fs.{max_file, bsize, Superblock, Fs, Inode, bblock}
use tatak_os.Fs.Balloc.{used, IsLayout}
use tatak_os.Fs.Change.{IsFile-same, slot-same}
use tatak_os.Fs.Dinode.{inodes_per_block, put_dinode, iblock, iupdate}
use tatak_os.Fs.Slots.{slot, content, IsFile}

-- The inode's block lies before the free map.
abbrev pub IsPlaced : Superblock → Inode → Type 0
IsPlaced sb ip = iblock sb ip.inum < sb.bmapstart

-- A file that fits its blocks, and bytes that `overwrite` puts into it.
abbrev pub grown_size : ℕ → ℕ → ℕ
grown_size size end = if ltb size end then end else size

module _ (sb : Superblock) (d : ℕ) (layout : IsLayout sb d) where
  -- `iupdate` changes no block of the file, nor the map.
  pub iupdate-map :
      (fs : Fs) (ip : Inode) (c : ℕ) → IsPlaced sb ip → used sb (iupdate sb ip fs) c ≡ used sb fs c
  unfolding used iupdate
  iupdate-map fs ip c place =
      rw
        (update_ne fs.blocks (iblock sb ip.inum) (bblock sb c)
          (put_dinode (ip.inum % inodes_per_block) ip (fs.blocks (iblock sb ip.inum)))
          (λ e. absurd (omega (arith, place, e))))
        refl

  iupdate-block :
      (fs : Fs) (ip : Inode) (b : ℕ)
      → IsPlaced sb ip
      → d ≤ b
      → (iupdate sb ip fs).blocks b ≡ fs.blocks b
  unfolding iupdate
  iupdate-block fs ip b place above =
      update_ne fs.blocks (iblock sb ip.inum) b
        (put_dinode (ip.inum % inodes_per_block) ip (fs.blocks (iblock sb ip.inum)))
        (λ e. absurd (let low = layout.map_below in omega (arith, place, e, above, low)))

  pub iupdate-slot :
      (fs : Fs) (ip : Inode) (l : ℕ)
      → IsPlaced sb ip
      → IsFile sb d fs ip
      → l ≤ max_file
      → slot (iupdate sb ip fs) ip l ≡ slot fs ip l
  unfolding slot
  iupdate-slot fs ip l place w le =
      slot-same fs (iupdate sb ip fs) ip l le
        (λ z. iupdate-block fs ip (ip.addrs 12) place (w.above max_file (omega arith) z))

  pub iupdate-content :
      (fs : Fs) (ip : Inode) (i : ℕ)
      → IsPlaced sb ip
      → IsFile sb d fs ip
      → i < max_file * bsize
      → content (iupdate sb ip fs) ip i ≡ content fs ip i
  unfolding content
  iupdate-content fs ip i place w lt =
      let le : i / bsize ≤ max_file = omega (arith, lt) in
      let s = iupdate-slot fs ip (i / bsize) place w le in
      elim (Bool-cases (slot fs ip (i / bsize) == 0)) [
        | inl z ↦ rw (s, z) refl
        | inr z ↦
            let same =
              iupdate-block fs ip (slot fs ip (i / bsize)) place
                (w.above (i / bsize) le (ground arith)) in
            rw (s, z, same) refl
      ]

  -- The size of an inode is not in its blocks.
  pub sized-IsFile :
      (fs : Fs) (ip : Inode) (n : ℕ) → IsFile sb d fs ip → IsFile sb d fs (record ip { size = n })
  unfolding slot
  sized-IsFile fs ip n w =
      IsFile-same sb d fs fs ip (record ip { size = n }) layout.data_below (λ c lt. refl)
        (λ l le. refl) w

  pub sized-content :
      (fs : Fs) (ip : Inode) (n i : ℕ) → content fs (record ip { size = n }) i ≡ content fs ip i
  unfolding content slot
  sized-content fs ip n i = refl
