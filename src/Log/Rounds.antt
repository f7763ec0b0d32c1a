-- ===== src/Log/Rounds.antt =====
-- One round of each loop of the log over the abstract cache, held buffers none before and after.
use tatak_os.Base.{
  ℕ, ◌+◌, ◌<◌, ◌≡◌, ◌≢◌, Bool, true, false, some, List, [], ◌∷◌, ◌++◌, arith, length,
}
use tatak_os.Disk.{Block, Disk, Writes, update, update-update}
use tatak_os.Buffers.{nbuf, mem}
use tatak_os.Buffers.Spec.{Cache, spec}
use tatak_os.Log.{header, entries, read_head, write_head, install_block, log_block}

-- No buffer held; `pinned` is what the log has pinned.
abbrev pub idle : Disk → Disk → (ℕ → Bool) → List ℕ → Writes → Cache
idle d v y p w = record { disk = d; view = v; dirty = y; held = []; pinned = p; writes = w }

-- Block `b` has been written through to the disk with contents `x`.
abbrev pub stored : Disk → Disk → (ℕ → Bool) → List ℕ → Writes → ℕ → Block → Cache
stored d v y p w b x = idle (update d b x) (update v b x) (update y b false) p (w ++ ((b, x) ∷ []))

module _ (d v : Disk) (y : ℕ → Bool) (w : Writes) where
  pub write_head_lem :
      (p : List ℕ) (start : ℕ) (bs : List ℕ)
      → length p < nbuf
      → write_head spec start bs (idle d v y p w)
        ≡ some (tt, stored d v y p w start (header (v start) bs))
  unfolding write_head
  write_head_lem p start bs h = ground (arith, update-update y start true false)

  pub log_block_lem :
      (p : List ℕ) (l b : ℕ)
      → l ≢ b
      → mem b p ≡ true
      → length p < nbuf
      → log_block spec l b (idle d v y p w) ≡ some (tt, stored d v y p w l (v b))
  unfolding log_block
  log_block_lem p l b ne pin h = ground (arith, update-update y l true false)

  pub install_block_lem :
      (p : List ℕ) (l b : ℕ)
      → l ≢ b
      → y l ≡ false
      → length p + 1 < nbuf
      → install_block spec false l b (idle d v y (b ∷ p) w) ≡ some (tt, stored d v y p w b (v l))
  unfolding install_block
  install_block_lem p l b ne clean h = ground (arith, update-update y b true false)

  pub recover_block_lem :
      (l b : ℕ)
      → l ≢ b
      → y l ≡ false
      → install_block spec true l b (idle d v y [] w) ≡ some (tt, stored d v y [] w b (v l))
  unfolding install_block
  recover_block_lem l b ne clean = ground (arith, update-update y b true false)

  pub read_head_lem :
      (start : ℕ)
      → y start ≡ false
      → read_head spec start (idle d v y [] w) ≡ some (entries (v start), idle d v y [] w)
  unfolding read_head
  read_head_lem start h = ground arith
