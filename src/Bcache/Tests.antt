-- ===== src/Bcache/Tests.antt =====
-- Tests of the buffer cache, and its theorems at concrete inputs: process 7 on device 1.
use tatak_os.Base.{ℕ, ◌+◌, ◌<◌, ◌≡◌, refl, false, Option, none, some, List, [], ◌∷◌, arith}
use tatak_os.Disk.{Disk}
use tatak_os.Buffers.{M, ◌>>=◌, ◌>>◌, pure}
use tatak_os.Buffers.Simulation.{Simulates}
use tatak_os.Buffers.{nbuf}
use tatak_os.Sleeplock.{initsleeplock, acquiresleep, releasesleep, holdingsleep}
use tatak_os.Bcache.{
  Buf, Bcache, get, replace, recycle, unlink, claim, fetch, bread, held_buf, brelse, bio,
}
use tatak_os.Bcache.Init.{binit, boot, link_buf, link_from, along}
use tatak_os.Bcache.Linked.{boot-IsZero, IsRing, IsUnused}
use tatak_os.Bcache.Relation.{Refines}
use tatak_os.Bcache.Promise.{bio-Simulates, fresh, fresh-Refines}
use tatak_os.Log.Rounds.{idle}

abbrev numbers : Disk
numbers b j = b + j

bio-Simulates_example : Simulates (bio 7 1) (Refines 7 1)
bio-Simulates_example = bio-Simulates 7 1

fresh-Refines_example :
    IsRing (binit boot)
    × ((x : ℕ) → x < nbuf → IsUnused ((binit boot).buf x))
    × Refines 7 1 (fresh numbers) (idle numbers numbers (λ b. false) [] [])
fresh-Refines_example = fresh-Refines 7 1 boot numbers (omega arith) boot-IsZero

-- Two blocks are read and given back: the later one leads the ring.
abbrev two_blocks : M Bcache (List ℕ)
two_blocks = do
  x ← bread 7 1 40
  brelse 7 1 40
  y ← bread 7 1 41
  brelse 7 1 41
  pure (x 2 ∷ y 2 ∷ [])

abbrev front : List Buf → List ℕ
front [] = []
front (x ∷ []) = x.blockno ∷ []
front (x ∷ y ∷ xs) = x.blockno ∷ y.blockno ∷ []

abbrev shown : Option (List ℕ × Bcache) → List ℕ × List ℕ
shown none = ([], [])
shown (some (r, s)) = (r, front s.bufs)

lru_order : shown (two_blocks (fresh numbers)) ≡ (42 ∷ 43 ∷ [], 41 ∷ 40 ∷ [])
unfolding bread claim get recycle fetch replace brelse held_buf unlink binit link_from link_buf
    along initsleeplock acquiresleep releasesleep holdingsleep
lru_order = refl
