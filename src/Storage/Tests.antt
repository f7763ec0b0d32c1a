-- ===== src/Storage/Tests.antt =====
-- The theorem of Storage for a transaction of one block, from an empty buffer cache on.
use tatak_os.Base.{◌≡◌, refl, true, false, some, [], ◌∷◌, arith, take}
use tatak_os.Disk.{Block, Disk, update, apply}
use tatak_os.Buffers.{M, ◌>>=◌, ◌>>◌, Ops}
use tatak_os.Buffers.Spec.{Cache}
use tatak_os.Buffers.Simulation.{Simulates, Sim-bind, Sim-then}
use tatak_os.Bcache.{Bcache, bio}
use tatak_os.Bcache.Relation.{Refines}
use tatak_os.Bcache.Init.{boot}
use tatak_os.Bcache.Linked.{boot-IsZero}
use tatak_os.Bcache.Promise.{bio-Simulates, fresh, fresh-Refines}
use tatak_os.Log.{Log, commit, recover}
use tatak_os.Log.Rounds.{idle}
use tatak_os.Storage.{commit_recovers}

abbrev empty_disk : Disk
empty_disk b j = 0

abbrev ones : Block
ones j = 1

-- What an operation does to a block that it logs.
abbrev logged_write : {S : Type 0} → Ops S → M S (Unit {0})
logged_write ops = do x ← ops.bread 40; ops.fill 40 ones; ops.bpin 40; ops.brelse 40

abbrev dirty : Cache
dirty = idle empty_disk (update empty_disk 40 ones) (update (λ b. false) 40 true) (40 ∷ []) []

prepared :
    (s : Bcache) × (logged_write (bio 7 1) (fresh empty_disk) ≡ some (tt, s)) × Refines 7 1 s dirty
prepared =
    let i : Simulates (bio 7 1) (Refines 7 1) = bio-Simulates 7 1 in
    Sim-bind (Refines 7 1) _ _ _ _ (i.bread 40)
      (λ x.
        Sim-then (Refines 7 1) _ _ _ _ (i.fill 40 ones)
          (Sim-then (Refines 7 1) _ _ _ _ (i.bpin 40) (i.brelse 40)))
      (fresh empty_disk) _ tt dirty (fresh-Refines 7 1 boot empty_disk (omega arith) boot-IsZero).2
      refl

abbrev one_block : Log
one_block = record { start = 2; size = 30; outstanding = 0; committing = true; block = 40 ∷ [] }

commit_recovers_example :
    (t t' : Bcache) × (commit (bio 7 1) one_block prepared.0
      ≡ some (record one_block { block = [] }, t))
    × (recover (bio 7 1) one_block (fresh (apply (take 2 t.writes) empty_disk))
        ≡ some (record one_block { block = [] }, t'))
    × (t'.disk 40 ≡ ones)
commit_recovers_example =
    commit_recovers 7 1 prepared.0 empty_disk (update empty_disk 40 ones)
      (update (λ b. false) 40 true) one_block 29 2 (omega arith) prepared.2 (omega arith)
      (omega arith) (omega arith) (omega arith) (λ i h. ground arith) refl 40 (omega arith)
