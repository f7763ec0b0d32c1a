-- ===== src/Storage.antt =====
-- The log of src/kernel/fs/log.c over the buffer cache of src/kernel/fs/bio.c.
mod Tests
use tatak_os.Base.{
  ℕ, ◌+◌, ◌<◌, ◌≤◌, ◌≡◌, ◌≢◌, ◌∙◌, ap, sym, Bool, false, List, [], some, length, take, leb,
  if◌then◌else◌,
}
use tatak_os.Disk.{Block, Disk, apply}
use tatak_os.Buffers.{nbuf}
use tatak_os.Buffers.Spec.{Cache, spec}
use tatak_os.Bcache.{Bcache, bio}
use tatak_os.Bcache.Relation.{Refines}
use tatak_os.Bcache.Init.{boot}
use tatak_os.Bcache.Linked.{boot-IsZero}
use tatak_os.Bcache.Promise.{bio-Simulates, fresh, fresh-Refines}
use tatak_os.Log.{Log, commit, recover}
use tatak_os.Log.Rounds.{idle}
use tatak_os.Log.Loops.{Apart, AllApart}
use tatak_os.Log.Recovery.{reboot}
use tatak_os.Log.Crash.{commit_atomic, updated}
use tatak_os.Log.Simulation.{commit-Sim, recover-Sim}

-- From a buffer cache `s` that holds the transaction `l.block` of process `me` pinned, and nothing
-- else in use: `commit` returns, with no panic for lack of buffers. If the machine stops after any
-- `k` of its disk writes and starts again with the cache of `binit`, recovery returns and every
-- block `a` outside the log is as before the transaction if `k` is at most the number of its blocks,
-- and as the transaction left it otherwise.
pub commit_recovers :
    (me dev : ℕ) (s : Bcache) (d v : Disk) (y : ℕ → Bool) (l : Log) (n k : ℕ)
    → dev ≢ 0
    → Refines me dev s (idle d v y l.block [])
    → 0 < length l.block
    → length l.block < nbuf
    → length l.block ≤ n
    → AllApart l.start n l.block
    → ((i : ℕ) → i ≤ n → y (l.start + i) ≡ false)
    → d l.start 0 ≡ 0
    → (a : ℕ) → Apart l.start n a
    → (t t' : Bcache) × (commit (bio me dev) l s ≡ some (record l { block = [] }, t))
      × (recover (bio me dev) l (fresh (apply (take k t.writes) d))
          ≡ some (record l { block = [] }, t'))
      × (t'.disk a ≡ (if leb k (length l.block) then d else updated l.block v d) a)
commit_recovers me dev s d v y l n k ne rel p q h apart clean empty a out =
    let (c, c', ran, again, result) = commit_atomic d v y l n k p q h apart clean empty a out in
    let (t, done, rel') =
      commit-Sim (bio me dev) (Refines me dev) (bio-Simulates me dev) l s (idle d v y l.block [])
        (record l { block = [] }) c rel ran in
    let disk = apply (take k t.writes) d in
    let (t', done', rel'') =
      recover-Sim (bio me dev) (Refines me dev) (bio-Simulates me dev) l (fresh disk) (reboot disk)
        (record l { block = [] }) c' (fresh-Refines me dev boot disk ne boot-IsZero).2
        (rw (rel'.same_writes) again) in
    (t, t', done, done', ap (λ z. z a) rel''.same_disk ∙ result)
