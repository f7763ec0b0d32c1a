-- ===== src/Log/Tests.antt =====
-- Tests of the log, and its theorems at concrete inputs: a log of 30 blocks from block 2 on, as
-- script/mkfs.c lays it out, and a transaction of the blocks 40 and 41.
use tatak_os.Base.{
  ℕ, ◌≤◌, ◌≡◌, refl, Bool, true, false, some, [], ◌∷◌, arith, length, leb, ltb, ◌==◌, if◌then◌else◌,
  take,
}
use tatak_os.Disk.{Disk, apply}
use tatak_os.Buffers.{mem}
use tatak_os.Buffers.Spec.{Cache, spec}
use tatak_os.Log.{
  Log, store_entries, load_entries, header, entries, commit, recover, initlog, log_write, begin_op,
}
use tatak_os.Log.Header.{entries-header}
use tatak_os.Log.Rounds.{idle}
use tatak_os.Log.Loops.{after}
use tatak_os.Log.Commit.{commit_writes, commit_lem}
use tatak_os.Log.Recovery.{reboot, Committed, Committed-Recoverable, recover_lem}
use tatak_os.Log.Crash.{commit_atomic, recover_again}
use tatak_os.Log.Reserve.{System, Reach, here, next, begins, boot, Distinct, log_write_fits}

abbrev old_blocks : Disk
old_blocks b j = 0

abbrev new_blocks : Disk
new_blocks b j = if ltb b 32 then 0 else b

abbrev clean : ℕ → Bool
clean b = leb 32 b

abbrev full_log : Log
full_log = record { start = 2; size = 30; outstanding = 0; committing = true; block = 40 ∷ 41 ∷ [] }

commit_lem_example :
    commit spec full_log (idle old_blocks new_blocks clean (40 ∷ 41 ∷ []) [])
    ≡ some (
      record full_log { block = [] },
      after old_blocks new_blocks clean [] [] (commit_writes new_blocks 2 (40 ∷ 41 ∷ [])),
    )
commit_lem_example =
    commit_lem old_blocks new_blocks clean [] full_log 29 (omega arith) (omega arith) (omega arith)
      (omega arith) (λ i h. ground arith)

-- The machine stops after the third write, the header: block 40 is new.
commit_atomic_example :
    (c c' : Cache) × (commit spec full_log (idle old_blocks new_blocks clean (40 ∷ 41 ∷ []) [])
      ≡ some (record full_log { block = [] }, c))
    × (recover spec full_log (reboot (apply (take 3 c.writes) old_blocks))
        ≡ some (record full_log { block = [] }, c'))
    × (c'.disk 40 ≡ new_blocks 40)
commit_atomic_example =
    commit_atomic old_blocks new_blocks clean full_log 29 3 (omega arith) (omega arith)
      (omega arith) (omega arith) (λ i h. ground arith) refl 40 (omega arith)

-- Both blocks are in the log, the header is written, and nothing is installed yet.
abbrev logged : Disk
logged b =
    if b == 2
    then header (λ j. 0) (40 ∷ 41 ∷ [])
    else if b == 3
    then new_blocks 40
    else if b == 4
    then new_blocks 41
    else old_blocks b

logged-Committed : Committed logged 2 29 (40 ∷ 41 ∷ []) new_blocks
unfolding header store_entries load_entries entries
logged-Committed = record {
  listed = refl;
  apart = omega arith;
  fits = omega arith;
  has = (refl, (refl, tt));
}

-- The recovery stops after it has installed block 40.
recover_again_example :
    (c c' : Cache) × (recover spec full_log (reboot logged)
      ≡ some (record full_log { block = [] }, c))
    × (recover spec full_log (reboot (apply (take 1 c.writes) logged))
        ≡ some (record full_log { block = [] }, c'))
    × (c'.disk 41 ≡ c.disk 41)
recover_again_example =
    recover_again logged new_blocks full_log 29 (40 ∷ 41 ∷ []) 1 logged-Committed 41 (omega arith)

entries-header_test : entries (header (λ j. 7) (40 ∷ 41 ∷ [])) ≡ 40 ∷ 41 ∷ []
unfolding header store_entries load_entries entries
entries-header_test = refl

-- What `initlog` leaves of the log after it has recovered.
initlog_test :
    (c : Cache) × (initlog spec 2 30 (reboot logged)
      ≡ some (record { start = 2; size = 30; outstanding = 0; committing = false; block = [] }, c))
unfolding initlog
initlog_test =
    let r =
      recover_lem logged (record full_log { block = []; committing = false }) 29
        (Committed-Recoverable logged-Committed) in
    (_, r)

-- One operation under way, holding the buffer of block 40.
abbrev holding : Cache
holding = record {
  disk = old_blocks;
  view = new_blocks;
  dirty = clean;
  held = 40 ∷ [];
  pinned = [];
  writes = [];
}

abbrev begun : System
begun = record {
  log = record { start = 2; size = 31; outstanding = 1; committing = false; block = [] };
  cache = holding;
  budgets = 10 ∷ [];
}

begun-Reach : Reach (boot 2 31 holding) begun
unfolding begin_op
begun-Reach = next here (begins begun.log refl)

log_write_fits_example :
    (l : Log) × (c' : Cache) × (log_write spec 40 begun.log holding ≡ some (l, c'))
    × (mem 40 l.block ≡ true)
    × (length l.block ≤ 30)
    × Distinct l.block
log_write_fits_example =
    log_write_fits 2 31 holding begun [] 9 [] 40 (omega arith) begun-Reach refl refl

entries-header_example : entries (header (λ j. 7) (40 ∷ 41 ∷ [])) ≡ 40 ∷ 41 ∷ []
entries-header_example = entries-header (λ j. 7) (40 ∷ 41 ∷ [])
