-- ===== src/Log.antt =====
-- kernel/fs/log.c (src/kernel/fs/log.c in the repository): the write-ahead log of the file system.
-- The code runs over the interface `Ops` of the buffer cache.
pub mod Rounds
pub mod Header
pub mod Loops
pub mod Places
pub mod Commit
pub mod Recovery
pub mod Crash
pub mod Reserve
pub mod Simulation
mod Tests
use tatak_os.Base.{
  ℕ, zero, suc, ◌+◌, ◌-◌, ◌*◌, Bool, true, false, not, ◌&&◌, ◌||◌, Option, none, some, List, [],
  ◌∷◌, ◌++◌, ltb, leb, ◌==◌, if◌then◌else◌, length,
}
use tatak_os.Disk.{Block, update}
use tatak_os.Buffers.{M, ◌>>=◌, ◌>>◌, pure, Ops, mem}

-- LOGSIZE and MAXOPBLOCKS of include/kernel/param.h.
abbrev pub log_size : ℕ
log_size = 30

abbrev pub max_op_blocks : ℕ
max_op_blocks = 10

-- `struct log` with its header: `block` holds the first `lh.n` entries of `lh.block`.
pub record Log : Type 0 where
  pub start : ℕ
  pub size : ℕ
  pub outstanding : ℕ
  pub committing : Bool
  pub block : List ℕ

-- The header block as the code lays it over `buf->data`: word 0 is `n`, the entries follow.
pub store_entries : Block → ℕ → List ℕ → Block
store_entries x i [] = x
store_entries x i (b ∷ bs) = store_entries (update x (i + 1) b) (i + 1) bs

pub load_entries : Block → ℕ → ℕ → List ℕ
load_entries x i zero = []
load_entries x i (suc k) = x (i + 1) ∷ load_entries x (i + 1) k

pub header : Block → List ℕ → Block
header x bs = store_entries (update x 0 (length bs)) 0 bs

pub entries : Block → List ℕ
entries x = load_entries x 0 (x 0)

module _ {S : Type 0} (ops : Ops S) where
  open ops use {bread, fill, bwrite, brelse, bpin, bunpin}

  -- `write_head`, for a log that starts at block `start` and holds the entries `bs`.
  pub write_head : ℕ → List ℕ → M S (Unit {0})
  write_head start bs = do x ← bread start; fill start (header x bs); bwrite start; brelse start

  pub read_head : ℕ → M S (List ℕ)
  read_head start = do x ← bread start; brelse start; pure (entries x)

  -- One round of `install_trans`: log block `l` goes to its home `b`.
  pub install_block : Bool → ℕ → ℕ → M S (Unit {0})
  install_block recovering l b = do
    x ← bread l
    bread b >>= λ _. fill b x
    bwrite b
    (if recovering then pure tt else bunpin b)
    brelse l
    brelse b

  -- `install_trans` from `tail` on; `start + tail + 1` is the log block.
  pub install_trans : Bool → ℕ → ℕ → List ℕ → M S (Unit {0})
  install_trans recovering start tail [] = pure tt
  install_trans recovering start tail (b ∷ bs) = do
    install_block recovering (start + tail + 1) b
    install_trans recovering start (tail + 1) bs

  -- One round of `write_log`: block `b` of the cache goes to log block `l`.
  pub log_block : ℕ → ℕ → M S (Unit {0})
  log_block l b = do bread l >>= λ _. pure tt; x ← bread b; fill l x; bwrite l; brelse b; brelse l

  pub write_log : ℕ → ℕ → List ℕ → M S (Unit {0})
  write_log start tail [] = pure tt
  write_log start tail (b ∷ bs) = do log_block (start + tail + 1) b; write_log start (tail + 1) bs

  -- `commit`: the log afterwards.
  pub commit : Log → M S Log
  commit l = elim (ltb 0 (length l.block)) [
    | false ↦ pure l
    | true ↦ do
      write_log l.start 0 l.block
      write_head l.start l.block
      install_trans false l.start 0 l.block
      write_head l.start []
      pure (record l { block = [] })
  ]

  -- `recover_from_log`, and `initlog` with the superblock's `logstart` and `nlog`.
  pub recover : Log → M S Log
  recover l = do
    bs ← read_head l.start
    install_trans true l.start 0 bs
    write_head l.start []
    pure (record l { block = [] })

  pub initlog : ℕ → ℕ → M S Log
  initlog logstart nlog =
      recover
        (record { start = logstart; size = nlog; outstanding = 0; committing = false; block = [] })

  -- `log_write`: `none` is one of its two panics.
  pub log_write : ℕ → Log → M S Log
  log_write b l =
      elim (leb log_size (length l.block)
        || leb (l.size - 1) (length l.block)
        || ltb l.outstanding 1) [
          | true ↦ λ s. none
          | false ↦ elim (mem b l.block) [
            | true ↦ pure l
            | false ↦ do bpin b; pure (record l { block = l.block ++ (b ∷ []) })
          ]
        ]

-- `begin_op` with the lock held, once round its loop: `none` is a sleep on the log.
pub begin_op : Log → Option Log
begin_op l =
    if l.committing
    then none
    else if ltb log_size (length l.block + (l.outstanding + 1) * max_op_blocks)
    then none
    else some (record l { outstanding = l.outstanding + 1 })

-- `end_op` up to the release of the lock, for a log with an operation under way.
pub data Ended : Type 0 where
  commits : Log → Ended
  wakes : Log → Ended
  panics : Ended

pub end_op : Log → Ended
end_op l =
    if l.committing
    then panics
    else if l.outstanding - 1 == 0
    then commits (record l { outstanding = l.outstanding - 1; committing = true })
    else wakes (record l { outstanding = l.outstanding - 1 })

-- `end_op` after its `commit`.
pub end_commit : Log → Log
end_commit l = record l { committing = false }
