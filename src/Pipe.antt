-- ===== src/Pipe.antt =====
-- kernel/fs/pipe.c (src/kernel/fs/pipe.c in the repository): a pipe between processes.
-- `write_loop` and `read_copy` run one call's critical section from the lock to the next sleep or
-- to the return: what other processes do meanwhile is another call on the pipe that it leaves.
pub mod Ring
pub mod Transfer
pub mod Wakeups
mod Tests
use tatak_os.Base.{
  ℕ, zero, suc, ◌+◌, ◌%◌, ◌^◌, Bool, true, false, not, ◌&&◌, ◌||◌, Option, none, some, List, [],
  ◌∷◌, ◌==◌, if◌then◌else◌, get_or, set, replicate,
}

abbrev pub pipe_size : ℕ
pipe_size = 512

-- `uint` arithmetic.
abbrev pub u32 : ℕ → ℕ
u32 n = n % 2 ^ 32

-- `struct pipe`, without its lock: every function here runs with the lock held.
pub record Pipe : Type 0 where
  pub bytes : List ℕ
  pub nread : ℕ
  pub nwrite : ℕ
  pub readopen : Bool
  pub writeopen : Bool

-- The two channels that processes sleep on, `&pi->nread` and `&pi->nwrite`.
pub data Channel : Type 0 where
  readers writers : Channel

-- How a call leaves the lock: it returns its count, returns -1, or sleeps having moved `i` bytes.
pub data Outcome : Type 0 where
  returned : ℕ → Outcome
  failed : Outcome
  asleep : ℕ → Outcome

pub record Result : Type 0 where
  pub pipe : Pipe
  pub wakes : List Channel
  pub outcome : Outcome

-- The assignments of `pipealloc` to the page that `kalloc` returned.
pub init : List ℕ → Pipe
init page = record { bytes = page; nread = 0; nwrite = 0; readopen = true; writeopen = true }

pub is_empty : Pipe → Bool
is_empty p = p.nread == p.nwrite

pub is_full : Pipe → Bool
is_full p = p.nwrite == u32 (p.nread + pipe_size)

-- `pi->data[pi->nwrite++ % PIPESIZE] = ch`
pub put : Pipe → ℕ → Pipe
put p ch = record p { bytes = set p.bytes (p.nwrite % pipe_size) ch; nwrite = u32 (p.nwrite + 1) }

-- `ch = pi->data[pi->nread++ % PIPESIZE]`
pub next_byte : Pipe → ℕ
next_byte p = get_or p.bytes (p.nread % pipe_size) 0

pub advance : Pipe → Pipe
advance p = record p { nread = u32 (p.nread + 1) }

-- `pipeclose`; the second component says whether the page goes back by `kfree`.
pub close : Pipe → Bool → Result × Bool
close p writable =
    let p' = if writable then record p { writeopen = false } else record p { readopen = false } in
    let chan = if writable then readers else writers in
    (
      record { pipe = p'; wakes = chan ∷ []; outcome = returned 0 },
      not p'.readopen && not p'.writeopen,
    )

-- The user memory of the calling process, and its `killed` flag as each round of the loop reads it.
module _ (copyin : ℕ → Option ℕ) (killed : ℕ → Bool) (addr : ℕ) where
  -- The loop of `pipewrite` from `i` on, with `k` rounds left (`k = n - i`).
  pub write_loop : Pipe → ℕ → ℕ → Result
  write_loop p i zero = record { pipe = p; wakes = readers ∷ []; outcome = returned i }
  write_loop p i (suc k) = elim (not p.readopen || killed i) [
    | true ↦ record { pipe = p; wakes = []; outcome = failed }
    | false ↦ elim (is_full p) [
      | true ↦ record { pipe = p; wakes = readers ∷ []; outcome = asleep i }
      | false ↦ elim (copyin ((addr + i) % 2 ^ 64)) [
        | none ↦ record { pipe = p; wakes = readers ∷ []; outcome = returned i }
        | some ch ↦ write_loop (put p ch) (i + 1) k
      ]
    ]
  ]

  -- `pipewrite`, for a count that is not negative (a negative one runs no round, as 0 does).
  pub write : Pipe → ℕ → Result
  write p n = write_loop p 0 n

-- `copyout` as the set of addresses where it succeeds.
module _ (copyout : ℕ → Bool) (addr : ℕ) where
  -- The copying loop of `piperead` with `k` rounds left, and the bytes that it has copied out.
  pub read_copy : Pipe → ℕ → ℕ → Pipe × ℕ × List ℕ
  read_copy p i zero = (p, i, [])
  read_copy p i (suc k) = elim (is_empty p) [
    | true ↦ (p, i, [])
    | false ↦ elim (copyout ((addr + i) % 2 ^ 64)) [
      | false ↦ (advance p, i, [])
      | true ↦ let (q, j, out) = read_copy (advance p) (i + 1) k in (q, j, next_byte p ∷ out)
    ]
  ]

  -- `piperead` from the lock, at the first call or after a sleep, and the bytes delivered.
  pub read : Bool → Pipe → ℕ → Result × List ℕ
  read killed p n = elim (is_empty p && p.writeopen) [
    | true ↦ elim killed [
      | true ↦ (record { pipe = p; wakes = []; outcome = failed }, [])
      | false ↦ (record { pipe = p; wakes = []; outcome = asleep 0 }, [])
    ]
    | false ↦
        let (q, i, out) = read_copy p 0 n in
        (record { pipe = q; wakes = writers ∷ []; outcome = returned i }, out)
  ]
