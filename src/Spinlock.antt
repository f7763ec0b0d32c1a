-- ===== src/Spinlock.antt =====
-- kernel/spinlock.c (src/kernel/spinlock.c in the repository): spinlocks, and the nesting of
-- interrupts that are off. Every function is run by a CPU, which `mycpu()` gives.
pub mod Steps
pub mod Nesting
pub mod Runs
pub mod Interrupts
mod Tests
use tatak_os.Base.{
  ℕ, suc, ◌+◌, ◌-◌, Bool, true, false, not, ◌&&◌, ◌||◌, Option, none, some, ltb, ◌==◌,
  if◌then◌else◌,
}
use tatak_os.Disk.{update}

-- `struct spinlock` without its name: `cpu` is 0 for none, and `c + 1` for CPU `c`.
pub record Spinlock : Type 0 where
  pub locked : Bool
  pub cpu : ℕ

-- The fields of `struct cpu` that count, and whether the CPU takes interrupts.
pub record Cpu : Type 0 where
  pub noff : ℕ
  pub intena : Bool
  pub interrupts : Bool

pub initlock : Spinlock
initlock = record { locked = false; cpu = 0 }

pub push_off : Cpu → Cpu
push_off c = record {
  noff = c.noff + 1;
  intena = if c.noff == 0 then c.interrupts else c.intena;
  interrupts = false;
}

-- `none` is one of its two panics.
pub pop_off : Cpu → Option Cpu
pop_off c =
    if c.interrupts || ltb c.noff 1
    then none
    else some
        (record c { noff = c.noff - 1; interrupts = c.noff - 1 == 0 && c.intena || c.interrupts })

pub holding : ℕ → Spinlock → Bool
holding me l = l.locked && (l.cpu == suc me)

-- All CPUs and all locks, by their numbers.
pub record Machine : Type 0 where
  pub cpus : ℕ → Cpu
  pub locks : ℕ → Spinlock

pub data Outcome : Type 0 where
  panics : Outcome
  -- The swap found the lock taken: the CPU goes round the loop again, with interrupts off.
  spins : Machine → Outcome
  done : Machine → Outcome

module _ (me i : ℕ) (m : Machine) where
  -- `acquire` of lock `i` up to its first swap.
  pub acquire : Outcome
  acquire =
      let cpus = update m.cpus me (push_off (m.cpus me)) in
      if holding me (m.locks i)
      then panics
      else if (m.locks i).locked
      then spins (record m { cpus = cpus })
      else done (record {
        cpus = cpus;
        locks = update m.locks i (record { locked = true; cpu = suc me });
      })

  -- A later round of the loop.
  pub spin : Outcome
  spin =
      if (m.locks i).locked
      then spins m
      else done (record m { locks = update m.locks i (record { locked = true; cpu = suc me }) })

  pub release : Outcome
  release =
      if holding me (m.locks i)
      then elim (pop_off (m.cpus me)) [
        | none ↦ panics
        | some c ↦ done (record {
          cpus = update m.cpus me c;
          locks = update m.locks i (record { locked = false; cpu = 0 });
        })
      ]
      else panics
