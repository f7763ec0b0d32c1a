-- ===== src/Proc.antt =====
-- kernel/proc.c (src/kernel/proc.c in the repository): processes.
-- The table `proc[NPROC]` is a function of the slot. What the code calls outside of proc.c, for
-- memory and files, is the interface `Services`. The spinlocks are held as in the code: each
-- function runs from taking its lock to giving it back, or to giving up the CPU.
pub mod Calls
pub mod Loops
pub mod Reparent
pub mod Family
pub mod Fork
pub mod Preserve
pub mod Ends
pub mod System
pub mod Running
pub mod Sound
pub mod Runs
pub mod Kill
mod Tests
use tatak_os.Base.{
  ℕ, zero, suc, ◌+◌, ◌-◌, Bool, true, false, not, ◌&&◌, ◌||◌, Option, none, some, ltb, leb, ◌==◌,
  if◌then◌else◌,
}
use tatak_os.Disk.{update}

-- NPROC and NOFILE of include/kernel/param.h.
abbrev pub nproc : ℕ
nproc = 64

abbrev pub nofile : ℕ
nofile = 16

pub data ProcState : Type 0 where
  unused used sleeping runnable running zombie : ProcState

-- `p->chan`: null, the address of a slot of `proc`, or another address.
pub data Channel : Type 0 where
  nowhere : Channel
  slot : ℕ → Channel
  other : ℕ → Channel

-- `struct proc`, without the lock, the kernel stack, the saved context and the name. A null pointer
-- to a page, a file or an inode is 0; `parent` is a slot.
pub record Proc : Type 0 where
  pub state : ProcState
  pub chan : Channel
  pub killed : Bool
  pub xstate : ℕ
  pub pid : ℕ
  pub parent : Option ℕ
  pub size : ℕ
  pub pagetable : ℕ
  pub trapframe : ℕ
  pub ofile : ℕ → ℕ
  pub cwd : ℕ

pub record Table : Type 0 where
  pub procs : ℕ → Proc
  pub nextpid : ℕ
  pub initproc : ℕ

-- The kernel's memory and files, as proc.c calls them: 0 and `false` are failures.
pub record Services (S : Type 0) : Type 0 where
  pub kalloc : S → ℕ × S
  pub kfree : ℕ → S → S
  pub proc_pagetable : ℕ → S → ℕ × S
  pub proc_freepagetable : ℕ → ℕ → S → S
  pub uvmcopy : ℕ → ℕ → ℕ → S → Bool × S
  pub copy_registers : ℕ → ℕ → S → S
  pub filedup : ℕ → S → S
  pub fileclose : ℕ → S → S
  pub idup : ℕ → S → S
  pub iput : ℕ → S → S
  pub copyout : ℕ → ℕ → ℕ → S → Bool × S

abbrev pub is_unused : ProcState → Bool
is_unused unused = true
is_unused used = false
is_unused sleeping = false
is_unused runnable = false
is_unused running = false
is_unused zombie = false

abbrev pub is_sleeping : ProcState → Bool
is_sleeping sleeping = true
is_sleeping unused = false
is_sleeping used = false
is_sleeping runnable = false
is_sleeping running = false
is_sleeping zombie = false

abbrev pub is_zombie : ProcState → Bool
is_zombie zombie = true
is_zombie unused = false
is_zombie used = false
is_zombie sleeping = false
is_zombie runnable = false
is_zombie running = false

abbrev pub same_chan : Channel → Channel → Bool
same_chan nowhere nowhere = true
same_chan nowhere (slot j) = false
same_chan nowhere (other j) = false
same_chan (slot i) nowhere = false
same_chan (slot i) (slot j) = i == j
same_chan (slot i) (other j) = false
same_chan (other i) nowhere = false
same_chan (other i) (slot j) = false
same_chan (other i) (other j) = i == j

-- `p->parent == q`
abbrev pub is_parent : ℕ → Option ℕ → Bool
is_parent q none = false
is_parent q (some p) = p == q

-- The first slot from `i` on, for `n` slots, that passes a test.
pub scan : (Proc → Bool) → (ℕ → Proc) → ℕ → ℕ → Option ℕ
scan test ps i zero = none
scan test ps i (suc n) = let rest = scan test ps (i + 1) n in if test (ps i) then some i else rest

-- Slot `i` after a change.
abbrev pub set_proc : ℕ → Proc → Table → Table
set_proc i p t = record t { procs = update t.procs i p }

-- The assignments of `freeproc`.
abbrev pub cleared : Proc → Proc
cleared p = record p {
  trapframe = 0;
  pagetable = 0;
  size = 0;
  pid = 0;
  parent = none;
  chan = nowhere;
  killed = false;
  xstate = 0;
  state = unused;
}

-- One round of `wakeup`, run by the process in slot `me`, if any.
abbrev pub wake : Option ℕ → Channel → ℕ → Proc → Proc
wake me ch i p =
    if not (is_parent i me) && (is_sleeping p.state && same_chan p.chan ch)
    then record p { state = runnable }
    else p

-- The loop of `wakeup` from slot `i` on, for `n` slots.
pub wakeup_from : Option ℕ → Channel → ℕ → ℕ → (ℕ → Proc) → ℕ → Proc
wakeup_from me ch i zero ps = ps
wakeup_from me ch i (suc n) ps = wakeup_from me ch (i + 1) n (update ps i (wake me ch i (ps i)))

pub wakeup : Option ℕ → Channel → Table → Table
wakeup me ch t = record t { procs = wakeup_from me ch 0 nproc t.procs }

-- The loop of `reparent` for the process in slot `me`.
pub reparent_from : ℕ → ℕ → ℕ → Table → Table
reparent_from me i zero t = t
reparent_from me i (suc n) t = reparent_from me (i + 1) n (
    if is_parent me (t.procs i).parent
    then wakeup (some me) (slot t.initproc)
        (set_proc i (record (t.procs i) { parent = some t.initproc }) t)
    else t)

pub reparent : ℕ → Table → Table
reparent me t = reparent_from me 0 nproc t

-- `allocpid`: an `int`, as its 32 bits.
pub allocpid : Table → ℕ × Table
allocpid t =
    (t.nextpid, record t { nextpid = if t.nextpid + 1 == 4294967296 then 0 else t.nextpid + 1 })

-- The loop of `kill`.
pub kill : ℕ → Table → Bool × Table
kill pid t = elim (scan (λ p. p.pid == pid) t.procs 0 nproc) [
  | none ↦ (false, t)
  | some i ↦
      let p = t.procs i in
      (
        true,
        set_proc i
            (record p { killed = true; state = if is_sleeping p.state then runnable else p.state })
            t,
      )
]

-- `sched` is left for the scheduler: `sleep` and `yield` up to there.
pub sleep : ℕ → Channel → Table → Table
sleep me ch t = set_proc me (record (t.procs me) { chan = ch; state = sleeping }) t

-- The rest of `sleep`, once the process runs again.
pub wake_up : ℕ → Table → Table
wake_up me t = set_proc me (record (t.procs me) { chan = nowhere }) t

pub yield : ℕ → Table → Table
yield me t = set_proc me (record (t.procs me) { state = runnable }) t
