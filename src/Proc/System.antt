-- ===== src/Proc/System.antt =====
-- kernel/proc.c: the scheduler, and processes that run on several CPUs.
use tatak_os.Base.{ℕ, ◌≡◌, ◌≢◌, ◌<◌, Bool, true, false, Option, none, some, if◌then◌else◌}
use tatak_os.Disk.{update}
use tatak_os.Proc.{
  nproc, Channel, other, ProcState, unused, used, sleeping, runnable, running, zombie, Table,
  Services, set_proc, wakeup, kill, sleep, wake_up, yield,
}
use tatak_os.Proc.Calls.{sleeps, fork, adopt, start, exit_files, exit, wait}

abbrev pub is_runnable : ProcState → Bool
is_runnable runnable = true
is_runnable unused = false
is_runnable used = false
is_runnable sleeping = false
is_runnable running = false
is_runnable zombie = false

abbrev pub is_running : ProcState → Bool
is_running running = true
is_running unused = false
is_running used = false
is_running sleeping = false
is_running runnable = false
is_running zombie = false

-- The table, and the slot of `c->proc` for each CPU.
pub record System : Type 0 where
  pub table : Table
  pub current : ℕ → Option ℕ

-- The body of the loop of `scheduler`, by CPU `c` at slot `i`, up to the switch.
unfoldable pub schedule : ℕ → ℕ → System → System
schedule c i s =
    let p = s.table.procs i in
    if is_runnable p.state
    then record {
      table = set_proc i (record p { state = running }) s.table;
      current = update s.current c (some i);
    }
    else s

-- `sched` by the process in slot `me` on CPU `c`: the panic on its state, and the switch.
unfoldable pub sched : ℕ → ℕ → System → Option System
sched c me s =
    if is_running (s.table.procs me).state
    then none
    else some (record s { current = update s.current c none })

-- One call by one CPU. A call that gives up the CPU ends in `sched`.
module _ {S : Type 0} (services : Services S) where
  pub data Step (s : System) : System → Type 0 where
    schedules : (c i : ℕ) → s.current c ≡ none → i < nproc → Step s (schedule c i s)
    yields :
        (c me : ℕ) (s' : System)
        → s.current c ≡ some me
        → sched c me (record s { table = yield me s.table }) ≡ some s'
        → Step s s'
    -- On an address outside of the table, such as a pipe's.
    sleeps_on :
        (c me n : ℕ) (s' : System)
        → s.current c ≡ some me
        → sched c me (record s { table = sleep me (other n) s.table }) ≡ some s'
        → Step s s'
    wakes_up : (c me : ℕ) → s.current c ≡ some me → Step s (record s { table = wake_up me s.table })
    wakes : (me : Option ℕ) (ch : Channel) → Step s (record s { table = wakeup me ch s.table })
    kills : (pid : ℕ) → Step s (record s { table = (kill pid s.table).1 })
    forks :
        (c me : ℕ) (v : S)
        → s.current c ≡ some me
        → Step s (record s { table = (fork services me s.table v).1.0 })
    adopts :
        (c me i : ℕ)
        → s.current c ≡ some me
        → (s.table.procs i).state ≡ used
        → Step s (record s { table = adopt me i s.table })
    starts :
        (i : ℕ)
        → i < nproc
        → (s.table.procs i).state ≡ used
        → Step s (record s { table = start i s.table })
    exits :
        (c me status : ℕ) (v v' : S) (t : Table) (s' : System)
        → s.current c ≡ some me
        → exit_files services me s.table v ≡ some (t, v')
        → sched c me (record s { table = exit me status t }) ≡ some s'
        → Step s s'
    waits :
        (c me addr : ℕ) (v : S)
        → s.current c ≡ some me
        → (wait services me addr s.table v).0 ≢ sleeps
        → Step s (record s { table = (wait services me addr s.table v).1.0 })
    waits_asleep :
        (c me addr : ℕ) (v : S) (s' : System)
        → s.current c ≡ some me
        → (wait services me addr s.table v).0 ≡ sleeps
        → sched c me (record s { table = (wait services me addr s.table v).1.0 }) ≡ some s'
        → Step s s'

  pub data Reach (s : System) : System → Type 0 where
    here : Reach s s
    next : {t u : System} → Reach s t → Step t u → Reach s u
