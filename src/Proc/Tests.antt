-- ===== src/Proc/Tests.antt =====
-- Tests of processes, and their theorems at concrete inputs: init forks a child that ends on another
-- CPU.
use tatak_os.Base.{ℕ, ◌≡◌, ◌<◌, ◌⊎◌, refl, true, false, not, ◌||◌, none, some, arith, leb, ◌==◌}
use tatak_os.Disk.{update}
use tatak_os.Proc.{
  nproc, is_sleeping, slot, Table, Services, scan, set_proc, wakeup_from, wakeup, reparent_from,
  reparent, allocpid, kill, running,
}
use tatak_os.Proc.Calls.{
  collected, free_memory, freeproc, allocproc, copy_files, fork, adopt, start, close_files,
  exit_files, exit, wait,
}
use tatak_os.Proc.System.{
  System, schedule, sched, Reach, here, next, schedules, forks, adopts, starts, exits,
}
use tatak_os.Proc.Loops.{waits_on}
use tatak_os.Proc.Family.{is_alive}
use tatak_os.Proc.Runs.{boot, parent_lives, parent_awake, one_cpu}
use tatak_os.Proc.Kill.{victim, kill_lem, kill_zero}

abbrev Nothing : Type 0
Nothing = Unit {0}

-- Memory that never runs out, and files that need no count.
abbrev services : Services Nothing
services = record {
  kalloc = λ s. (4096, s);
  kfree = λ pa s. s;
  proc_pagetable = λ page s. (8192, s);
  proc_freepagetable = λ table size s. s;
  uvmcopy = λ old new size s. (true, s);
  copy_registers = λ from to s. s;
  filedup = λ f s. s;
  fileclose = λ f s. s;
  idup = λ i s. s;
  iput = λ i s. s;
  copyout = λ table a v s. (true, s);
}

abbrev at_init : System
at_init = schedule 0 0 boot

abbrev forked : System
forked = record at_init { table = (fork services 0 at_init.table tt).1.0 }

abbrev adopted : System
adopted = record forked { table = adopt 0 1 forked.table }

abbrev started : System
started = record adopted { table = start 1 adopted.table }

abbrev both : System
both = schedule 1 1 started

both-Reach : Reach services boot both
unfolding schedule fork allocproc allocpid adopt start scan copy_files
both-Reach =
    next
      (next
        (next (next (next here (schedules 0 0 refl (omega arith))) (forks 0 0 tt refl))
          (adopts 0 0 1 refl refl))
        (starts 1 (omega arith) refl))
      (schedules 1 1 refl (omega arith))

abbrev closed : Table
closed =
    set_proc 1
      (record (both.table.procs 1) {
        ofile = (close_files services 0 16 (both.table.procs 1).ofile tt).0;
        cwd = 0;
      })
      both.table

abbrev ended : System
ended = record { table = exit 1 7 closed; current = update both.current 1 none }

ended-Reach : Reach services boot ended
unfolding schedule sched fork allocproc allocpid adopt start scan copy_files exit_files exit wakeup
    wakeup_from reparent reparent_from
ended-Reach = next both-Reach (exits 1 1 7 tt tt closed ended refl refl refl)

parent_lives_example : (0 < nproc) × (is_alive (both.table.procs 0).state ≡ true)
unfolding schedule fork allocproc allocpid adopt start scan copy_files
parent_lives_example = parent_lives services both 1 0 both-Reach (omega arith) refl

parent_awake_example : waits_on (slot 0) (ended.table.procs 0) ≡ false
unfolding schedule fork allocproc allocpid adopt start scan copy_files exit wakeup wakeup_from
    reparent reparent_from
parent_awake_example = parent_awake services ended 1 0 ended-Reach (omega arith) refl refl

one_cpu_example : (◌≡◌ {A = ℕ} 1 1) × ((both.table.procs 1).state ≡ running)
unfolding schedule fork allocproc allocpid adopt start scan copy_files
one_cpu_example = one_cpu services both 1 1 1 both-Reach refl refl

-- init collects the child, with its pid.
collects : (wait services 0 0 ended.table tt).0 ≡ collected 2
unfolding wait schedule fork allocproc allocpid adopt start scan copy_files exit wakeup wakeup_from
    reparent reparent_from freeproc free_memory
collects = refl

kill_lem_example :
    ((kill 1 boot.table).0 ≡ false)
      × ((j : ℕ) → (leb nproc j || not ((boot.table.procs j).pid == 1)) ≡ true)
      × ((kill 1 boot.table).1 ≡ boot.table)
    ⊎ ((kill 1 boot.table).0 ≡ true)
      × ((i : ℕ) × (i < nproc)
          × ((boot.table.procs i).pid ≡ 1)
          × ((kill 1 boot.table).1 ≡ set_proc i (victim (boot.table.procs i)) boot.table)
          × (is_sleeping (victim (boot.table.procs i)).state ≡ false))
kill_lem_example = kill_lem 1 boot.table

kill_zero_example :
    ((kill 0 boot.table).0 ≡ true)
    × ((allocproc services (kill 0 boot.table).1 tt).0 ≡ some 1)
    × (((allocproc services (kill 0 boot.table).1 tt).1.0.procs 1).killed ≡ true)
unfolding scan
kill_zero_example = kill_zero services boot.table tt 1 refl refl refl refl
