-- ===== src/Proc/Runs.antt =====
-- kernel/proc.c: every sequence of calls on every CPU.
use tatak_os.Base.{
  ℕ, ◌≡◌, ◌<◌, inl, inr, refl, sym, ◌∙◌, true, false, none, some, arith, ◌==◌, if◌then◌else◌,
}
use tatak_os.Proc.{
  nproc, nofile, nowhere, slot, other, unused, runnable, running, zombie, Proc, Services, set_proc,
  wakeup,
}
use tatak_os.Proc.Loops.{waits_on, wakeup-IsWoken}
use tatak_os.Proc.Family.{is_alive, kept-IsFamily, wakeup-IsFamily}
use tatak_os.Proc.Fork.{fork_lem}
use tatak_os.Proc.Preserve.{Made-IsFamily, adopt-IsFamily, start-IsFamily}
use tatak_os.Proc.Ends.{
  exit-IsFamily, kill-IsFamily, yield-IsFamily, sleep-IsFamily, wake_up-IsFamily, wait-IsFamily,
}
use tatak_os.Proc.Running.{
  yield-Continues, sleep-Continues, wake_up-Continues, adopt-Continues, start-Continues, nobody,
  set-Continues, woken-Continues, kill-Continues, Made-Continues, exit-Continues, wait-Continues,
}
use tatak_os.Proc.Calls.{close_files, exit}
use tatak_os.Proc.System.{
  System, Step, schedules, yields, sleeps_on, wakes_up, wakes, kills, forks, adopts, starts, exits,
  waits, waits_asleep, Reach, here, next,
}
use tatak_os.Proc.Sound.{IsSound, stay-IsSound, schedule-IsSound, leave-IsSound, exit_files_inv}

-- The table after `userinit`: slot 0 holds the first process, with pid 1, and the others are zero.
abbrev pub blank : Proc
blank = record {
  state = unused;
  chan = nowhere;
  killed = false;
  xstate = 0;
  pid = 0;
  parent = none;
  size = 0;
  pagetable = 0;
  trapframe = 0;
  ofile = λ fd. 0;
  cwd = 0;
}

abbrev pub boot : System
boot = record {
  table = record {
    procs = λ i. if i == 0 then record blank { state = runnable; pid = 1; size = 4096 } else blank;
    nextpid = 2;
    initproc = 0;
  };
  current = λ c. none;
}

boot_parent : (i : ℕ) → (boot.table.procs i).parent ≡ none
boot_parent i = ground arith

boot-IsSound : IsSound boot
boot-IsSound = record {
  family = record {
    init_slot = omega arith;
    init_alive = refl;
    parent_alive = λ i q lt e. absurd (let k = sym (boot_parent i) ∙ e in cc);
    told = λ i q lt e z. absurd (let k = sym (boot_parent i) ∙ e in cc);
  };
  runs = λ c i e. absurd (cc);
  one = λ c d i e f. absurd (cc);
}

module _ {S : Type 0} (services : Services S) where
  Step-IsSound : (s t : System) → Step services s t → IsSound s → IsSound t
  Step-IsSound s t (schedules c i e lt) v = schedule-IsSound c i s v e lt
  Step-IsSound s t (yields c me s' own e) v =
      let (lt, r) = v.runs c me own in
      leave-IsSound c me s t _ v own (yield-IsFamily me s.table v.family lt r)
        (yield-Continues me s.table) e
  Step-IsSound s t (sleeps_on c me n s' own e) v =
      let (lt, r) = v.runs c me own in
      leave-IsSound c me s t _ v own (sleep-IsFamily me n s.table v.family lt r)
        (sleep-Continues me (other n) s.table) e
  Step-IsSound s t (wakes_up c me own) v =
      let (lt, r) = v.runs c me own in
      stay-IsSound s _ v (wake_up-IsFamily me s.table v.family lt r) (wake_up-Continues me s.table)
  Step-IsSound s t (wakes me ch) v =
      stay-IsSound s (wakeup me ch s.table) v (wakeup-IsFamily me ch s.table v.family)
        (woken-Continues nobody s.table (wakeup me ch s.table) (wakeup-IsWoken me ch s.table))
  Step-IsSound s t (kills pid) v =
      stay-IsSound s _ v (kill-IsFamily pid s.table v.family) (kill-Continues pid s.table)
  Step-IsSound s t (forks c me w own) v =
      let m = fork_lem services me s.table w in
      stay-IsSound s _ v (Made-IsFamily _ _ _ m v.family) (Made-Continues _ _ _ m)
  Step-IsSound s t (adopts c me i own e) v =
      let (lt, r) = v.runs c me own in
      stay-IsSound s _ v (adopt-IsFamily me i s.table v.family lt r e)
        (adopt-Continues me i s.table)
  Step-IsSound s t (starts i lt e) v =
      stay-IsSound s _ v (start-IsFamily i s.table v.family lt e) (start-Continues i s.table e)
  Step-IsSound s t (exits c me status w w' t1 s' own e f) v =
      let (lt, r) = v.runs c me own in
      let (ne, q) = exit_files_inv services me s.table t1 w w' e in
      let p = record (s.table.procs me) {
        ofile = (close_files services 0 nofile (s.table.procs me).ofile w).0;
        cwd = 0;
      } in
      let t2 = set_proc me p s.table in
      let closed = kept-IsFamily me p s.table v.family lt refl refl refl (λ h. h) in
      let same = set-Continues nobody me p s.table (λ a h. h) in
      let ends = exit-Continues me status t2 v.family.init_slot ne in
      leave-IsSound c me s t (exit me status t2) v own (exit-IsFamily me status t2 closed lt ne)
        (λ j a h. ends j a (same j refl h)) (rw q at f)
  Step-IsSound s t (waits c me addr w own e) v =
      let (lt, r) = v.runs c me own in
      stay-IsSound s _ v (wait-IsFamily services me addr s.table w v.family lt r)
        (wait-Continues services me addr s.table w nobody (inl e))
  Step-IsSound s t (waits_asleep c me addr w s' own e f) v =
      let (lt, r) = v.runs c me own in
      leave-IsSound c me s t _ v own (wait-IsFamily services me addr s.table w v.family lt r)
        (wait-Continues services me addr s.table w (λ j. me == j) (inr (ground arith))) f

  Reach-IsSound : (s t : System) → Reach services s t → IsSound s → IsSound t
  Reach-IsSound s t here v = v
  Reach-IsSound s t (next {t = u} r st) v = Step-IsSound u t st (Reach-IsSound s u r v)

  -- In every run from the first process on: the parent of a process is a process that has not ended.
  -- So no slot is free for another process while one has it for a parent.
  pub parent_lives :
      (s : System) (i q : ℕ)
      → Reach services boot s
      → i < nproc
      → (s.table.procs i).parent ≡ some q
      → (q < nproc) × (is_alive (s.table.procs q).state ≡ true)
  parent_lives s i q r lt e = (Reach-IsSound boot s r boot-IsSound).family.parent_alive i q lt e

  -- In every such run: while a process has a child that has ended, it does not sleep in `wait`, no
  -- matter how calls of exit, wait, kill, wakeup and fork by all CPUs are ordered, and also when
  -- the child came to init from a parent that ended first.
  pub parent_awake :
      (s : System) (i q : ℕ)
      → Reach services boot s
      → i < nproc
      → (s.table.procs i).parent ≡ some q
      → (s.table.procs i).state ≡ zombie
      → waits_on (slot q) (s.table.procs q) ≡ false
  parent_awake s i q r lt e z =
      (Reach-IsSound boot s r boot-IsSound).family.told i q lt e (rw z refl)

  -- In every such run: the process of a CPU is running, and it is no other CPU's.
  pub one_cpu :
      (s : System) (c d i : ℕ)
      → Reach services boot s
      → s.current c ≡ some i
      → s.current d ≡ some i
      → (c ≡ d) × ((s.table.procs i).state ≡ running)
  one_cpu s c d i r e f =
      let v = Reach-IsSound boot s r boot-IsSound in (v.one c d i e f, (v.runs c i e).1)
