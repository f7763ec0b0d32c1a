-- ===== src/Proc/Calls.antt =====
-- kernel/proc.c: the functions that create, end and collect processes.
use tatak_os.Base.{ℕ, zero, suc, ◌+◌, true, ◌&&◌, Option, none, some, ◌==◌, if◌then◌else◌}
use tatak_os.Proc.{
  nproc, nofile, Channel, nowhere, used, runnable, zombie, slot, Proc, Table, Services, is_unused,
  is_zombie, is_parent, scan, set_proc, cleared, wakeup, reparent, allocpid, sleep,
}

-- How `wait` ends, once round its loop.
pub data Waited : Type 0 where
  -- The pid of the child, or -1.
  collected : ℕ → Waited
  failed : Waited
  sleeps : Waited

-- The address of a slot, or null.
abbrev pub address : Option ℕ → Channel
address none = nowhere
address (some q) = slot q

-- The rest of `fork`, under `wait_lock` and then under the child's lock again.
unfoldable pub adopt : ℕ → ℕ → Table → Table
adopt me i t = set_proc i (record (t.procs i) { parent = some me }) t

unfoldable pub start : ℕ → Table → Table
start i t = set_proc i (record (t.procs i) { state = runnable }) t

-- The rest of `exit`, up to `sched`.
unfoldable pub exit : ℕ → ℕ → Table → Table
exit me status t =
    let t1 = reparent me t in
    let t2 = wakeup (some me) (address (t1.procs me).parent) t1 in
    set_proc me (record (t2.procs me) { xstate = status; state = zombie }) t2

module _ {S : Type 0} (services : Services S) where
  open services use {
    kalloc, kfree, proc_pagetable, proc_freepagetable, uvmcopy, copy_registers, filedup, fileclose,
    idup, iput, copyout,
  }

  -- What `freeproc` gives back.
  unfoldable pub free_memory : Proc → S → S
  free_memory p s =
      let s1 = if p.trapframe == 0 then s else kfree p.trapframe s in
      if p.pagetable == 0 then s1 else proc_freepagetable p.pagetable p.size s1

  unfoldable pub freeproc : ℕ → Table → S → Table × S
  freeproc i t s = (set_proc i (cleared (t.procs i)) t, free_memory (t.procs i) s)

  -- `allocproc`: the slot, if any.
  unfoldable pub allocproc : Table → S → Option ℕ × (Table × S)
  allocproc t s = elim (scan (λ p. is_unused p.state) t.procs 0 nproc) [
    | none ↦ (none, (t, s))
    | some i ↦
        let (pid, t1) = allocpid t in
        let (page, s1) = kalloc s in
        let p1 = record (t1.procs i) { pid = pid; state = used; trapframe = page } in
        let (table, s2) = proc_pagetable page s1 in
        let p2 = record p1 { pagetable = table } in
        if page == 0
        then (none, freeproc i (set_proc i p1 t1) s1)
        else if table == 0
        then (none, freeproc i (set_proc i p2 t1) s2)
        else (some i, (set_proc i p2 t1, s2))
  ]

  -- The loop of `fork` over the open files.
  unfoldable pub copy_files : (ℕ → ℕ) → ℕ → ℕ → (ℕ → ℕ) → S → (ℕ → ℕ) × S
  copy_files from fd zero to s = (to, s)
  copy_files from fd (suc n) to s =
      let f = from fd in
      copy_files from (fd + 1) n (if f == 0 then to else λ j. if fd == j then f else to j)
        (if f == 0 then s else filedup f s)

  -- `fork` by the process in slot `me`, up to the release of the child's lock: the child's slot.
  unfoldable pub fork : ℕ → Table → S → Option ℕ × (Table × S)
  fork me t s =
      let (child, (t1, s1)) = allocproc t s in
      elim child [
        | none ↦ (none, (t1, s1))
        | some i ↦
            let p = t1.procs me in
            let np = t1.procs i in
            let (ok, s2) = uvmcopy p.pagetable np.pagetable p.size s1 in
            let (files, s3) =
              copy_files p.ofile 0 nofile np.ofile (copy_registers p.trapframe np.trapframe s2) in
            let np1 = record np { size = p.size; ofile = files; cwd = p.cwd } in
            if ok then (some i, (set_proc i np1 t1, idup p.cwd s3)) else (none, freeproc i t1 s2)
      ]

  -- The loop of `exit` over the open files.
  unfoldable pub close_files : ℕ → ℕ → (ℕ → ℕ) → S → (ℕ → ℕ) × S
  close_files fd zero fs s = (fs, s)
  close_files fd (suc n) fs s =
      let f = fs fd in
      close_files (fd + 1) n (if f == 0 then fs else λ j. if fd == j then 0 else fs j)
        (if f == 0 then s else fileclose f s)

  -- `exit` up to `wait_lock`: `none` is the panic.
  unfoldable pub exit_files : ℕ → Table → S → Option (Table × S)
  exit_files me t s =
      let p = t.procs me in
      let (files, s1) = close_files 0 nofile p.ofile s in
      if me == t.initproc
      then none
      else some (set_proc me (record p { ofile = files; cwd = 0 }) t, iput p.cwd s1)

  -- `wait`, once round its loop. A child that is no zombie only counts for `havekids`.
  unfoldable pub wait : ℕ → ℕ → Table → S → Waited × (Table × S)
  wait me addr t s = elim (scan (λ p. is_parent me p.parent && is_zombie p.state) t.procs 0 nproc) [
    | some i ↦
        let np = t.procs i in
        let (ok, s1) =
          if addr == 0 then (true, s) else copyout (t.procs me).pagetable addr np.xstate s in
        if ok then (collected np.pid, freeproc i t s1) else (failed, (t, s1))
    | none ↦ elim (scan (λ p. is_parent me p.parent) t.procs 0 nproc) [
      | none ↦ (failed, (t, s))
      | some i ↦
          if (t.procs me).killed then (failed, (t, s)) else (sleeps, (sleep me (slot me) t, s))
    ]
  ]
