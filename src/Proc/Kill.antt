-- ===== src/Proc/Kill.antt =====
-- kernel/proc.c: kill, and what it does at a free slot.
use tatak_os.Base.{
  not, ◌||◌, leb, ℕ, zero, suc, ◌+◌, ◌≡◌, ◌<◌, ◌⊎◌, inl, inr, refl, ◌∙◌, ap, Bool, true, false,
  some, arith, ◌==◌, if◌then◌else◌, Bool-cases, Option-cases,
}
use tatak_os.Disk.{update, update_self, update-cases}
use tatak_os.Proc.{
  nproc, is_unused, is_sleeping, runnable, Proc, Table, Services, scan, set_proc, allocpid, kill,
}
use tatak_os.Proc.Loops.{scan-some, scan-none}
use tatak_os.Proc.Calls.{allocproc}

-- The process that `kill` finds.
abbrev pub victim : Proc → Proc
victim p = record p { killed = true; state = if is_sleeping p.state then runnable else p.state }

-- `kill` fails exactly when no process in the table has the pid, and then changes nothing.
-- Otherwise it changes one process that has it, which is marked and does not sleep afterwards.
pub kill_lem :
    (pid : ℕ) (t : Table)
    → ((kill pid t).0 ≡ false)
        × ((j : ℕ) → (leb nproc j || not ((t.procs j).pid == pid)) ≡ true)
        × ((kill pid t).1 ≡ t)
      ⊎ ((kill pid t).0 ≡ true)
        × ((i : ℕ) × (i < nproc)
            × ((t.procs i).pid ≡ pid)
            × ((kill pid t).1 ≡ set_proc i (victim (t.procs i)) t)
            × (is_sleeping (victim (t.procs i)).state ≡ false))
unfolding kill
kill_lem pid t = elim (Option-cases (scan (λ p. p.pid == pid) t.procs 0 nproc)) [
  | inl e ↦
      rw (kill, e)
        (inl (
          refl,
          (λ j. elim (Bool-cases (leb nproc j)) [
            | inl y ↦ rw y refl
            | inr y ↦
                rw
                  (
                    y,
                    scan-none (λ p. p.pid == pid) t.procs 0 nproc j e (omega arith) (ground arith),
                  )
                  refl
          ]),
          refl,
        ))
  | inr (i, e) ↦
      let (lo, hi, h) = scan-some (λ p. p.pid == pid) t.procs 0 nproc i e in
      rw (kill, e) (inr (refl, (i, hi, ground arith, refl, ground arith)))
]

kill_at :
    (pid : ℕ) (t : Table) (i : ℕ)
    → scan (λ p. p.pid == pid) t.procs 0 nproc ≡ some i
    → kill pid t ≡ (true, set_proc i (victim (t.procs i)) t)
unfolding kill
kill_at pid t i e = rw (kill, e) refl

allocproc_at :
    {S : Type 0} (services : Services S) (t : Table) (s : S) (i : ℕ)
    → scan (λ p. is_unused p.state) t.procs 0 nproc ≡ some i
    → ((services.kalloc s).0 == 0) ≡ false
    → ((services.proc_pagetable (services.kalloc s).0 (services.kalloc s).1).0 == 0) ≡ false
    → ((allocproc services t s).0 ≡ some i)
      × (((allocproc services t s).1.0.procs i).killed ≡ (t.procs i).killed)
unfolding allocproc allocpid
allocproc_at services t s i e page table = rw (allocproc, e, page, table) (refl, ground arith)

victim_unused : (p : Proc) → is_unused (victim p).state ≡ is_unused p.state
victim_unused p = ground arith

scan-same :
    (test : Proc → Bool) (ps qs : ℕ → Proc) (i n : ℕ)
    → ((j : ℕ) → test (ps j) ≡ test (qs j))
    → scan test ps i n ≡ scan test qs i n
unfolding scan
scan-same test ps qs i zero h = refl
scan-same test ps qs i (suc n) h = rw (h i, scan-same test ps qs (i + 1) n h) refl

still_unused :
    (t : Table) (i j : ℕ)
    → is_unused (update t.procs i (victim (t.procs i)) j).state ≡ is_unused (t.procs j).state
still_unused t i j = elim (update-cases t.procs i (victim (t.procs i)) j) [
  | inl (y, u) ↦ rw u (rw (← y) (victim_unused (t.procs i)))
  | inr (n, u) ↦ rw u refl
]

-- `kill` with the pid 0, which no process has, when the first free slot is `i`: the call succeeds,
-- marks this slot as killed, and the next process that `allocproc` makes starts out killed.
pub kill_zero :
    {S : Type 0} (services : Services S) (t : Table) (s : S) (i : ℕ)
    → scan (λ p. is_unused p.state) t.procs 0 nproc ≡ some i
    → scan (λ p. p.pid == 0) t.procs 0 nproc ≡ some i
    → ((services.kalloc s).0 == 0) ≡ false
    → ((services.proc_pagetable (services.kalloc s).0 (services.kalloc s).1).0 == 0) ≡ false
    → ((kill 0 t).0 ≡ true)
      × ((allocproc services (kill 0 t).1 s).0 ≡ some i)
      × (((allocproc services (kill 0 t).1 s).1.0.procs i).killed ≡ true)
kill_zero services t s i free zero_pid page table =
    let t' = set_proc i (victim (t.procs i)) t in
    let still =
      scan-same (λ p. is_unused p.state) t'.procs t.procs 0 nproc (still_unused t i) ∙ free in
    let (got, kept) = allocproc_at services t' s i still page table in
    rw (kill_at 0 t i zero_pid)
      (refl, got, kept ∙ ap (λ p. p.killed) (update_self t.procs i (victim (t.procs i))))
