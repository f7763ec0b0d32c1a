-- ===== src/Proc/Fork.antt =====
-- kernel/proc.c: what allocproc and fork leave in the table.
use tatak_os.Base.{
  ℕ, ◌≡◌, ◌<◌, inl, inr, refl, ◌∙◌, ap, true, Option, none, some, ◌==◌, Option-cases,
}
use tatak_os.Disk.{update, update_self, update-update}
use tatak_os.Proc.{
  nproc, is_unused, unused, used, Proc, Table, Services, scan, set_proc, cleared, allocpid,
}
use tatak_os.Proc.Loops.{scan-some, if_cases}
use tatak_os.Proc.Calls.{freeproc, allocproc, fork}

pub set_proc-set_proc :
    (i : ℕ) (p q : Proc) (t : Table) → set_proc i p (set_proc i q t) ≡ set_proc i p t
set_proc-set_proc i p q t = ap (λ f. record t { procs = f }) (update-update t.procs i q p)

-- The slot `i` of the old table is taken, or was taken for a while: the table is the old one with
-- `p` there.
pub record Takes (t t' : Table) (i : ℕ) (p : Proc) : Type 0 where
  pub slot : i < nproc
  pub was_unused : is_unused (t.procs i).state ≡ true
  pub next : ℕ
  pub table : t' ≡ set_proc i p (record t { nextpid = next })

-- How an attempt to make a process ends, in slot `r`.
pub data Made (t : Table) (r : Option ℕ) (t' : Table) : Type 0 where
  full : r ≡ none → t' ≡ t → Made t r t'
  undone :
      (i : ℕ) (p : Proc)
      → Takes t t' i p
      → r ≡ none
      → p.state ≡ unused
      → p.parent ≡ none
      → Made t r t'
  made :
      (i : ℕ) (p : Proc)
      → Takes t t' i p
      → r ≡ some i
      → p.state ≡ used
      → p.parent ≡ (t.procs i).parent
      → p.pid ≡ t.nextpid
      → Made t r t'

module _ {S : Type 0} (services : Services S) where
  freeproc_table :
      (i : ℕ) (p : Proc) (t : Table) (s : S)
      → (freeproc services i (set_proc i p t) s).0 ≡ set_proc i (cleared p) t
  unfolding freeproc
  freeproc_table i p t s = rw (update_self t.procs i p) (set_proc-set_proc i (cleared p) p t)

  -- `freeproc` right after the slot was taken.
  undone_at :
      (t : Table) (i n : ℕ) (p : Proc) (s : S)
      → i < nproc
      → is_unused (t.procs i).state ≡ true
      → Made t none (freeproc services i (set_proc i p (record t { nextpid = n })) s).0
  undone_at t i n p s lt u =
      undone i (cleared p)
        (record {
          slot = lt;
          was_unused = u;
          next = n;
          table = freeproc_table i p (record t { nextpid = n }) s;
        })
        refl refl refl

  abbrev Leaves : Table → Option ℕ × (Table × S) → Type 0
  Leaves t r = Made t r.0 r.1.0

  pub allocproc_lem : (t : Table) (s : S) → Leaves t (allocproc services t s)
  unfolding allocproc allocpid
  allocproc_lem t s = elim (Option-cases (scan (λ p. is_unused p.state) t.procs 0 nproc)) [
    | inl e ↦ rw (allocproc, e) (full refl refl)
    | inr (i, e) ↦
        let (lo, hi, u) = scan-some (λ p. is_unused p.state) t.procs 0 nproc i e in
        rw (allocproc, e)
          (if_cases (Leaves t) ((services.kalloc s).0 == 0) (undone_at t i _ _ _ hi u) (
            if_cases (Leaves t)
              ((services.proc_pagetable (services.kalloc s).0 (services.kalloc s).1).0 == 0)
              (undone_at t i _ _ _ hi u)
              (made i _ (record { slot = hi; was_unused = u; next = _; table = refl }) refl refl
                refl refl)))
  ]

  -- Leaving the table to a later change of the slot that was taken.
  pub fork_lem : (me : ℕ) (t : Table) (s : S) → Leaves t (fork services me t s)
  unfolding fork
  fork_lem me t s = elim (allocproc_lem t s) [
    | full e q ↦ rw (fork, e) (full refl q)
    | undone i p k e a b ↦ rw (fork, e) (undone i p k refl a b)
    | made i p k e a b c ↦
        rw (fork, e, k.table)
          (let own : update t.procs i p i ≡ p = update_self t.procs i p in
            if_cases (Leaves t) _
              (made i _
                (record {
                  slot = k.slot;
                  was_unused = k.was_unused;
                  next = k.next;
                  table = set_proc-set_proc i _ p (record t { nextpid = k.next });
                })
                refl (ap (λ x. x.state) own ∙ a) (ap (λ x. x.parent) own ∙ b)
                (ap (λ x. x.pid) own ∙ c))
              (undone_at t i k.next p _ k.slot k.was_unused))
  ]
