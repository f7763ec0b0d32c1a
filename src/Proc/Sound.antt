-- ===== src/Proc/Sound.antt =====
-- kernel/proc.c: what holds between any two calls.
use tatak_os.Base.{
  ℕ, ◌≡◌, ◌≢◌, ◌<◌, inl, inr, refl, sym, ◌∙◌, ap, true, none, some, some-injective, arith, ◌==◌,
  Bool-cases,
}
use tatak_os.Disk.{update, update_self, update-cases}
use tatak_os.Proc.{
  nproc, nofile, ProcState, unused, used, sleeping, runnable, running, zombie, Table, Services,
  set_proc,
}
use tatak_os.Proc.Family.{IsFamily, kept-IsFamily}
use tatak_os.Proc.Running.{Continues, nobody, set-Continues}
use tatak_os.Proc.Calls.{close_files, exit_files}
use tatak_os.Proc.System.{is_runnable, is_running, System, schedule, sched}

-- The family of processes, and: a CPU's process is in the table and running, on no other CPU.
pub record IsSound (s : System) : Type 0 where
  pub family : IsFamily s.table
  pub runs : (c i : ℕ) → s.current c ≡ some i → (i < nproc) × ((s.table.procs i).state ≡ running)
  pub one : (c d i : ℕ) → s.current c ≡ some i → s.current d ≡ some i → c ≡ d

pub stay-IsSound :
    (s : System) (t : Table)
    → IsSound s
    → IsFamily t
    → Continues nobody s.table t
    → IsSound (record s { table = t })
stay-IsSound s t v f k = record {
  family = f;
  runs = λ c i e. let (l, r) = v.runs c i e in (l, k i refl r);
  one = v.one;
}

runnable_of : (p : ProcState) → is_runnable p ≡ true → p ≡ runnable
runnable_of runnable e = refl
runnable_of unused e = cc
runnable_of used e = cc
runnable_of sleeping e = cc
runnable_of running e = cc
runnable_of zombie e = cc

pub schedule-IsSound :
    (c i : ℕ) (s : System) → IsSound s → s.current c ≡ none → i < nproc → IsSound (schedule c i s)
unfolding schedule
schedule-IsSound c i s v idle lt = elim (Bool-cases (is_runnable (s.table.procs i).state)) [
  | inr e ↦ rw e v
  | inl e ↦
      let was = runnable_of _ e in
      let taken : (d j : ℕ) → some i ≡ some j → s.current d ≡ some j → ⊥ =
        λ d j y h. let r = (v.runs d j h).1 in let q = rw (← some-injective _ _ y) at r in cc in
      let p = record (s.table.procs i) { state = running } in
      rw e (record {
        family = kept-IsFamily i p s.table v.family lt refl (rw was refl) (rw was refl) (λ q. refl);
        runs = λ d j h. elim (update-cases s.current c (some i) d) [
          | inl (y, u) ↦
              let same : i ≡ j = some-injective _ _ (sym u ∙ h) in
              (rw (← same) lt, rw (← same, update_self s.table.procs i p) refl)
          | inr (n, u) ↦
              let (l, r) = v.runs d j (sym u ∙ h) in
              (l, set-Continues nobody i p s.table (λ a b. refl) j refl r)
        ];
        one = λ d d' j h h'. elim (update-cases s.current c (some i) d) [
          | inl (y, u) ↦ elim (update-cases s.current c (some i) d') [
            | inl (y', u') ↦ sym y ∙ y'
            | inr (n', u') ↦ absurd (taken d' j (sym u ∙ h) (sym u' ∙ h'))
          ]
          | inr (n, u) ↦ elim (update-cases s.current c (some i) d') [
            | inl (y', u') ↦ absurd (taken d j (sym u' ∙ h') (sym u ∙ h))
            | inr (n', u') ↦ v.one d d' j (sym u ∙ h) (sym u' ∙ h')
          ]
        ];
      })
]

sched_inv :
    (c me : ℕ) (s s' : System)
    → sched c me s ≡ some s'
    → s' ≡ record s { current = update s.current c none }
unfolding sched
sched_inv c me s s' e = elim (Bool-cases (is_running (s.table.procs me).state)) [
  | inl y ↦ absurd (let k = rw y at e in cc)
  | inr y ↦ sym (some-injective _ _ (rw y at e))
]

pub leave-IsSound :
    (c me : ℕ) (s s' : System) (t : Table)
    → IsSound s
    → s.current c ≡ some me
    → IsFamily t
    → Continues (λ j. me == j) s.table t
    → sched c me (record s { table = t }) ≡ some s'
    → IsSound s'
leave-IsSound c me s s' t v own f k e = rw (sched_inv c me (record s { table = t }) s' e) (record {
  family = f;
  runs = λ d i h. elim (update-cases s.current c none d) [
    | inl (y, u) ↦ absurd (let k = sym u ∙ h in cc)
    | inr (n, u) ↦
        let h' : s.current d ≡ some i = sym u ∙ h in
        let (l, r) = v.runs d i h' in
        let apart : me ≢ i = λ y. n (v.one c d i (own ∙ ap some y) h') in (l, k i (ground arith) r)
  ];
  one = λ d d' i h h'. elim (update-cases s.current c none d) [
    | inl (y, u) ↦ absurd (let k = sym u ∙ h in cc)
    | inr (n, u) ↦ elim (update-cases s.current c none d') [
      | inl (y', u') ↦ absurd (let k = sym u' ∙ h' in cc)
      | inr (n', u') ↦ v.one d d' i (sym u ∙ h) (sym u' ∙ h')
    ]
  ];
})

pub exit_files_inv :
    {S : Type 0} (services : Services S) (me : ℕ) (t t' : Table) (v v' : S)
    → exit_files services me t v ≡ some (t', v')
    → (me ≢ t.initproc)
      × (t'
          ≡ set_proc me
              (record (t.procs me) {
                ofile = (close_files services 0 nofile (t.procs me).ofile v).0;
                cwd = 0;
              })
              t)
unfolding exit_files
exit_files_inv services me t t' v v' e = elim (Bool-cases (me == t.initproc)) [
  | inl y ↦ absurd (let k = rw y at e in cc)
  | inr y ↦ (ground arith, sym (ap (λ x. x.0) (some-injective _ _ (rw y at e))))
]
