-- ===== src/Proc/Running.antt =====
-- kernel/proc.c: which processes run, and on which CPU.
use tatak_os.Base.{
  ℕ, ◌≡◌, ◌≢◌, ◌<◌, ◌⊎◌, inl, inr, refl, ◌∙◌, Bool, true, false, ◌&&◌, Option, some, arith, ◌==◌,
  Option-cases,
}
use tatak_os.Disk.{update-cases}
use tatak_os.Proc.{
  nproc, is_zombie, is_parent, Channel, slot, used, running, zombie, Proc, Table, Services, scan,
  set_proc, cleared, wakeup, reparent, kill, sleep, wake_up, yield,
}
use tatak_os.Proc.Loops.{IsWoken, scan-some, wakeup-IsWoken, if_cases}
use tatak_os.Proc.Reparent.{reparent_lem}
use tatak_os.Proc.Fork.{Made, full, undone, made}
use tatak_os.Proc.Calls.{Waited, sleeps, address, freeproc, adopt, start, exit, wait}

-- Processes that run go on running, but for the one in slot `me`.
abbrev pub Continues : (ℕ → Bool) → Table → Table → Type 0
Continues except t t' =
    (j : ℕ) → except j ≡ false → (t.procs j).state ≡ running → (t'.procs j).state ≡ running

abbrev pub nobody : ℕ → Bool
nobody j = false

pub set-Continues :
    (except : ℕ → Bool) (i : ℕ) (p : Proc) (t : Table)
    → (except i ≡ false → (t.procs i).state ≡ running → p.state ≡ running)
    → Continues except t (set_proc i p t)
set-Continues except i p t h j a e = elim (update-cases t.procs i p j) [
  | inl (y, u) ↦ rw u (h (rw y a) (rw y e))
  | inr (n, u) ↦ rw u e
]

pub woken-Continues :
    (except : ℕ → Bool) (t t' : Table)
    → ((j : ℕ) → IsWoken (t.procs j) (t'.procs j))
    → Continues except t t'
woken-Continues except t t' w j a e = elim (w j).state [ inl y ↦ y ∙ e | inr (y, z) ↦ absurd (cc) ]

pub kill-Continues : (pid : ℕ) (t : Table) → Continues nobody t (kill pid t).1
unfolding kill
kill-Continues pid t = elim (Option-cases (scan (λ p. p.pid == pid) t.procs 0 nproc)) [
  | inl e ↦ rw (kill, e) (λ j a h. h)
  | inr (i, e) ↦ rw (kill, e) (set-Continues nobody i _ t (λ a h. rw h refl))
]

pub Made-Continues : (t t' : Table) (r : Option ℕ) → Made t r t' → Continues nobody t t'
Made-Continues t t' r (full e q) = rw q (λ j a h. h)
Made-Continues t t' r (undone i p k e a b) = rw k.table (
    set-Continues nobody i p (record t { nextpid = k.next })
      (λ x h. absurd (let u = rw h at k.was_unused in cc)))
Made-Continues t t' r (made i p k e a b c) = rw k.table (
    set-Continues nobody i p (record t { nextpid = k.next })
      (λ x h. absurd (let u = rw h at k.was_unused in cc)))

pub exit-Continues :
    (me status : ℕ) (t : Table)
    → t.initproc < nproc
    → me ≢ t.initproc
    → Continues (λ j. me == j) t (exit me status t)
unfolding exit
exit-Continues me status t lt ne j a e =
    let r = reparent_lem me t lt (ground arith) in
    let t1 = reparent me t in
    let ch = address (t1.procs me).parent in
    let t2 = wakeup (some me) ch t1 in
    let e1 = woken-Continues nobody t t1 r.woken j refl e in
    let e2 = woken-Continues nobody t1 t2 (wakeup-IsWoken (some me) ch t1) j refl e1 in
    set-Continues (λ j. me == j) me (record (t2.procs me) { xstate = status; state = zombie }) t2
      (λ x h. absurd (ground arith)) j a e2

asleep-Continues :
    (me : ℕ) (except : ℕ → Bool) (t : Table)
    → sleeps ≢ sleeps ⊎ except me ≡ true
    → Continues except t (sleep me (slot me) t)
unfolding sleep
asleep-Continues me except t (inl n) = absurd (n refl)
asleep-Continues me except t (inr h) = set-Continues except me _ t (λ a y. absurd (cc))

pub yield-Continues : (me : ℕ) (t : Table) → Continues (λ j. me == j) t (yield me t)
unfolding yield
yield-Continues me t = set-Continues (λ j. me == j) me _ t (λ a e. absurd (ground arith))

pub sleep-Continues :
    (me : ℕ) (ch : Channel) (t : Table) → Continues (λ j. me == j) t (sleep me ch t)
unfolding sleep
sleep-Continues me ch t = set-Continues (λ j. me == j) me _ t (λ a e. absurd (ground arith))

pub wake_up-Continues : (me : ℕ) (t : Table) → Continues nobody t (wake_up me t)
unfolding wake_up
wake_up-Continues me t = set-Continues nobody me _ t (λ a e. e)

pub adopt-Continues : (me i : ℕ) (t : Table) → Continues nobody t (adopt me i t)
unfolding adopt
adopt-Continues me i t = set-Continues nobody i _ t (λ a e. e)

pub start-Continues :
    (i : ℕ) (t : Table) → (t.procs i).state ≡ used → Continues nobody t (start i t)
unfolding start
start-Continues i t u = set-Continues nobody i _ t (λ a e. absurd (cc))

module _ {S : Type 0} (services : Services S) where
  -- `wait` stops nobody, unless its caller goes to sleep.
  abbrev Stops : ℕ → (ℕ → Bool) → Table → Waited × (Table × S) → Type 0
  Stops me except t r = r.0 ≢ sleeps ⊎ except me ≡ true → Continues except t r.1.0

  pub wait-Continues :
      (me addr : ℕ) (t : Table) (s : S) (except : ℕ → Bool)
      → Stops me except t (wait services me addr t s)
  unfolding wait freeproc sleep
  wait-Continues me addr t s except =
      elim (Option-cases (scan (λ p. is_parent me p.parent && is_zombie p.state) t.procs 0 nproc)) [
        | inr (i, e) ↦
            let (lo, hi, h) =
              scan-some (λ p. is_parent me p.parent && is_zombie p.state) t.procs 0 nproc i e in
            let ended : is_zombie (t.procs i).state ≡ true = ground arith in
            let freed : Continues except t (set_proc i (cleared (t.procs i)) t) =
              set-Continues except i _ t (λ a y. absurd (let k = rw y at ended in cc)) in
            rw (wait, e) (if_cases (Stops me except t) _ (λ r. freed) (λ r j a y. y))
        | inl e ↦ elim (Option-cases (scan (λ p. is_parent me p.parent) t.procs 0 nproc)) [
          | inl f ↦ rw (wait, e, f) (λ r j a y. y)
          | inr (i, f) ↦
              rw (wait, e, f)
                (if_cases (Stops me except t) (t.procs me).killed (λ r j a y. y)
                  (asleep-Continues me except t))
        ]
      ]
