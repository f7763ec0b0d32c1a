-- ===== src/Proc/Loops.antt =====
-- kernel/proc.c: what the loops over the table find and change.
use tatak_os.Base.{
  ℕ, zero, suc, ◌+◌, ◌≡◌, ◌≤◌, ◌<◌, ◌⊎◌, inl, inr, refl, ◌∙◌, Bool, true, false, not, ◌&&◌, Option,
  none, some, some-injective, arith, ltb, leb, ◌==◌, if◌then◌else◌, Bool-cases,
}
use tatak_os.Disk.{update, update_self, update_ne}
use tatak_os.Proc.{
  nproc, ProcState, unused, used, sleeping, runnable, running, zombie, Channel, same_chan,
  is_sleeping, is_parent, Proc, Table, scan, wake, wakeup_from, wakeup,
}

pub scan-none :
    (test : Proc → Bool) (ps : ℕ → Proc) (i n j : ℕ)
    → scan test ps i n ≡ none
    → i ≤ j
    → j < i + n
    → test (ps j) ≡ false
unfolding scan
scan-none test ps i zero j e lo hi = absurd (omega arith)
scan-none test ps i (suc n) j e lo hi = elim (Bool-cases (test (ps i))) [
  | inl y ↦ absurd (let r = rw y at e in cc)
  | inr y ↦ elim (Bool-cases (i == j)) [
    | inl q ↦ let same : j ≡ i = ground arith in rw same y
    | inr q ↦ scan-none test ps (i + 1) n j (rw y at e) (ground arith) (omega arith)
  ]
]

pub scan-some :
    (test : Proc → Bool) (ps : ℕ → Proc) (i n k : ℕ)
    → scan test ps i n ≡ some k
    → (i ≤ k) × (k < i + n) × (test (ps k) ≡ true)
unfolding scan
scan-some test ps i zero k e = absurd (cc)
scan-some test ps i (suc n) k e = elim (Bool-cases (test (ps i))) [
  | inl y ↦ let q : i ≡ k = some-injective _ _ (rw y at e) in (omega arith, omega arith, rw (← q) y)
  | inr y ↦
      let (lo, hi, h) = scan-some test ps (i + 1) n k (rw y at e) in (omega arith, omega arith, h)
]

pub wakeup_from_lem :
    (me : Option ℕ) (ch : Channel) (i n : ℕ) (ps : ℕ → Proc) (j : ℕ)
    → wakeup_from me ch i n ps j ≡ (if leb i j && ltb j (i + n) then wake me ch j (ps j) else ps j)
unfolding wakeup_from
wakeup_from_lem me ch i zero ps j = ground arith
wakeup_from_lem me ch i (suc n) ps j =
    wakeup_from_lem me ch (i + 1) n (update ps i (wake me ch i (ps i))) j
    ∙ (elim (Bool-cases (i == j)) [
      | inl q ↦
          let same : j ≡ i = ground arith in
          rw (same, update_self ps i (wake me ch i (ps i))) (ground arith)
      | inr q ↦ rw (update_ne ps i j (wake me ch i (ps i)) (ground arith)) (ground arith)
    ])

-- A process that only other processes' calls have changed.
pub record IsWoken (p p' : Proc) : Type 0 where
  pub state : (p'.state ≡ p.state) ⊎ ((p.state ≡ sleeping) × (p'.state ≡ runnable))
  pub chan : p'.chan ≡ p.chan
  pub pid : p'.pid ≡ p.pid
  pub killed : p'.killed ≡ p.killed

pub IsWoken-same : (p p' : Proc) → p' ≡ p → IsWoken p p'
IsWoken-same p p' e = rw e (record { state = inl refl; chan = refl; pid = refl; killed = refl })

pub IsWoken-trans : (p q r : Proc) → IsWoken p q → IsWoken q r → IsWoken p r
IsWoken-trans p q r u v = record {
  state = ground arith;
  chan = v.chan ∙ u.chan;
  pid = v.pid ∙ u.pid;
  killed = v.killed ∙ u.killed;
}

-- Asleep on channel `ch`.
abbrev pub waits_on : Channel → Proc → Bool
waits_on ch p = is_sleeping p.state && same_chan p.chan ch

pub IsWoken-quiet :
    (ch : Channel) (p p' : Proc) → IsWoken p p' → waits_on ch p ≡ false → waits_on ch p' ≡ false
IsWoken-quiet ch p p' w q = elim w.state [ inl e ↦ rw (e, w.chan) q | inr (e, f) ↦ rw f refl ]

pub sleeping_of : (s : ProcState) → is_sleeping s ≡ true → s ≡ sleeping
sleeping_of unused e = cc
sleeping_of used e = cc
sleeping_of sleeping e = refl
sleeping_of runnable e = cc
sleeping_of running e = cc
sleeping_of zombie e = cc

pub if_cases {ℓ} :
    {A : Type 0} (P : A → Type ℓ) (b : Bool) {x y : A} → P x → P y → P (if b then x else y)
if_cases P true p q = p
if_cases P false p q = q

wake-IsWoken : (me : Option ℕ) (ch : Channel) (i : ℕ) (p : Proc) → IsWoken p (wake me ch i p)
wake-IsWoken me ch i p = elim (Bool-cases (not (is_parent i me) && waits_on ch p)) [
  | inl e ↦ rw e (record {
    state = inr (sleeping_of p.state (ground arith), refl);
    chan = refl;
    pid = refl;
    killed = refl;
  })
  | inr e ↦ rw e (IsWoken-same p p refl)
]

wake_quiet :
    (me : Option ℕ) (ch : Channel) (i : ℕ) (p : Proc)
    → is_parent i me ≡ false
    → waits_on ch (wake me ch i p) ≡ false
wake_quiet me ch i p e = ground arith

pub wakeup-IsWoken :
    (me : Option ℕ) (ch : Channel) (t : Table) (j : ℕ)
    → IsWoken (t.procs j) ((wakeup me ch t).procs j)
unfolding wakeup
wakeup-IsWoken me ch t j = rw (wakeup_from_lem me ch 0 nproc t.procs j) (
    if_cases (IsWoken (t.procs j)) (leb 0 j && ltb j (0 + nproc)) (wake-IsWoken me ch j (t.procs j))
      (IsWoken-same (t.procs j) (t.procs j) refl))

pub wakeup_parent :
    (me : Option ℕ) (ch : Channel) (t : Table) (j : ℕ)
    → ((wakeup me ch t).procs j).parent ≡ (t.procs j).parent
unfolding wakeup
wakeup_parent me ch t j = rw (wakeup_from_lem me ch 0 nproc t.procs j) (ground arith)

-- After `wakeup` nobody sleeps on the channel, but for the caller.
pub wakeup_quiet :
    (me : Option ℕ) (ch : Channel) (t : Table) (j : ℕ)
    → j < nproc
    → is_parent j me ≡ false
    → waits_on ch ((wakeup me ch t).procs j) ≡ false
unfolding wakeup
wakeup_quiet me ch t j lt e = rw (wakeup_from_lem me ch 0 nproc t.procs j) (
    let inside : (leb 0 j && ltb j (0 + nproc)) ≡ true = ground arith in
    rw inside (wake_quiet me ch j (t.procs j) e))
