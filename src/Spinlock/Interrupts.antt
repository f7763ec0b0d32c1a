-- ===== src/Spinlock/Interrupts.antt =====
-- kernel/spinlock.c: which CPUs take interrupts, in every run from the start.
use tatak_os.Base.{ℕ, zero, suc, ◌+◌, ◌≡◌, ◌<◌, refl, ap, Bool, true, false, arith}
use tatak_os.Disk.{update}
use tatak_os.Spinlock.Steps.{unlocked, with_cpu, with_lock}
use tatak_os.Spinlock.{holding, Machine, done, release}
use tatak_os.Spinlock.{initlock}
use tatak_os.Spinlock.Nesting.{as_number, held, IsNestedAt-count, pop_off-IsNestedAt, given_own}
use tatak_os.Spinlock.Runs.{
  System, IsNested, Step, acquires, waits, gets, releases, sets_interrupts, acquires-IsNested,
  waits-IsNested, gets-IsNested, releases-IsNested, sets-IsNested,
}

pub data Reach (n : ℕ) (s : System) : System → Type 0 where
  here : Reach n s s
  next : {t u : System} → Reach n s t → Step n t u → Reach n s u

Step-IsNested : (n : ℕ) (s t : System) → IsNested n s → Step n s t → IsNested n t
Step-IsNested n s t v (acquires c i m lt sp e) = acquires-IsNested n s v c i m lt e
Step-IsNested n s t v (waits c i m lt sp e) = waits-IsNested n s v c i m sp e
Step-IsNested n s t v (gets c i m lt sp e) = gets-IsNested n s v c i m lt sp e
Step-IsNested n s t v (releases c i m lt sp e) = releases-IsNested n s v c i m lt e
Step-IsNested n s t v (sets_interrupts c b z) = sets-IsNested n s v c b z

Reach-IsNested : (n : ℕ) {s t : System} → IsNested n s → Reach n s t → IsNested n t
Reach-IsNested n v here = v
Reach-IsNested n v (next {t = t} {u = u} r st) = Step-IsNested n t u (Reach-IsNested n v r) st

-- All locks are free, and CPU `c` takes interrupts if `w c`.
abbrev pub boot : (ℕ → Bool) → System
boot w = record {
  machine = record {
    cpus = λ c. record { noff = 0; intena = false; interrupts = w c };
    locks = λ i. initlock;
  };
  spinning = λ c. false;
  wanted = w;
}

held_none : (c n : ℕ) → held c n (λ i. initlock) ≡ 0
unfolding initlock holding
held_none c zero = refl
held_none c (suc n) = omega (arith, held_none c n)

boot-IsNested : (n : ℕ) (w : ℕ → Bool) → IsNested n (boot w)
boot-IsNested n w c =
    let z = held_none c n in
    record {
      counted = omega arith;
      off = λ h. absurd (omega arith);
      saved = λ h. absurd (omega arith);
      free = λ h. refl;
    }

module _ (n : ℕ) (w : ℕ → Bool) (s : System) where
  -- In every run from the start, however the CPUs interleave: while a CPU holds a lock it takes no
  -- interrupts, and `release` of that lock by this CPU does not panic.
  pub holder_interrupts :
      (c i : ℕ)
      → i < n
      → Reach n (boot w) s
      → holding c (s.machine.locks i) ≡ true
      → ((s.machine.cpus c).interrupts ≡ false) × ((m : Machine) × (release c i s.machine ≡ done m))
  unfolding release
  holder_interrupts c i lt r h =
      let v = Reach-IsNested n (boot-IsNested n w) r in
      let k = given_own c n i s.machine.locks lt h in
      let (x, p, own) =
        pop_off-IsNestedAt (s.machine.cpus c)
          (as_number (s.spinning c) + held c n (update s.machine.locks i unlocked)) (s.wanted c)
          (IsNestedAt-count _ _ (omega arith) (v c)) in
      ((v c).off (omega arith), (with_lock i unlocked (with_cpu c x s.machine), rw (h, p) refl))

  -- In the same runs: a CPU that holds none of the locks and waits for none takes interrupts
  -- exactly if the code that runs without a lock last asked for them, whatever locks were taken
  -- and given back since, in whatever order.
  pub interrupts_restored :
      (c : ℕ)
      → Reach n (boot w) s
      → s.spinning c ≡ false
      → held c n s.machine.locks ≡ 0
      → (s.machine.cpus c).interrupts ≡ s.wanted c
  interrupts_restored c r sp h =
      let v = Reach-IsNested n (boot-IsNested n w) r in
      let o = ap as_number sp in (v c).free (omega arith)
