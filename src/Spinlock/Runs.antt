-- ===== src/Spinlock/Runs.antt =====
-- kernel/spinlock.c: runs of several CPUs that take and give back locks.
use tatak_os.Base.{
  ℕ, ◌+◌, ◌≡◌, ◌≢◌, ◌<◌, inl, inr, refl, sym, ◌∙◌, ap, Bool, true, false, arith, ◌==◌, Bool-cases,
}
use tatak_os.Disk.{update, update_self, update_ne}
use tatak_os.Spinlock.Steps.{
  unlocked, acquire-done, acquire-spins, spin-done, release-done, release-held,
}
use tatak_os.Spinlock.{push_off, Machine, spins, done, acquire, spin, release}
use tatak_os.Spinlock.Nesting.{
  as_number, held, IsNestedAt, IsNestedAt-count, push_off-IsNestedAt, pop_off-IsNestedAt,
  held_elsewhere, taken_own, taken_other, unlocked_held, given_own, one_holder,
}

-- The machine, which CPUs are in the loop of `acquire`, and whether the code that runs without a
-- lock has interrupts on.
pub record System : Type 0 where
  pub machine : Machine
  pub spinning : ℕ → Bool
  pub wanted : ℕ → Bool

-- For every CPU, `noff` counts the locks that it holds, and the one that it spins for.
abbrev pub IsNested : ℕ → System → Type 0
IsNested n s =
    (c : ℕ)
    → IsNestedAt (s.machine.cpus c) (as_number (s.spinning c) + held c n s.machine.locks)
        (s.wanted c)

-- Calls on the locks below `n`, of any CPUs in any order. A CPU in the loop of `acquire` does
-- nothing else, as it takes no interrupts.
pub data Step (n : ℕ) (s : System) : System → Type 0 where
  acquires :
      (c i : ℕ) (m : Machine)
      → i < n
      → s.spinning c ≡ false
      → acquire c i s.machine ≡ done m
      → Step n s (record s { machine = m })
  waits :
      (c i : ℕ) (m : Machine)
      → i < n
      → s.spinning c ≡ false
      → acquire c i s.machine ≡ spins m
      → Step n s (record s { machine = m; spinning = update s.spinning c true })
  gets :
      (c i : ℕ) (m : Machine)
      → i < n
      → s.spinning c ≡ true
      → spin c i s.machine ≡ done m
      → Step n s (record s { machine = m; spinning = update s.spinning c false })
  releases :
      (c i : ℕ) (m : Machine)
      → i < n
      → s.spinning c ≡ false
      → release c i s.machine ≡ done m
      → Step n s (record s { machine = m })
  sets_interrupts :
      (c : ℕ) (b : Bool)
      → (s.machine.cpus c).noff ≡ 0
      → Step n s (record s {
        machine = record s.machine {
          cpus = update s.machine.cpus c (record (s.machine.cpus c) { interrupts = b });
        };
        wanted = update s.wanted c b;
      })

abbrev count : ℕ → System → ℕ → ℕ
count n s d = as_number (s.spinning d) + held d n s.machine.locks

-- What the other CPUs keep when CPU `c` takes a step.
abbrev Keeps : ℕ → System → System → ℕ → Type 0
Keeps n s t d =
    (t.machine.cpus d ≡ s.machine.cpus d) × (count n t d ≡ count n s d) × (t.wanted d ≡ s.wanted d)

changed-IsNested :
    (n c : ℕ) (s t : System)
    → IsNested n s
    → ((d : ℕ) → c ≢ d → Keeps n s t d)
    → IsNestedAt (t.machine.cpus c) (count n t c) (t.wanted c)
    → IsNested n t
changed-IsNested n c s t v keeps own d = elim (Bool-cases (c == d)) [
  | inl e ↦ let q : d ≡ c = ground arith in rw q own
  | inr e ↦ let (x, y, z) = keeps d (ground arith) in rw (x, y, z) (v d)
]

module _ (n : ℕ) (s : System) (v : IsNested n s) where
  pub acquires-IsNested :
      (c i : ℕ) (m : Machine)
      → i < n
      → acquire c i s.machine ≡ done m
      → IsNested n (record s { machine = m })
  acquires-IsNested c i m lt e =
      let (l, q) = acquire-done c i s.machine m e in
      let ls = s.machine.locks in
      rw q (
        changed-IsNested n c s _ v
          (λ d ne.
            (update_ne s.machine.cpus c d _ ne, rw (taken_other c d n i ls ne lt l) refl, refl))
          (rw (update_self s.machine.cpus c (push_off (s.machine.cpus c)), taken_own c n i ls lt l)
            (IsNestedAt-count _ _ (omega arith) (push_off-IsNestedAt _ _ _ (v c)))))

  pub waits-IsNested :
      (c i : ℕ) (m : Machine)
      → s.spinning c ≡ false
      → acquire c i s.machine ≡ spins m
      → IsNested n (record s { machine = m; spinning = update s.spinning c true })
  waits-IsNested c i m sp e =
      let q = acquire-spins c i s.machine m e in
      let o = ap as_number sp in
      rw q (
        changed-IsNested n c s _ v
          (λ d ne.
            (update_ne s.machine.cpus c d _ ne, rw (update_ne s.spinning c d true ne) refl, refl))
          (rw
            (
              update_self s.machine.cpus c (push_off (s.machine.cpus c)),
              update_self s.spinning c true,
            )
            (IsNestedAt-count _ _ (omega arith) (push_off-IsNestedAt _ _ _ (v c)))))

  pub gets-IsNested :
      (c i : ℕ) (m : Machine)
      → i < n
      → s.spinning c ≡ true
      → spin c i s.machine ≡ done m
      → IsNested n (record s { machine = m; spinning = update s.spinning c false })
  gets-IsNested c i m lt sp e =
      let (l, q) = spin-done c i s.machine m e in
      let ls = s.machine.locks in
      let o = ap as_number sp in
      rw q (
        changed-IsNested n c s _ v
          (λ d ne. (
            refl,
            rw (taken_other c d n i ls ne lt l, update_ne s.spinning c d false ne) refl,
            refl,
          ))
          (rw (update_self s.spinning c false, taken_own c n i ls lt l)
            (IsNestedAt-count _ _ (omega arith) (v c))))

  pub releases-IsNested :
      (c i : ℕ) (m : Machine)
      → i < n
      → release c i s.machine ≡ done m
      → IsNested n (record s { machine = m })
  releases-IsNested c i m lt e =
      let h = release-held c i s.machine m e in
      let ls = s.machine.locks in
      let k = given_own c n i ls lt h in
      let (x, p, own) =
        pop_off-IsNestedAt (s.machine.cpus c)
          (as_number (s.spinning c) + held c n (update ls i unlocked)) (s.wanted c)
          (IsNestedAt-count _ _ (omega arith) (v c)) in
      rw (release-done c i s.machine m x p e) (
        changed-IsNested n c s _ v
          (λ d ne. (
            update_ne s.machine.cpus c d _ ne,
            rw
                (held_elsewhere d n i ls unlocked lt
                  (one_holder c d (ls i) ne h ∙ sym (unlocked_held d)))
                refl,
            refl,
          ))
          (rw (update_self s.machine.cpus c x) own))

  pub sets-IsNested :
      (c : ℕ) (b : Bool)
      → (s.machine.cpus c).noff ≡ 0
      → IsNested n (record s {
        machine = record s.machine {
          cpus = update s.machine.cpus c (record (s.machine.cpus c) { interrupts = b });
        };
        wanted = update s.wanted c b;
      })
  sets-IsNested c b z =
      changed-IsNested n c s _ v
        (λ d ne. (update_ne s.machine.cpus c d _ ne, refl, update_ne s.wanted c d b ne))
        (rw
          (
            update_self s.machine.cpus c (record (s.machine.cpus c) { interrupts = b }),
            update_self s.wanted c b,
          )
          (let k = (v c).counted in
            record {
              counted = omega arith;
              off = λ h. absurd (omega arith);
              saved = λ h. absurd (omega arith);
              free = λ h. refl;
            }))
