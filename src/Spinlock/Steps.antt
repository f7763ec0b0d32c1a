-- ===== src/Spinlock/Steps.antt =====
-- kernel/spinlock.c: what each way out of `acquire` and `release` says of the machine.
use tatak_os.Base.{
  ℕ, suc, ◌≡◌, inl, inr, refl, Bool, true, false, some, arith, Bool-cases, if◌then◌else◌,
}
use tatak_os.Disk.{update}
use tatak_os.Spinlock.{
  Spinlock, Cpu, push_off, pop_off, holding, Machine, Outcome, panics, spins, done, acquire, spin,
  release,
}

-- The lock that CPU `c` holds, and a free one.
abbrev pub mine : ℕ → Spinlock
mine c = record { locked = true; cpu = suc c }

abbrev pub unlocked : Spinlock
unlocked = record { locked = false; cpu = 0 }

abbrev pub with_cpu : ℕ → Cpu → Machine → Machine
with_cpu c x m = record m { cpus = update m.cpus c x }

abbrev pub with_lock : ℕ → Spinlock → Machine → Machine
with_lock i l m = record m { locks = update m.locks i l }

-- The choice that `acquire` makes.
abbrev choice : Bool → Bool → Machine → Machine → Outcome
choice h l a b = if h then panics else if l then spins a else done b

choice-done :
    (h l : Bool) (a b m : Machine) → choice h l a b ≡ done m → (h ≡ false) × (l ≡ false) × (m ≡ b)
choice-done true l a b m e = absurd (ground arith)
choice-done false true a b m e = absurd (ground arith)
choice-done false false a b m e = (refl, refl, cc)

choice-spins : (h l : Bool) (a b m : Machine) → choice h l a b ≡ spins m → m ≡ a
choice-spins true l a b m e = absurd (ground arith)
choice-spins false true a b m e = cc
choice-spins false false a b m e = absurd (ground arith)

module _ (c i : ℕ) (m m' : Machine) where
  pub acquire-done :
      acquire c i m ≡ done m'
      → ((m.locks i).locked ≡ false)
        × (m' ≡ with_lock i (mine c) (with_cpu c (push_off (m.cpus c)) m))
  unfolding acquire
  acquire-done e =
      let (h, l, q) = choice-done (holding c (m.locks i)) (m.locks i).locked _ _ m' e in (l, q)

  pub acquire-spins : acquire c i m ≡ spins m' → m' ≡ with_cpu c (push_off (m.cpus c)) m
  unfolding acquire
  acquire-spins e = choice-spins (holding c (m.locks i)) (m.locks i).locked _ _ m' e

  pub spin-done :
      spin c i m ≡ done m' → ((m.locks i).locked ≡ false) × (m' ≡ with_lock i (mine c) m)
  unfolding spin
  spin-done e = let (h, l, q) = choice-done false (m.locks i).locked _ _ m' e in (l, q)

  pub release-held : release c i m ≡ done m' → holding c (m.locks i) ≡ true
  unfolding release
  release-held e = elim (Bool-cases (holding c (m.locks i))) [
    | inl h ↦ h
    | inr h ↦ absurd (let r = rw h at e in ground arith)
  ]

  pub release-done :
      (x : Cpu)
      → pop_off (m.cpus c) ≡ some x
      → release c i m ≡ done m'
      → m' ≡ with_lock i unlocked (with_cpu c x m)
  unfolding release
  release-done x p e = let r = rw (release-held e, p) at e in cc
