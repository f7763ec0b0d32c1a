-- ===== src/Spinlock/Nesting.antt =====
-- kernel/spinlock.c: the locks that a CPU holds, and one CPU's nesting of push_off and pop_off.
use tatak_os.Base.{
  ℕ, zero, suc, ◌+◌, ◌-◌, ◌≡◌, ◌≢◌, ◌≤◌, ◌<◌, inl, inr, refl, sym, ◌∙◌, ap, Bool, true, false, ◌&&◌,
  ◌||◌, some, arith, ltb, ◌==◌, Bool-cases,
}
use tatak_os.Disk.{update, update_self, update_ne}
use tatak_os.Spinlock.Steps.{mine, unlocked}
use tatak_os.Spinlock.{Spinlock, Cpu, push_off, pop_off, holding}

abbrev pub as_number : Bool → ℕ
as_number true = 1
as_number false = 0

-- The locks below `n` that the CPU `c` holds.
abbrev pub held : ℕ → ℕ → (ℕ → Spinlock) → ℕ
held c zero ls = 0
held c (suc n) ls = as_number (holding c (ls n)) + held c n ls

held-update_out :
    (c n i : ℕ) (ls : ℕ → Spinlock) (l : Spinlock) → n ≤ i → held c n (update ls i l) ≡ held c n ls
held-update_out c zero i ls l h = refl
held-update_out c (suc n) i ls l h =
    rw (update_ne ls i n l (omega arith), held-update_out c n i ls l (omega arith)) refl

held-update :
    (c n i : ℕ) (ls : ℕ → Spinlock) (l : Spinlock)
    → i < n
    → held c n (update ls i l) + as_number (holding c (ls i))
      ≡ held c n ls + as_number (holding c l)
held-update c zero i ls l h = absurd (omega arith)
held-update c (suc n) i ls l h = elim (Bool-cases (i == n)) [
  | inl e ↦
      let q : i ≡ n = ground arith in
      rw q (rw (update_self ls n l, held-update_out c n n ls l (omega arith)) omega arith)
  | inr e ↦
      let q : i ≢ n = ground arith in
      rw (update_ne ls i n l q) (omega (arith, held-update c n i ls l (ground arith)))
]

-- One CPU with `k` locks taken or wanted.
pub record IsNestedAt (c : Cpu) (k : ℕ) (want : Bool) : Type 0 where
  pub counted : c.noff ≡ k
  pub off : 0 < k → c.interrupts ≡ false
  pub saved : 0 < k → c.intena ≡ want
  pub free : k ≡ 0 → c.interrupts ≡ want

pub IsNestedAt-count : {c : Cpu} {w : Bool} (j k : ℕ) → j ≡ k → IsNestedAt c j w → IsNestedAt c k w
IsNestedAt-count j k e s = rw (← e) s

pub push_off-IsNestedAt :
    (c : Cpu) (k : ℕ) (w : Bool) → IsNestedAt c k w → IsNestedAt (push_off c) (k + 1) w
unfolding push_off
push_off-IsNestedAt c k w s = record {
  counted = omega (arith, s.counted);
  off = λ h. refl;
  saved = λ h. elim (Bool-cases (c.noff == 0)) [
    | inl e ↦ rw e (s.free (ground arith))
    | inr e ↦ rw e (s.saved (ground arith))
  ];
  free = λ h. absurd (omega arith);
}

-- `pop_off` past its panics.
abbrev popped : Cpu → Cpu
popped c = record c { noff = c.noff - 1; interrupts = c.noff - 1 == 0 && c.intena || c.interrupts }

pub pop_off-IsNestedAt :
    (c : Cpu) (k : ℕ) (w : Bool)
    → IsNestedAt c (suc k) w
    → (c' : Cpu) × (pop_off c ≡ some c') × IsNestedAt c' k w
unfolding pop_off
pop_off-IsNestedAt c k w s =
    let off = s.off (omega arith) in
    let some_left : ltb c.noff 1 ≡ false = ground arith in
    (
      popped c,
      rw (off, some_left) refl,
      record {
        counted = omega arith;
        off = λ h. let more : (c.noff - 1 == 0) ≡ false = ground arith in rw (more, off) refl;
        saved = λ h. s.saved (omega arith);
        free = λ h.
            let last : (c.noff - 1 == 0) ≡ true = ground arith in
            rw (last, off, s.saved (omega arith)) (ground arith);
      },
    )

-- A lock counts the same before and after for a CPU that holds it before and after, or neither.
pub held_elsewhere :
    (d n i : ℕ) (ls : ℕ → Spinlock) (l : Spinlock)
    → i < n
    → holding d (ls i) ≡ holding d l
    → held d n (update ls i l) ≡ held d n ls
held_elsewhere d n i ls l h p =
    let e = held-update d n i ls l h in let q = ap as_number p in omega arith

not_mine : (c d : ℕ) → c ≢ d → holding d (mine c) ≡ false
unfolding holding
not_mine c d ne = ground arith

not_locked : (d : ℕ) (l : Spinlock) → l.locked ≡ false → holding d l ≡ false
unfolding holding
not_locked d l e = rw e refl

mine_held : (c : ℕ) → holding c (mine c) ≡ true
unfolding holding
mine_held c = ground arith

-- CPU `c` takes a free lock: its count of held locks grows by one, and no other does.
pub taken_own :
    (c n i : ℕ) (ls : ℕ → Spinlock)
    → i < n
    → (ls i).locked ≡ false
    → held c n (update ls i (mine c)) ≡ held c n ls + 1
taken_own c n i ls h l =
    let e = held-update c n i ls (mine c) h in
    let p = ap as_number (not_locked c (ls i) l) in
    let q = ap as_number (mine_held c) in omega arith

pub taken_other :
    (c d n i : ℕ) (ls : ℕ → Spinlock)
    → c ≢ d
    → i < n
    → (ls i).locked ≡ false
    → held d n (update ls i (mine c)) ≡ held d n ls
taken_other c d n i ls ne h l =
    held_elsewhere d n i ls (mine c) h (not_locked d (ls i) l ∙ sym (not_mine c d ne))

pub unlocked_held : (c : ℕ) → holding c unlocked ≡ false
unfolding holding
unlocked_held c = refl

-- CPU `c` gives back a lock that it holds.
pub given_own :
    (c n i : ℕ) (ls : ℕ → Spinlock)
    → i < n
    → holding c (ls i) ≡ true
    → held c n ls ≡ suc (held c n (update ls i unlocked))
given_own c n i ls h l =
    let e = held-update c n i ls unlocked h in
    let p = ap as_number l in let q = ap as_number (unlocked_held c) in omega arith

pub one_holder : (c d : ℕ) (l : Spinlock) → c ≢ d → holding c l ≡ true → holding d l ≡ false
unfolding holding
one_holder c d l ne h = ground arith
