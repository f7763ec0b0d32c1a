-- ===== src/Proc/Family.antt =====
-- kernel/proc.c: parents and children, and why a parent that sleeps in wait is not forgotten.
use tatak_os.Base.{ℕ, ◌≡◌, ◌<◌, inl, inr, refl, sym, ◌∙◌, ap, Bool, true, false, Option, some}
use tatak_os.Disk.{update, update-cases}
use tatak_os.Proc.{
  nproc, Channel, slot, is_zombie, ProcState, unused, used, sleeping, runnable, running, zombie,
  Proc, Table, set_proc, wakeup,
}
use tatak_os.Proc.Loops.{IsWoken, IsWoken-quiet, waits_on, wakeup-IsWoken, wakeup_parent}

-- A process that has not ended.
abbrev pub is_alive : ProcState → Bool
is_alive unused = false
is_alive zombie = false
is_alive used = true
is_alive sleeping = true
is_alive runnable = true
is_alive running = true

-- Parents are processes that have not ended, and one of them that sleeps in `wait` has no child
-- that has.
pub record IsFamily (t : Table) : Type 0 where
  pub init_slot : t.initproc < nproc
  pub init_alive : is_alive (t.procs t.initproc).state ≡ true
  pub parent_alive :
      (i q : ℕ)
      → i < nproc
      → (t.procs i).parent ≡ some q
      → (q < nproc) × (is_alive (t.procs q).state ≡ true)
  pub told :
      (i q : ℕ)
      → i < nproc
      → (t.procs i).parent ≡ some q
      → is_zombie (t.procs i).state ≡ true
      → waits_on (slot q) (t.procs q) ≡ false

pub alive_woken : (p p' : Proc) → IsWoken p p' → is_alive p.state ≡ true → is_alive p'.state ≡ true
alive_woken p p' w a = elim w.state [ inl e ↦ rw e a | inr (e, f) ↦ rw f refl ]

pub zombie_woken :
    (p p' : Proc) → IsWoken p p' → is_zombie p'.state ≡ true → is_zombie p.state ≡ true
zombie_woken p p' w z = elim w.state [
  | inl e ↦ rw e at z
  | inr (e, f) ↦ absurd (let k = rw f at z in cc)
]

pub wakeup-IsFamily :
    (me : Option ℕ) (ch : Channel) (t : Table) → IsFamily t → IsFamily (wakeup me ch t)
unfolding wakeup
wakeup-IsFamily me ch t v = record {
  init_slot = v.init_slot;
  init_alive = alive_woken _ _ (wakeup-IsWoken me ch t t.initproc) v.init_alive;
  parent_alive = λ i q lt e.
      let (l, a) = v.parent_alive i q lt (sym (wakeup_parent me ch t i) ∙ e) in
      (l, alive_woken _ _ (wakeup-IsWoken me ch t q) a);
  told = λ i q lt e z. IsWoken-quiet (slot q) _ _ (wakeup-IsWoken me ch t q) (
      v.told i q lt (sym (wakeup_parent me ch t i) ∙ e)
        (zombie_woken _ _ (wakeup-IsWoken me ch t i) z));
}

-- A change of slot `i` to `p`.
pub set-IsFamily :
    (i : ℕ) (p : Proc) (t : Table)
    → IsFamily t
    → (i ≡ t.initproc → is_alive p.state ≡ true)
    → ((j : ℕ) → j < nproc → (t.procs j).parent ≡ some i → is_alive p.state ≡ true)
    → ((q : ℕ) → p.parent ≡ some q → (q < nproc) × (is_alive (update t.procs i p q).state ≡ true))
    → ((q : ℕ)
        → p.parent ≡ some q
        → is_zombie p.state ≡ true
        → waits_on (slot q) (update t.procs i p q) ≡ false)
    → ((j : ℕ)
        → j < nproc
        → (t.procs j).parent ≡ some i
        → is_zombie (t.procs j).state ≡ true
        → waits_on (slot i) p ≡ false)
    → IsFamily (set_proc i p t)
set-IsFamily i p t v init alive parent told quiet = record {
  init_slot = v.init_slot;
  init_alive = elim (update-cases t.procs i p t.initproc) [
    | inl (e, u) ↦ rw u (init e)
    | inr (n, u) ↦ rw u v.init_alive
  ];
  parent_alive = λ j q lt e. elim (update-cases t.procs i p j) [
    | inl (y, u) ↦ let (l, a) = parent q (rw u at e) in (l, a)
    | inr (n, u) ↦
        let e' : (t.procs j).parent ≡ some q = rw u at e in
        let (l, a) = v.parent_alive j q lt e' in
        (
          l,
          elim (update-cases t.procs i p q) [
            | inl (y, w) ↦ rw w (alive j lt (e' ∙ ap some (sym y)))
            | inr (m, w) ↦ rw w a
          ],
        )
  ];
  told = λ j q lt e z. elim (update-cases t.procs i p j) [
    | inl (y, u) ↦ let e' : p.parent ≡ some q = rw u at e in told q e' (rw u at z)
    | inr (n, u) ↦
        let e' : (t.procs j).parent ≡ some q = rw u at e in
        let z' : is_zombie (t.procs j).state ≡ true = rw u at z in
        elim (update-cases t.procs i p q) [
          | inl (y, w) ↦ let k = quiet j lt (e' ∙ ap some (sym y)) z' in rw (w, ← y) k
          | inr (m, w) ↦ rw w (v.told j q lt e' z')
        ]
  ];
}

-- A change that keeps the parent, and whether the process has ended.
pub kept-IsFamily :
    (i : ℕ) (p : Proc) (t : Table)
    → IsFamily t
    → i < nproc
    → p.parent ≡ (t.procs i).parent
    → is_alive p.state ≡ is_alive (t.procs i).state
    → is_zombie p.state ≡ is_zombie (t.procs i).state
    → (waits_on (slot i) (t.procs i) ≡ false → waits_on (slot i) p ≡ false)
    → IsFamily (set_proc i p t)
kept-IsFamily i p t v lt parent alive ended quiet =
    set-IsFamily i p t v (λ e. alive ∙ (rw e v.init_alive))
      (λ j l e. alive ∙ (v.parent_alive j i l e).1)
      (λ q e.
        let (l, a) = v.parent_alive i q lt (sym parent ∙ e) in
        (
          l,
          elim (update-cases t.procs i p q) [
            | inl (y, u) ↦ let a' : is_alive (t.procs i).state ≡ true = rw y a in rw u (alive ∙ a')
            | inr (n, u) ↦ rw u a
          ],
        ))
      (λ q e z.
        let told = v.told i q lt (sym parent ∙ e) (sym ended ∙ z) in
        elim (update-cases t.procs i p q) [
          | inl (y, u) ↦ rw (u, ← y) (quiet (rw y told))
          | inr (n, u) ↦ rw u told
        ])
      (λ j l e z. quiet (v.told j i l e z))
