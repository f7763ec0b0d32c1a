-- ===== src/Proc/Ends.antt =====
-- kernel/proc.c: exit, wait, kill and the calls that give up the CPU keep the family of processes.
use tatak_os.Base.{
  ℕ, ◌+◌, ◌≡◌, ◌≢◌, ◌<◌, ◌⊎◌, inl, inr, refl, sym, ◌∙◌, ap, true, false, ◌&&◌, some, some-injective,
  arith, ltb, leb, ◌==◌, Bool-cases, Option-cases,
}
use tatak_os.Disk.{update_ne, update-cases}
use tatak_os.Proc.{
  nproc, is_zombie, is_sleeping, is_parent, Channel, slot, other, sleeping, running, zombie, Table,
  Services, scan, set_proc, cleared, wakeup, reparent, kill, sleep, wake_up, yield,
}
use tatak_os.Proc.Loops.{
  waits_on, sleeping_of, scan-some, scan-none, wakeup_parent, wakeup_quiet, IsWoken-quiet, if_cases,
}
use tatak_os.Proc.Reparent.{Reparented, reparent_lem}
use tatak_os.Proc.Family.{
  IsFamily, set-IsFamily, kept-IsFamily, wakeup-IsFamily, alive_woken, zombie_woken,
}
use tatak_os.Proc.Preserve.{dead-IsFamily, zombie_dead}
use tatak_os.Proc.Calls.{Waited, address, freeproc, exit, wait}

is_parent_self : (q : ℕ) → is_parent q (some q) ≡ true
is_parent_self q = ground arith

-- A parent after reparent is init, for a child of the caller, or the one before.
parent_cases :
    (me : ℕ) (t t' : Table) (j q : ℕ)
    → Reparented me 0 nproc t t'
    → j < nproc
    → (t'.procs j).parent ≡ some q
    → (t.initproc ≡ q) × (is_parent me (t.procs j).parent ≡ true)
      ⊎ ((t.procs j).parent ≡ some q) × (is_parent me (t.procs j).parent ≡ false)
parent_cases me t t' j q r lt e =
    let inside : (leb 0 j && ltb j (0 + nproc)) ≡ true = ground arith in
    elim (Bool-cases (is_parent me (t.procs j).parent)) [
      | inl y ↦ inl (some-injective _ _ (sym (rw (inside, y) at (r.parent j)) ∙ e), y)
      | inr y ↦ inr (sym (rw (inside, y) at (r.parent j)) ∙ e, y)
    ]

-- After reparent the caller has no children.
no_children :
    (me : ℕ) (t t' : Table)
    → Reparented me 0 nproc t t'
    → me ≢ t.initproc
    → (j : ℕ) → j < nproc
    → (t'.procs j).parent ≢ some me
no_children me t t' r ne j lt e = elim (parent_cases me t t' j me r lt e) [
  | inl (y, z) ↦ ne (sym y)
  | inr (y, z) ↦ let self = is_parent_self me in let k = rw y at z in cc
]

reparent-IsFamily : (me : ℕ) (t t' : Table) → Reparented me 0 nproc t t' → IsFamily t → IsFamily t'
reparent-IsFamily me t t' r v = record {
  init_slot = rw r.same_init v.init_slot;
  init_alive = rw r.same_init (alive_woken _ _ (r.woken t.initproc) v.init_alive);
  parent_alive = λ i q lt e. elim (parent_cases me t t' i q r lt e) [
    | inl (y, h) ↦ rw (← y) (v.init_slot, alive_woken _ _ (r.woken t.initproc) v.init_alive)
    | inr (y, h) ↦ let (l, a) = v.parent_alive i q lt y in (l, alive_woken _ _ (r.woken q) a)
  ];
  told = λ i q lt e z. elim (parent_cases me t t' i q r lt e) [
    | inl (y, h) ↦ rw (← y) (r.told i (omega arith) lt h)
    | inr (y, h) ↦
        IsWoken-quiet (slot q) _ _ (r.woken q) (v.told i q lt y (zombie_woken _ _ (r.woken i) z))
  ];
}

-- The parent of the caller does not sleep in `wait` after the second wakeup of `exit`.
parent_told :
    (me q : ℕ) (t : Table) (ch : Channel)
    → ch ≡ slot q
    → q < nproc
    → q ≢ me
    → waits_on (slot q) ((wakeup (some me) ch t).procs q) ≡ false
parent_told me q t ch e lt ne = rw e (wakeup_quiet (some me) (slot q) t q lt (ground arith))

pub exit-IsFamily :
    (me status : ℕ) (t : Table)
    → IsFamily t
    → me < nproc
    → me ≢ t.initproc
    → IsFamily (exit me status t)
unfolding exit wakeup
exit-IsFamily me status t v lt ne =
    let r = reparent_lem me t v.init_slot (ground arith) in
    let t1 = reparent me t in
    let v1 = reparent-IsFamily me t t1 r v in
    let ch = address (t1.procs me).parent in
    let t2 = wakeup (some me) ch t1 in
    let v2 = wakeup-IsFamily (some me) ch t1 v1 in
    let childless = λ (j : ℕ) (l : j < nproc) (e : (t2.procs j).parent ≡ some me).
      no_children me t t1 r ne j l (sym (wakeup_parent (some me) ch t1 j) ∙ e) in
    let p = record (t2.procs me) { xstate = status; state = zombie } in
    set-IsFamily me p t2 v2 (λ e. absurd (ne (e ∙ r.same_init))) (λ j l e. absurd (childless j l e))
      (λ q e.
        let (l, a) = v2.parent_alive me q lt e in
        let apart = λ (x : me ≡ q). childless me lt (e ∙ ap some (sym x)) in
        (l, rw (update_ne t2.procs me q p apart) a))
      (λ q e z.
        let (l, a) = v2.parent_alive me q lt e in
        let apart = λ (x : me ≡ q). childless me lt (e ∙ ap some (sym x)) in
        rw (update_ne t2.procs me q p apart) (
          parent_told me q t1 ch (ap address (sym (wakeup_parent (some me) ch t1 me) ∙ e)) l
            (λ x. apart (sym x))))
      (λ j l e z. absurd (childless j l e))

pub kill-IsFamily : (pid : ℕ) (t : Table) → IsFamily t → IsFamily (kill pid t).1
unfolding kill
kill-IsFamily pid t v = elim (Option-cases (scan (λ p. p.pid == pid) t.procs 0 nproc)) [
  | inl e ↦ rw (kill, e) v
  | inr (i, e) ↦
      let (lo, hi, h) = scan-some (λ p. p.pid == pid) t.procs 0 nproc i e in
      rw (kill, e)
        (elim (Bool-cases (is_sleeping (t.procs i).state)) [
          | inl y ↦
              let s : (t.procs i).state ≡ sleeping = sleeping_of _ y in
              kept-IsFamily i _ t v hi refl (rw (y, s) refl) (rw (y, s) refl) (λ q. rw y refl)
          | inr y ↦ kept-IsFamily i _ t v hi refl (rw y refl) (rw y refl) (λ q. rw (y, y) refl)
        ])
]

pub yield-IsFamily :
    (me : ℕ) (t : Table)
    → IsFamily t
    → me < nproc
    → (t.procs me).state ≡ running
    → IsFamily (yield me t)
unfolding yield
yield-IsFamily me t v lt e = kept-IsFamily me _ t v lt refl (rw e refl) (rw e refl) (λ q. refl)

-- Sleeping on any address but a slot's.
pub sleep-IsFamily :
    (me n : ℕ) (t : Table)
    → IsFamily t
    → me < nproc
    → (t.procs me).state ≡ running
    → IsFamily (sleep me (other n) t)
unfolding sleep
sleep-IsFamily me n t v lt e = kept-IsFamily me _ t v lt refl (rw e refl) (rw e refl) (λ q. refl)

pub wake_up-IsFamily :
    (me : ℕ) (t : Table)
    → IsFamily t
    → me < nproc
    → (t.procs me).state ≡ running
    → IsFamily (wake_up me t)
unfolding wake_up
wake_up-IsFamily me t v lt e = kept-IsFamily me _ t v lt refl refl refl (λ q. rw e refl)

-- Sleeping in `wait`, with no child that has ended.
sleep-own :
    (me : ℕ) (t : Table)
    → IsFamily t
    → me < nproc
    → ((j : ℕ)
        → j < nproc
        → (is_parent me (t.procs j).parent && is_zombie (t.procs j).state) ≡ false)
    → IsFamily (sleep me (slot me) t)
unfolding sleep
sleep-own me t v lt none_ended =
    let p = record (t.procs me) { chan = slot me; state = sleeping } in
    set-IsFamily me p t v (λ e. refl) (λ j l e. refl)
      (λ q e.
        let (l, a) = v.parent_alive me q lt e in
        (l, elim (update-cases t.procs me p q) [ inl (y, u) ↦ rw u refl | inr (n, u) ↦ rw u a ]))
      (λ q e z. absurd (cc))
      (λ j l e z.
        let self = is_parent_self me in let k = rw (e, z, self) at (none_ended j l) in absurd (cc))

module _ {S : Type 0} (services : Services S) where
  pub wait-IsFamily :
      (me addr : ℕ) (t : Table) (s : S)
      → IsFamily t
      → me < nproc
      → (t.procs me).state ≡ running
      → IsFamily (wait services me addr t s).1.0
  unfolding wait freeproc sleep
  wait-IsFamily me addr t s v lt run =
      elim (Option-cases (scan (λ p. is_parent me p.parent && is_zombie p.state) t.procs 0 nproc)) [
        | inr (i, e) ↦
            let (lo, hi, h) =
              scan-some (λ p. is_parent me p.parent && is_zombie p.state) t.procs 0 nproc i e in
            let freed : IsFamily (set_proc i (cleared (t.procs i)) t) =
              dead-IsFamily i _ t v hi (zombie_dead _ (ground arith)) (inl refl) refl in
            rw (wait, e) (if_cases (λ (r : Waited × (Table × S)). IsFamily r.1.0) _ freed v)
        | inl e ↦ elim (Option-cases (scan (λ p. is_parent me p.parent) t.procs 0 nproc)) [
          | inl f ↦ rw (wait, e, f) v
          | inr (i, f) ↦
              let asleep = sleep-own me t v lt (λ j l.
                scan-none (λ p. is_parent me p.parent && is_zombie p.state) t.procs 0 nproc j e
                  (omega arith) l) in
              rw (wait, e, f) (if_cases (λ (r : Waited × (Table × S)). IsFamily r.1.0) _ v asleep)
        ]
      ]
