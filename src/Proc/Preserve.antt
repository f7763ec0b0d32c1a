-- ===== src/Proc/Preserve.antt =====
-- kernel/proc.c: each call keeps the family of processes.
use tatak_os.Base.{
  ℕ, ◌≡◌, ◌<◌, ◌⊎◌, inl, inr, refl, sym, ◌∙◌, true, false, Option, none, some, some-injective,
}
use tatak_os.Disk.{update-cases}
use tatak_os.Proc.{
  nproc, is_unused, is_zombie, ProcState, unused, used, sleeping, runnable, running, zombie, Proc,
  Table, set_proc,
}
use tatak_os.Proc.Family.{is_alive, IsFamily, set-IsFamily, kept-IsFamily}
use tatak_os.Proc.Fork.{Made, full, undone, made}
use tatak_os.Proc.Calls.{adopt, start}

unused_dead : (s : ProcState) → is_unused s ≡ true → is_alive s ≡ false
unused_dead unused e = refl
unused_dead used e = cc
unused_dead sleeping e = cc
unused_dead runnable e = cc
unused_dead running e = cc
unused_dead zombie e = cc

pub zombie_dead : (s : ProcState) → is_zombie s ≡ true → is_alive s ≡ false
zombie_dead zombie e = refl
zombie_dead used e = cc
zombie_dead sleeping e = cc
zombie_dead runnable e = cc
zombie_dead running e = cc
zombie_dead unused e = cc

-- A process that has ended is nobody's parent, so its slot may change, if it gets no new parent.
pub dead-IsFamily :
    (i : ℕ) (p : Proc) (t : Table)
    → IsFamily t
    → i < nproc
    → is_alive (t.procs i).state ≡ false
    → p.parent ≡ none ⊎ p.parent ≡ (t.procs i).parent
    → is_zombie p.state ≡ false
    → IsFamily (set_proc i p t)
dead-IsFamily i p t v lt dead parent z =
    set-IsFamily i p t v (λ e. absurd (let k = v.init_alive in let d = rw e at dead in cc))
      (λ j l e. absurd (let k = (v.parent_alive j i l e).1 in cc))
      (λ q e. elim parent [
        | inl gone ↦ absurd (cc)
        | inr same ↦
            let (l, a) = v.parent_alive i q lt (sym same ∙ e) in
            (
              l,
              elim (update-cases t.procs i p q) [
                | inl (y, u) ↦ absurd (let d = rw y at dead in cc)
                | inr (n, u) ↦ rw u a
              ],
            )
      ])
      (λ q e y. absurd (cc)) (λ j l e y. absurd (let k = (v.parent_alive j i l e).1 in cc))

next-IsFamily : (n : ℕ) (t : Table) → IsFamily t → IsFamily (record t { nextpid = n })
next-IsFamily n t v = record {
  init_slot = v.init_slot;
  init_alive = v.init_alive;
  parent_alive = v.parent_alive;
  told = v.told;
}

pub Made-IsFamily : (t t' : Table) (r : Option ℕ) → Made t r t' → IsFamily t → IsFamily t'
Made-IsFamily t t' r (full e q) v = rw q v
Made-IsFamily t t' r (undone i p k e a b) v = rw k.table (
    dead-IsFamily i p (record t { nextpid = k.next }) (next-IsFamily k.next t v) k.slot
      (unused_dead _ k.was_unused) (inl b) (rw a refl))
Made-IsFamily t t' r (made i p k e a b c) v = rw k.table (
    dead-IsFamily i p (record t { nextpid = k.next }) (next-IsFamily k.next t v) k.slot
      (unused_dead _ k.was_unused) (inr b) (rw a refl))

pub adopt-IsFamily :
    (me i : ℕ) (t : Table)
    → IsFamily t
    → me < nproc
    → (t.procs me).state ≡ running
    → (t.procs i).state ≡ used
    → IsFamily (adopt me i t)
unfolding adopt
adopt-IsFamily me i t v lt a b =
    let p = record (t.procs i) { parent = some me } in
    set-IsFamily i p t v (λ e. rw b refl) (λ j l e. rw b refl)
      (λ q e.
        let y : me ≡ q = some-injective _ _ e in
        (
          rw (← y) lt,
          elim (update-cases t.procs i p q) [
            | inl (n, u) ↦ rw (u, b) refl
            | inr (n, u) ↦ rw (u, ← y, a) refl
          ],
        ))
      (λ q e z. absurd (let k = rw b at z in cc)) (λ j l e z. rw b refl)

pub start-IsFamily :
    (i : ℕ) (t : Table) → IsFamily t → i < nproc → (t.procs i).state ≡ used → IsFamily (start i t)
unfolding start
start-IsFamily i t v lt a = kept-IsFamily i _ t v lt refl (rw a refl) (rw a refl) (λ q. refl)
