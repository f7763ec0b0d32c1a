-- ===== src/Proc/Reparent.antt =====
-- kernel/proc.c: reparent, which hands the children of a process to init.
use tatak_os.Base.{
  ℕ, zero, suc, ◌+◌, ◌≡◌, ◌≤◌, ◌<◌, inl, inr, refl, ◌∙◌, true, false, ◌&&◌, Option, some, arith,
  ltb, leb, ◌==◌, if◌then◌else◌, Bool-cases,
}
use tatak_os.Disk.{update, update_self, update_ne}
use tatak_os.Proc.{nproc, slot, is_parent, Table, set_proc, wakeup, reparent_from, reparent}
use tatak_os.Proc.Loops.{
  IsWoken, IsWoken-same, IsWoken-trans, IsWoken-quiet, waits_on, wakeup-IsWoken, wakeup_parent,
  wakeup_quiet,
}

-- What reparent has done to the slots from `lo` on, for `n` slots.
pub record Reparented (me lo n : ℕ) (t t' : Table) : Type 0 where
  pub same_init : t'.initproc ≡ t.initproc
  pub same_next : t'.nextpid ≡ t.nextpid
  pub woken : (j : ℕ) → IsWoken (t.procs j) (t'.procs j)
  pub parent :
      (j : ℕ)
      → (t'.procs j).parent ≡ (
          if leb lo j && ltb j (lo + n) && is_parent me (t.procs j).parent
          then some t.initproc
          else (t.procs j).parent)
  -- If a child was found then init does not sleep in `wait`.
  pub told :
      (j : ℕ)
      → lo ≤ j
      → j < lo + n
      → is_parent me (t.procs j).parent ≡ true
      → waits_on (slot t.initproc) (t'.procs t.initproc) ≡ false

-- One round, at a child.
abbrev given : ℕ → ℕ → Table → Table
given me i t =
    wakeup (some me) (slot t.initproc)
      (set_proc i (record (t.procs i) { parent = some t.initproc }) t)

set-IsWoken :
    (i : ℕ) (t : Table) (j : ℕ)
    → IsWoken (t.procs j) (update t.procs i (record (t.procs i) { parent = some t.initproc }) j)
set-IsWoken i t j = elim (Bool-cases (i == j)) [
  | inl e ↦
      let same : j ≡ i = ground arith in
      rw (same, update_self t.procs i (record (t.procs i) { parent = some t.initproc }))
        (record { state = inl refl; chan = refl; pid = refl; killed = refl })
  | inr e ↦ IsWoken-same _ _ (update_ne t.procs i j _ (ground arith))
]

given-IsWoken : (me i : ℕ) (t : Table) (j : ℕ) → IsWoken (t.procs j) ((given me i t).procs j)
given-IsWoken me i t j =
    let u = set_proc i (record (t.procs i) { parent = some t.initproc }) t in
    IsWoken-trans (t.procs j) (u.procs j) ((given me i t).procs j) (set-IsWoken i t j)
      (wakeup-IsWoken (some me) (slot t.initproc) u j)

given_parent :
    (me i : ℕ) (t : Table) (j : ℕ)
    → ((given me i t).procs j).parent ≡ (if i == j then some t.initproc else (t.procs j).parent)
given_parent me i t j = wakeup_parent (some me) (slot t.initproc) _ j ∙ ground arith

-- The parent of slot `j` after the round at child `i` and the rounds after it.
round_parent :
    (me i j n q : ℕ) (g p : Option ℕ)
    → g ≡ (if i == j then some q else p)
    → ((i == j) ≡ true → is_parent me p ≡ true)
    → (if leb (i + 1) j && ltb j (i + 1 + n) && is_parent me g then some q else g)
      ≡ (if leb i j && ltb j (i + suc n) && is_parent me p then some q else p)
round_parent me i j n q g p e child = elim (Bool-cases (i == j)) [
  | inl y ↦ let h = child y in let f : g ≡ some q = rw y at e in rw (f, h) (ground arith)
  | inr y ↦ let f : g ≡ p = rw y at e in rw f (ground arith)
]

reparent_from_lem :
    (me i n : ℕ) (t : Table)
    → t.initproc < nproc
    → is_parent t.initproc (some me) ≡ false
    → Reparented me i n t (reparent_from me i n t)
unfolding reparent_from wakeup
reparent_from_lem me i zero t lt ne = record {
  same_init = refl;
  same_next = refl;
  woken = λ j. IsWoken-same _ _ refl;
  parent = λ j. ground arith;
  told = λ j lo hi e. absurd (omega arith);
}
reparent_from_lem me i (suc n) t lt ne = elim (Bool-cases (is_parent me (t.procs i).parent)) [
  | inl e ↦
      let u = given me i t in
      let r = reparent_from_lem me (i + 1) n u lt ne in
      rw e (record {
        same_init = r.same_init;
        same_next = r.same_next;
        woken = λ j. IsWoken-trans (t.procs j) (u.procs j) _ (given-IsWoken me i t j) (r.woken j);
        parent = λ j.
            r.parent j
            ∙ round_parent me i j n t.initproc _ _ (given_parent me i t j)
                (λ y. let same : j ≡ i = ground arith in rw same e);
        told = λ j lo hi h.
            IsWoken-quiet (slot t.initproc) (u.procs t.initproc) _ (r.woken t.initproc) (
              wakeup_quiet (some me) (slot t.initproc)
                (set_proc i (record (t.procs i) { parent = some t.initproc }) t) t.initproc lt ne);
      })
  | inr e ↦
      let r = reparent_from_lem me (i + 1) n t lt ne in
      rw e (record {
        same_init = r.same_init;
        same_next = r.same_next;
        woken = r.woken;
        parent = λ j. r.parent j ∙ (elim (Bool-cases (i == j)) [
          | inl q ↦ let same : j ≡ i = ground arith in rw (same, e) (ground arith)
          | inr q ↦ ground arith
        ]);
        told = λ j lo hi h. elim (Bool-cases (i == j)) [
          | inl q ↦ let same : j ≡ i = ground arith in absurd (let k = rw same at h in cc)
          | inr q ↦ r.told j (ground arith) (omega arith) h
        ];
      })
]

pub reparent_lem :
    (me : ℕ) (t : Table)
    → t.initproc < nproc
    → is_parent t.initproc (some me) ≡ false
    → Reparented me 0 nproc t (reparent me t)
unfolding reparent
reparent_lem me t lt ne = reparent_from_lem me 0 nproc t lt ne
