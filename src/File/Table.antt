-- ===== src/File/Table.antt =====
-- kernel/fs/file.c: the reference counts that `filealloc`, `filedup` and `fileclose` leave.
use tatak_os.Base.{
  ℕ, zero, suc, ◌+◌, ◌-◌, ◌≡◌, ◌≢◌, ◌≤◌, ◌<◌, ◌⊎◌, ◌||◌, inl, inr, refl, sym, Bool, false, some,
  arith, ltb, ◌==◌, Bool-cases,
}
use tatak_os.Buffers.Counts.{one_if}
use tatak_os.Disk.{update, update-cases}
use tatak_os.File.{
  nfile, fd_none, File, Ftable, Lower, find_free, filealloc, filedup, finish, fileclose,
}

-- Every file has as many references as are needed, a free one has no type, and one in use has a
-- type, unless it is still raw.
pub record IsTable (need : ℕ → ℕ) (raw : ℕ → Bool) (fs : ℕ → File) : Type 0 where
  pub counted : (f : ℕ) → f ≢ 0 → (fs f).ref ≡ need f
  pub quiet : (f : ℕ) → f ≢ 0 → (fs f).ref ≡ 0 → (fs f).type ≡ fd_none
  pub typed : (f : ℕ) → f ≢ 0 → raw f ≡ false → 1 ≤ (fs f).ref → (fs f).type ≢ fd_none

-- One more reference to a file.
abbrev pub with_one : ℕ → (ℕ → ℕ) → ℕ → ℕ
with_one f need x = need x + one_if x f

-- No file is raw; and one of them is.
abbrev pub no_raw : ℕ → Bool
no_raw x = false

abbrev pub or_raw : ℕ → (ℕ → Bool) → ℕ → Bool
or_raw f raw x = raw x || (x == f)

pub IsTable-need :
    (need need' : ℕ → ℕ) (raw raw' : ℕ → Bool) (fs : ℕ → File)
    → ((f : ℕ) → f ≢ 0 → need f ≡ need' f)
    → ((f : ℕ) → f ≢ 0 → raw' f ≡ false → raw f ≡ false)
    → IsTable need raw fs
    → IsTable need' raw' fs
IsTable-need need need' raw raw' fs e r w = record {
  counted = λ f p. cc (w.counted f p, e f p);
  quiet = w.quiet;
  typed = λ f p q. w.typed f p (r f p q);
}

-- A file gets another count or another type.
pub IsTable-set :
    (need need' : ℕ → ℕ) (raw raw' : ℕ → Bool) (fs : ℕ → File) (f : ℕ) (v : File)
    → v.ref ≡ need' f
    → (v.ref ≡ 0 → v.type ≡ fd_none)
    → (raw' f ≡ false → 1 ≤ v.ref → v.type ≢ fd_none)
    → ((x : ℕ) → x ≢ f → need' x ≡ need x)
    → ((x : ℕ) → x ≢ f → raw' x ≡ false → raw x ≡ false)
    → IsTable need raw fs
    → IsTable need' raw' (update fs f v)
IsTable-set need need' raw raw' fs f v e q ty same same_raw w = record {
  counted = λ x p. elim (update-cases fs f v x) [
    | inl (i, h) ↦ rw (h, e, i) refl
    | inr (i, h) ↦ let s = same x (λ j. i (sym j)) in rw (h, s) (w.counted x p)
  ];
  quiet = λ x p z. elim (update-cases fs f v x) [
    | inl (i, h) ↦ rw h (q (rw h at z))
    | inr (i, h) ↦ let z' = rw h at z in rw h (w.quiet x p z')
  ];
  typed = λ x p r z. elim (update-cases fs f v x) [
    | inl (i, h) ↦ let z' = rw h at z in rw h (ty (rw (← i) at r) z')
    | inr (i, h) ↦ let z' = rw h at z in rw h (w.typed x p (same_raw x (λ j. i (sym j)) r) z')
  ];
}

pub find_free-cases :
    (fs : ℕ → File) (i n : ℕ)
    → (find_free fs i n ≡ 0)
      ⊎ ((i ≤ find_free fs i n) × (find_free fs i n < i + n) × ((fs (find_free fs i n)).ref ≡ 0))
unfolding find_free
find_free-cases fs i zero = inl refl
find_free-cases fs i (suc n) = elim (Bool-cases ((fs i).ref == 0)) [
  | inl e ↦ inr (rw e (omega arith), rw e (omega arith), rw e (ground arith))
  | inr e ↦ elim (find_free-cases fs (i + 1) n) [
    | inl h ↦ inl (rw e h)
    | inr (lo, hi, h) ↦ inr (rw e (omega arith), rw e (omega arith), rw e h)
  ]
]

pub filealloc-cases :
    (need : ℕ → ℕ) (raw : ℕ → Bool) (fs : ℕ → File)
    → IsTable need raw fs
    → (filealloc fs ≡ (0, fs))
      ⊎ ((f : ℕ) × (fs' : ℕ → File) × (filealloc fs ≡ (f, fs'))
          × (f ≢ 0)
          × (need f ≡ 0)
          × IsTable (with_one f need) (or_raw f raw) fs')
unfolding filealloc
filealloc-cases need raw fs w = elim (find_free-cases fs 1 nfile) [
  | inl e ↦ inl (rw e refl)
  | inr (lo, hi, h) ↦
      let f : ℕ = find_free fs 1 nfile in
      let here : f ≢ 0 = λ e. absurd (omega (arith, lo, e)) in
      let none_needed : need f ≡ 0 = cc (w.counted f here, h) in
      let other : (f == 0) ≡ false = ground arith in
      inr (
        f,
        update fs f (record (fs f) { ref = 1 }),
        rw other refl,
        here,
        none_needed,
        IsTable-set need (with_one f need) raw (or_raw f raw) fs f (record (fs f) { ref = 1 })
            (ground arith) (λ z. absurd (omega arith)) (λ r. absurd (ground arith))
            (λ x p. ground arith) (λ x p r. ground arith) w,
      )
]

pub filedup-IsTable :
    (need : ℕ → ℕ) (raw : ℕ → Bool) (fs : ℕ → File) (f : ℕ)
    → f ≢ 0
    → 1 ≤ need f
    → IsTable need raw fs
    → (fs' : ℕ → File) × (filedup f fs ≡ some fs') × IsTable (with_one f need) raw fs'
unfolding filedup
filedup-IsTable need raw fs f here pos w =
    let e = w.counted f here in
    let guard : ltb (fs f).ref 1 ≡ false = ground arith in
    let v : File = record (fs f) { ref = (fs f).ref + 1 } in
    (
      update fs f v,
      rw guard refl,
      IsTable-set need (with_one f need) raw raw fs f v (ground arith) (λ z. absurd (omega arith))
          (λ r z. w.typed f here r (omega (arith, pos, e))) (λ x p. ground arith) (λ x p r. r) w,
    )

-- The last reference to a file may be raw.
pub fileclose-IsTable :
    {S : Type 0} (lower : Lower S) (need : ℕ → ℕ) (raw raw' : ℕ → Bool) (t : Ftable S) (f : ℕ)
    → f ≢ 0
    → ((x : ℕ) → raw' x ≡ false → (raw x ≡ false) ⊎ ((x ≡ f) × (need f ≡ 0)))
    → IsTable (with_one f need) raw t.files
    → (t' : Ftable S) × (fileclose lower f t ≡ some t') × IsTable need raw' t'.files
unfolding fileclose
fileclose-IsTable lower need raw raw' t f here less w =
    let e = w.counted f here in
    let ff : File = t.files f in
    let guard : ltb (t.files f).ref 1 ≡ false = ground arith in
    let others : (x : ℕ) → x ≢ f → raw' x ≡ false → raw x ≡ false =
      λ x p r. elim (less x r) [ inl h ↦ h | inr (i, z) ↦ absurd (p i) ] in
    elim (Bool-cases (ltb 0 ((t.files f).ref - 1))) [
      | inl more ↦
          let v : File = record ff { ref = ff.ref - 1 } in
          (
            record t { files = update t.files f v },
            rw (guard, more) refl,
            IsTable-set (with_one f need) need raw raw' t.files f v (ground arith)
                (λ z. absurd (ground arith))
                (λ r z. elim (less f r) [
                  | inl h ↦ w.typed f here h (omega (arith, z))
                  | inr (i, n) ↦ absurd (ground arith)
                ])
                (λ x p. ground arith) others w,
          )
      | inr last ↦
          let v : File = record ff { ref = 0; type = fd_none } in
          (
            record { files = update t.files f v; rest = finish lower ff t.rest },
            rw (guard, last) refl,
            IsTable-set (with_one f need) need raw raw' t.files f v (ground arith) (λ z. refl)
                (λ r z. absurd (omega arith)) (λ x p. ground arith) others w,
          )
    ]
