-- ===== src/Sysfile/Needs.antt =====
-- kernel/sysfile.c: `argfd` and `fdalloc`, and the references that descriptors need.
use tatak_os.Base.{
  ℕ, zero, suc, ◌+◌, ◌≡◌, ◌≢◌, ◌≤◌, ◌<◌, ◌⊎◌, inl, inr, refl, ◌^◌, ◌||◌, none, some, arith, leb,
  ◌==◌, Bool-cases,
}
use tatak_os.Buffers.Counts.{one_if}
use tatak_os.Disk.{update}
use tatak_os.File.Counts.{count, count-present, count-update}
use tatak_os.File.Table.{IsTable, with_one, no_raw}
use tatak_os.Proc.{nofile}
use tatak_os.Sysfile.{argfd, first_free, fdalloc, Outcome}

-- The references that a process's descriptors need, above those that others need.
abbrev pub needs : (ℕ → ℕ) → (ℕ → ℕ) → ℕ → ℕ
needs others g x = others x + count x g 0 nofile

-- The call does not panic, and every file has as many references as are needed.
unfoldable pub IsSafe : {S : Type 0} → (ℕ → ℕ) → Outcome S → Type 0
IsSafe others none = ⊥
IsSafe others (some (r, (g, t))) = IsTable (needs others g) no_raw t.files

pub needs-present : (others g : ℕ → ℕ) (fd : ℕ) → fd < nofile → 1 ≤ needs others g (g fd)
needs-present others g fd lt =
    omega (arith, count-present g 0 nofile fd (omega arith) (omega (arith, lt)))

pub needs-add :
    (others g : ℕ → ℕ) (fd f x : ℕ)
    → fd < nofile
    → g fd ≡ 0
    → x ≢ 0
    → with_one f (needs others g) x ≡ needs others (update g fd f) x
needs-add others g fd f x lt free p =
    let e = count-update x g fd f 0 nofile (omega arith) (omega (arith, lt)) in
    let z : one_if x (g fd) ≡ 0 = ground arith in omega (arith, e, z)

pub needs-drop :
    (others g : ℕ → ℕ) (fd x : ℕ)
    → fd < nofile
    → x ≢ 0
    → needs others g x ≡ with_one (g fd) (needs others (update g fd 0)) x
needs-drop others g fd x lt p =
    let e = count-update x g fd 0 0 nofile (omega arith) (omega (arith, lt)) in
    let z : one_if x 0 ≡ 0 = ground arith in omega (arith, e, z)

pub first_free-cases :
    (g : ℕ → ℕ) (i n : ℕ)
    → ((first_free g i n ≡ none) × ((j : ℕ) → i ≤ j → j < i + n → g j ≢ 0))
      ⊎ ((fd : ℕ) × (first_free g i n ≡ some fd)
          × (i ≤ fd)
          × (fd < i + n)
          × (g fd ≡ 0)
          × ((j : ℕ) → i ≤ j → j < fd → g j ≢ 0))
unfolding first_free
first_free-cases g i zero = inl (refl, λ j lo hi. absurd (omega arith))
first_free-cases g i (suc n) = elim (Bool-cases (g i == 0)) [
  | inl e ↦
      inr (i, rw e refl, omega arith, omega arith, ground arith, λ j lo hi. absurd (omega arith))
  | inr e ↦ elim (first_free-cases g (i + 1) n) [
    | inl (q, h) ↦ inl (
      rw e q,
      λ j lo hi. elim (Bool-cases (i == j)) [
        | inl s ↦ let same : i ≡ j = ground arith in rw (← same) (ground arith)
        | inr s ↦ h j (ground arith) (omega (arith, hi))
      ],
    )
    | inr (fd, q, lo', hi', z, h) ↦ inr (
      fd,
      rw e q,
      omega (arith, lo'),
      omega (arith, hi'),
      z,
      λ j lo hi. elim (Bool-cases (i == j)) [
        | inl s ↦ let same : i ≡ j = ground arith in rw (← same) (ground arith)
        | inr s ↦ h j (ground arith) hi
      ],
    )
  ]
]

pub fdalloc-cases :
    (f : ℕ) (g : ℕ → ℕ)
    → (fdalloc f g ≡ (none, g))
      ⊎ ((fd : ℕ) × (fdalloc f g ≡ (some fd, update g fd f)) × (fd < nofile) × (g fd ≡ 0))
unfolding fdalloc
fdalloc-cases f g = elim (first_free-cases g 0 nofile) [
  | inl (e, h) ↦ inl (rw (fdalloc, e) refl)
  | inr (fd, e, lo, hi, z, h) ↦ inr (fd, rw (fdalloc, e) refl, omega (arith, hi), z)
]

pub argfd-cases :
    (fd : ℕ) (g : ℕ → ℕ) → (argfd fd g ≡ 0) ⊎ ((fd < nofile) × (argfd fd g ≡ g fd) × (g fd ≢ 0))
unfolding argfd
argfd-cases fd g = elim (Bool-cases (leb (2 ^ 31) fd || leb nofile fd)) [
  | inl e ↦ inl (rw e refl)
  | inr e ↦ elim (Bool-cases (g fd == 0)) [
    | inl z ↦ inl (rw e (ground arith))
    | inr z ↦ inr (ground arith, rw e refl, ground arith)
  ]
]
