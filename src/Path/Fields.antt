-- ===== src/Path/Fields.antt =====
-- kernel/fs/fs.c: the elements of a path are its fields between slashes.
use tatak_os.Base.{
  ℕ, zero, suc, ◌+◌, ◌≡◌, ◌≢◌, ◌≤◌, ◌<◌, ◌⊎◌, inl, inr, refl, sym, ◌∙◌, ap, false, none, some, List,
  [], ◌∷◌, ◌++◌, map, arith, leb, ◌==◌, if◌then◌else◌, length, take, drop, Bool-cases,
}
use tatak_os.Path.{dirsiz, slash, skip_slashes, element, store_name, skipelem, name_of, walk}

-- The fields of a path, and among them the empty ones, left of, right of and between slashes.
abbrev pub extend : ℕ → List (List ℕ) → List (List ℕ)
extend c [] = (c ∷ []) ∷ []
extend c (f ∷ fs) = (c ∷ f) ∷ fs

abbrev pub fields : List ℕ → List (List ℕ)
fields [] = [] ∷ []
fields (c ∷ cs) = if c == slash then [] ∷ fields cs else extend c (fields cs)

abbrev pub nonempty : List (List ℕ) → List (List ℕ)
nonempty [] = []
nonempty ([] ∷ fs) = nonempty fs
nonempty ((c ∷ f) ∷ fs) = (c ∷ f) ∷ nonempty fs

-- No byte of a C string is zero.
abbrev pub IsString : List ℕ → Type 0
IsString [] = Unit {0}
IsString (c ∷ cs) = (c ≢ 0) × IsString cs

nonempty-skip : (p : List ℕ) → nonempty (fields (skip_slashes p)) ≡ nonempty (fields p)
unfolding skip_slashes
nonempty-skip [] = refl
nonempty-skip (c ∷ cs) = elim (Bool-cases (c == slash)) [
  | inl e ↦ rw e (nonempty-skip cs)
  | inr e ↦ rw e (rw e refl)
]

-- The first field is the element, and the others are those after its slash.
fields-element :
    (p : List ℕ)
    → (fs : List (List ℕ)) × (fields p ≡ (element p).0 ∷ fs)
      × (nonempty fs ≡ nonempty (fields (element p).1))
unfolding element
fields-element [] = ([], refl, refl)
fields-element (c ∷ cs) = elim (Bool-cases (c == slash)) [
  | inl e ↦ (fields cs, rw e refl, rw e (rw e refl))
  | inr e ↦ let (fs, q, r) = fields-element cs in (fs, rw (e, q) refl, rw e r)
]

name_of-zero :
    (k : ℕ) (s t : List ℕ) → IsString s → length s < k → name_of k (s ++ 0 ∷ t) ≡ take k s
unfolding name_of
name_of-zero zero s t h lt = absurd (omega arith)
name_of-zero (suc k) [] t h lt = refl
name_of-zero (suc k) (c ∷ s) t (ne, h) lt =
    let z : (c == 0) ≡ false = ground arith in
    rw z (ap (λ l. c ∷ l) (name_of-zero k s t h (omega arith)))

name_of-full :
    (k : ℕ) (s t : List ℕ) → IsString s → k ≤ length s → name_of k (take k s ++ t) ≡ take k s
unfolding name_of
name_of-full zero s t h le = refl
name_of-full (suc k) [] t h le = absurd (omega arith)
name_of-full (suc k) (c ∷ s) t (ne, h) le =
    let z : (c == 0) ≡ false = ground arith in
    rw z (ap (λ l. c ∷ l) (name_of-full k s t h (omega arith)))

name_of-store_name :
    (s name : List ℕ) → IsString s → name_of dirsiz (store_name s name) ≡ take dirsiz s
unfolding store_name
name_of-store_name s name h = elim (Bool-cases (leb dirsiz (length s))) [
  | inl e ↦ rw e (name_of-full dirsiz s (drop dirsiz name) h (ground arith))
  | inr e ↦ rw e (name_of-zero dirsiz s (drop (length s + 1) name) h (ground arith))
]

-- Some path that is no longer than `n`.
abbrev IsShort : ℕ → List ℕ → Type 0
IsShort n p = IsString p × (length p ≤ n)

skip-IsShort : (n : ℕ) (p : List ℕ) → IsShort n p → IsShort n (skip_slashes p)
unfolding skip_slashes
skip-IsShort n [] h = h
skip-IsShort n (c ∷ cs) ((ne, h), le) = elim (Bool-cases (c == slash)) [
  | inl e ↦ rw e (skip-IsShort n cs (h, omega arith))
  | inr e ↦ rw e ((ne, h), le)
]

element-IsShort :
    (n : ℕ) (p : List ℕ) → IsShort n p → IsString (element p).0 × IsShort n (element p).1
unfolding element
element-IsShort n [] h = (tt, h)
element-IsShort n (c ∷ cs) ((ne, h), le) = elim (Bool-cases (c == slash)) [
  | inl e ↦ rw e (tt, ((ne, h), le))
  | inr e ↦ let (s, r) = element-IsShort n cs (h, omega arith) in rw e ((ne, s), r)
]

skip-cases :
    (p : List ℕ)
    → (skip_slashes p ≡ [])
      ⊎ ((c : ℕ) × (cs : List ℕ) × (skip_slashes p ≡ c ∷ cs) × ((c == slash) ≡ false))
unfolding skip_slashes
skip-cases [] = inl refl
skip-cases (c ∷ cs) = elim (Bool-cases (c == slash)) [
  | inl e ↦ rw e (skip-cases cs)
  | inr e ↦ inr (c, cs, rw e refl, e)
]

-- The rest of the path after the element, its slashes passed.
abbrev after : List ℕ → List ℕ
after p = skip_slashes (element p).1

skipelem-none : (p name : List ℕ) → skip_slashes p ≡ [] → skipelem p name ≡ none
unfolding skipelem
skipelem-none p name e = rw (skipelem, e) refl

skipelem-some :
    (p name : List ℕ) (c : ℕ) (cs : List ℕ)
    → skip_slashes p ≡ c ∷ cs
    → skipelem p name ≡ some (after (c ∷ cs), store_name (element (c ∷ cs)).0 name)
unfolding skipelem
skipelem-some p name c cs e = rw (skipelem, e) refl

after-shorter :
    (n c : ℕ) (cs : List ℕ)
    → (c == slash) ≡ false
    → IsShort n (c ∷ cs)
    → IsString (after (c ∷ cs)) × (length (after (c ∷ cs)) < n)
unfolding element
after-shorter n c cs e ((ne, h), le) =
    let short = element-IsShort (length cs) cs (h, omega arith) in
    let (s, l) = skip-IsShort (length cs) (element cs).1 short.1 in rw e (s, omega arith)

fields_none : (p : List ℕ) → skip_slashes p ≡ [] → nonempty (fields p) ≡ []
fields_none p e = sym (nonempty-skip p) ∙ ap (λ l. nonempty (fields l)) e

fields_some :
    (p : List ℕ) (c : ℕ) (cs : List ℕ)
    → skip_slashes p ≡ c ∷ cs
    → (c == slash) ≡ false
    → nonempty (fields p) ≡ (element (c ∷ cs)).0 ∷ nonempty (fields (after (c ∷ cs)))
unfolding element
fields_some p c cs e ne =
    let (fs, q, r) = fields-element cs in
    sym (nonempty-skip p)
    ∙ ap (λ l. nonempty (fields l)) e
    ∙ rw (ne, q) (ap (λ l. (c ∷ (element cs).0) ∷ l) (r ∙ sym (nonempty-skip (element cs).1)))

-- The names that `namex` looks up are the fields of the path between slashes, without the empty
-- ones and cut to DIRSIZ bytes, whatever the buffer held before. A round for each byte of the path
-- and one more are enough, so the loop ends.
pub walk-fields :
    (fuel : ℕ) (path name : List ℕ)
    → IsString path
    → length path < fuel
    → walk fuel path name ≡ some (map (take dirsiz) (nonempty (fields path)))
unfolding walk
walk-fields zero path name h lt = absurd (omega arith)
walk-fields (suc fuel) path name h lt = elim (skip-cases path) [
  | inl e ↦ rw (walk, skipelem-none path name e, fields_none path e) refl
  | inr (c, cs, e, ne) ↦
      let short : IsShort fuel (c ∷ cs) = rw e at (skip-IsShort fuel path (h, omega arith)) in
      let shorter = after-shorter fuel c cs ne short in
      let s = (element (c ∷ cs)).0 in
      let ih =
        walk-fields fuel (after (c ∷ cs)) (store_name s name) shorter.0
          (omega (arith, shorter.1)) in
      let one = name_of-store_name s name (element-IsShort fuel (c ∷ cs) short).0 in
      rw (walk, skipelem-some path name c cs e, ih, one, fields_some path c cs e ne) refl
]
