-- ===== src/Grep/Language.antt =====
-- user/grep/grep.c: the texts that an expression stands for.
use tatak_os.Base.{
  ℕ, ◌≡◌, ◌↔◌, inl, inr, refl, ap, Bool, true, false, ◌&&◌, List, [], ◌∷◌, ◌++◌, arith, ◌==◌,
  Bool-cases,
}
use tatak_os.Grep.{
  caret, star, dollar, fits, matchstar, matchnext, is_empty, matchhere, matchany, match,
}

-- The character `c` stands for each byte of a text.
abbrev pub AllFit : ℕ → List ℕ → Type 0
AllFit c [] = Unit {0}
AllFit c (x ∷ xs) = (fits c x ≡ true) × AllFit c xs

-- The text is a run of bytes that fit `c`, and a rest with property `P`.
abbrev pub Starred : (List ℕ → Type 0) → ℕ → List ℕ → Type 0
Starred P c text = (ys : List ℕ) × (zs : List ℕ) × (text ≡ ys ++ zs) × AllFit c ys × P zs

-- The text is a byte that fits `c`, and a rest with property `P`.
abbrev pub Next : (List ℕ → Type 0) → ℕ → List ℕ → Type 0
Next P c text = (x : ℕ) × (xs : List ℕ) × (text ≡ x ∷ xs) × (fits c x ≡ true) × P xs

-- The expression stands for some first part of the text.
pub Starts : List ℕ → List ℕ → Type 0
Starts [] text = Unit {0}
Starts (c ∷ []) text = elim (c == dollar) [ true ↦ text ≡ [] | false ↦ Next (Starts []) c text ]
Starts (c ∷ d ∷ re) text = elim (d == star) [
  | true ↦ Starred (Starts re) c text
  | false ↦ Next (Starts (d ∷ re)) c text
]

-- The expression stands for a part of the text, or for its first part if it begins with a caret.
abbrev Somewhere : (List ℕ → Type 0) → List ℕ → Type 0
Somewhere P text = (us : List ℕ) × (vs : List ℕ) × (text ≡ us ++ vs) × P vs

pub Occurs : List ℕ → List ℕ → Type 0
Occurs [] text = Somewhere (Starts []) text
Occurs (c ∷ re) text = elim (c == caret) [
  | true ↦ Starts re text
  | false ↦ Somewhere (Starts (c ∷ re)) text
]

-- A test that decides a property.
abbrev Decides : (List ℕ → Bool) → (List ℕ → Type 0) → Type 0
Decides test P = (text : List ℕ) → (test text ≡ true) ↔ P text

matchstar_here :
    (c : ℕ) (test : List ℕ → Bool) (zs : List ℕ) → test zs ≡ true → matchstar test c zs ≡ true
unfolding matchstar
matchstar_here c test [] h = h
matchstar_here c test (z ∷ zs) h = rw h refl

matchstar_run :
    (c : ℕ) (test : List ℕ → Bool) (ys zs : List ℕ)
    → AllFit c ys
    → test zs ≡ true
    → matchstar test c (ys ++ zs) ≡ true
unfolding matchstar
matchstar_run c test [] zs a h = matchstar_here c test zs h
matchstar_run c test (y ∷ ys) zs (f, a) h = rw (f, matchstar_run c test ys zs a h) (ground arith)

matchstar_found :
    (c : ℕ) (test : List ℕ → Bool) (P : List ℕ → Type 0)
    → Decides test P
    → (text : List ℕ) → matchstar test c text ≡ true
    → Starred P c text
unfolding matchstar
matchstar_found c test P d [] h = ([], [], refl, tt, (d []).0 h)
matchstar_found c test P d (x ∷ xs) h = elim (Bool-cases (test (x ∷ xs))) [
  | inl y ↦ ([], x ∷ xs, refl, tt, (d (x ∷ xs)).0 y)
  | inr y ↦
      let both : (fits c x && matchstar test c xs) ≡ true = rw y at h in
      elim (Bool-cases (fits c x)) [
        | inl f ↦
            let (ys, zs, e, a, p) = matchstar_found c test P d xs (rw f at both) in
            (x ∷ ys, zs, ap (λ l. x ∷ l) e, (f, a), p)
        | inr f ↦ absurd (let k = rw f at both in cc)
      ]
]

matchstar_iff :
    (c : ℕ) (test : List ℕ → Bool) (P : List ℕ → Type 0)
    → Decides test P
    → Decides (matchstar test c) (Starred P c)
matchstar_iff c test P d text = (
  matchstar_found c test P d text,
  λ (ys, zs, e, a, p). rw e (matchstar_run c test ys zs a ((d zs).1 p)),
)

matchnext_found :
    (c : ℕ) (test : List ℕ → Bool) (P : List ℕ → Type 0)
    → Decides test P
    → (text : List ℕ) → matchnext test c text ≡ true
    → Next P c text
matchnext_found c test P d [] h = absurd (cc)
matchnext_found c test P d (x ∷ xs) h = elim (Bool-cases (fits c x)) [
  | inl f ↦ (x, xs, refl, f, (d xs).0 (rw f at h))
  | inr f ↦ absurd (let k = rw f at h in cc)
]

matchnext_iff :
    (c : ℕ) (test : List ℕ → Bool) (P : List ℕ → Type 0)
    → Decides test P
    → Decides (matchnext test c) (Next P c)
matchnext_iff c test P d text = (
  matchnext_found c test P d text,
  λ (y, ys, e, f, p). let h = (d ys).1 p in rw e (rw (f, h) refl),
)

is_empty_iff : (text : List ℕ) → (is_empty text ≡ true) ↔ (text ≡ [])
is_empty_iff [] = (λ h. refl, λ h. refl)
is_empty_iff (x ∷ xs) = (λ h. absurd (cc), λ h. absurd (cc))

matchhere_iff : (re : List ℕ) → Decides (matchhere re) (Starts re)
unfolding matchhere Starts
matchhere_iff [] text = (λ h. tt, λ h. refl)
matchhere_iff (c ∷ []) text = elim (Bool-cases (c == dollar)) [
  | inl e ↦ rw (matchhere, Starts, e) (is_empty_iff text)
  | inr e ↦
      rw (matchhere, Starts, e) (matchnext_iff c (matchhere []) (Starts []) (matchhere_iff []) text)
]
matchhere_iff (c ∷ d ∷ re) text = elim (Bool-cases (d == star)) [
  | inl e ↦
      rw (matchhere, Starts, e) (matchstar_iff c (matchhere re) (Starts re) (matchhere_iff re) text)
  | inr e ↦
      rw (matchhere, Starts, e)
        (matchnext_iff c (matchhere (d ∷ re)) (Starts (d ∷ re)) (matchhere_iff (d ∷ re)) text)
]

matchany_run :
    (test : List ℕ → Bool) (us vs : List ℕ) → test vs ≡ true → matchany test (us ++ vs) ≡ true
unfolding matchany
matchany_run test [] [] h = h
matchany_run test [] (v ∷ vs) h = rw h refl
matchany_run test (u ∷ us) vs h = rw (matchany_run test us vs h) (ground arith)

matchany_found :
    (test : List ℕ → Bool) (P : List ℕ → Type 0)
    → Decides test P
    → (text : List ℕ) → matchany test text ≡ true
    → Somewhere P text
unfolding matchany
matchany_found test P d [] h = ([], [], refl, (d []).0 h)
matchany_found test P d (x ∷ xs) h = elim (Bool-cases (test (x ∷ xs))) [
  | inl y ↦ ([], x ∷ xs, refl, (d (x ∷ xs)).0 y)
  | inr y ↦
      let (us, vs, e, p) = matchany_found test P d xs (rw y at h) in
      (x ∷ us, vs, ap (λ l. x ∷ l) e, p)
]

matchany_iff :
    (test : List ℕ → Bool) (P : List ℕ → Type 0)
    → Decides test P
    → Decides (matchany test) (Somewhere P)
matchany_iff test P d text =
    (matchany_found test P d text, λ (us, vs, e, p). rw e (matchany_run test us vs ((d vs).1 p)))

-- `match` answers 1 exactly if the expression stands for a part of the text: its first part if the
-- expression begins with `^`, and up to its end if it ends with `$`.
pub match_iff : (re text : List ℕ) → (match re text ≡ true) ↔ Occurs re text
unfolding match Occurs
match_iff [] text = matchany_iff (matchhere []) (Starts []) (matchhere_iff []) text
match_iff (c ∷ re) text = elim (Bool-cases (c == caret)) [
  | inl e ↦ rw (match, Occurs, e) (matchhere_iff re text)
  | inr e ↦
      rw (match, Occurs, e)
        (matchany_iff (matchhere (c ∷ re)) (Starts (c ∷ re)) (matchhere_iff (c ∷ re)) text)
]
