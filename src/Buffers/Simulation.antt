-- ===== src/Buffers/Simulation.antt =====
-- An implementation of `Ops` keeps the promises of the abstract cache; programs over `Ops` inherit
-- them. `Sim R m n`: wherever the abstract run `n` returns, the concrete run `m` returns the same.
use tatak_os.Base.{ℕ, ◌≡◌, sym, ◌∙◌, inl, inr, Option, none, some, Option-cases}
use tatak_os.Disk.{Block}
use tatak_os.Buffers.{M, ◌>>=◌, ◌>>◌, pure, Ops, >>=-ok, >>-ok}
use tatak_os.Buffers.Spec.{Cache, spec}

abbrev pub Sim : {S A : Type 0} → (S → Cache → Type 0) → M S A → M Cache A → Type 0
Sim {S} {A} R m n =
    (s : S) (c : Cache) (r : A) (c' : Cache)
    → R s c
    → n c ≡ some (r, c')
    → (s' : S) × (m s ≡ some (r, s')) × R s' c'

-- Each operation of `ops` simulates the one of the abstract cache.
pub record Simulates {S : Type 0} (ops : Ops S) (R : S → Cache → Type 0) : Type 0 where
  pub bread : (b : ℕ) → Sim R (ops.bread b) (spec.bread b)
  pub fill : (b : ℕ) (x : Block) → Sim R (ops.fill b x) (spec.fill b x)
  pub bwrite : (b : ℕ) → Sim R (ops.bwrite b) (spec.bwrite b)
  pub brelse : (b : ℕ) → Sim R (ops.brelse b) (spec.brelse b)
  pub bpin : (b : ℕ) → Sim R (ops.bpin b) (spec.bpin b)
  pub bunpin : (b : ℕ) → Sim R (ops.bunpin b) (spec.bunpin b)

some_pair :
    {A B : Type 0} (a a' : A) (b b' : B)
    → ◌≡◌ {A = Option (A × B)} (some (a, b)) (some (a', b'))
    → (a ≡ a') × (b ≡ b')
some_pair a a' b b' e = (cc, cc)

-- A block of calls gets stuck with its first call.
bind_none : {S A B : Type 0} (n : M S A) (g : A → M S B) (c : S) → n c ≡ none → (n >>= g) c ≡ none
bind_none n g c e = rw (e, ◌>>=◌)

then_none : {S B : Type 0} (n : M S (Unit {0})) (l : M S B) (c : S) → n c ≡ none → (n >> l) c ≡ none
then_none n l c e = rw (e, ◌>>◌)

none-some : {A : Type 0} {a : A} → ¬ (none ≡ some a)
none-some e = cc

module _ {S : Type 0} (R : S → Cache → Type 0) where
  pub Sim-pure : {A : Type 0} (a : A) → Sim R (pure a) (pure a)
  Sim-pure a s c r c' rel e =
      let (same, still) = some_pair a r c c' e in (s, rw same, rw still at rel)

  pub Sim-bind :
      {A B : Type 0} (m : M S A) (n : M Cache A) (f : A → M S B) (g : A → M Cache B)
      → Sim R m n
      → ((a : A) → Sim R (f a) (g a))
      → Sim R (m >>= f) (n >>= g)
  Sim-bind m n f g first rest s c r c' rel e = elim (Option-cases (n c)) [
    | inl stuck ↦ absurd (none-some (sym (bind_none n g c stuck) ∙ e))
    | inr ((a, c1), e1) ↦
        let (s1, m1, rel1) = first s c a c1 rel e1 in
        let (s2, m2, rel2) = rest a s1 c1 r c' rel1 (sym (>>=-ok n g e1) ∙ e) in
        (s2, >>=-ok m f m1 ∙ m2, rel2)
  ]

  pub Sim-then :
      {B : Type 0} (m : M S (Unit {0})) (n : M Cache (Unit {0})) (k : M S B) (l : M Cache B)
      → Sim R m n
      → Sim R k l
      → Sim R (m >> k) (n >> l)
  Sim-then m n k l first rest s c r c' rel e = elim (Option-cases (n c)) [
    | inl stuck ↦ absurd (none-some (sym (then_none n l c stuck) ∙ e))
    | inr ((a, c1), e1) ↦
        let (s1, m1, rel1) = first s c a c1 rel e1 in
        let (s2, m2, rel2) = rest s1 c1 r c' rel1 (sym (>>-ok n l e1) ∙ e) in
        (s2, >>-ok m k m1 ∙ m2, rel2)
  ]
