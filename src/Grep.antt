-- ===== src/Grep.antt =====
-- user/grep/grep.c (src/user/grep/grep.c in the repository): the matcher of regular expressions.
-- A C string is the list of its bytes, without the zero that ends it. `matchhere` recurs on the
-- expression and `matchstar` on the text.
pub mod Language
mod Tests
use tatak_os.Base.{ℕ, Bool, true, false, ◌&&◌, ◌||◌, List, [], ◌∷◌, ◌==◌, if◌then◌else◌}

abbrev pub caret : ℕ
caret = 94

abbrev pub star : ℕ
star = 42

abbrev pub dollar : ℕ
dollar = 36

abbrev pub dot : ℕ
dot = 46

-- `c == '.' || c == x`
abbrev pub fits : ℕ → ℕ → Bool
fits c x = c == dot || c == x

-- `matchstar` for the character `c`, where `here` is `matchhere` for the expression after the star.
pub matchstar : (List ℕ → Bool) → ℕ → List ℕ → Bool
matchstar here c [] = here []
matchstar here c (x ∷ xs) = let more = matchstar here c xs in here (x ∷ xs) || (fits c x && more)

-- The last test of `matchhere`, where `here` is `matchhere` for the rest of the expression.
abbrev pub matchnext : (List ℕ → Bool) → ℕ → List ℕ → Bool
matchnext here c [] = false
matchnext here c (x ∷ xs) = fits c x && here xs

abbrev pub is_empty : List ℕ → Bool
is_empty [] = true
is_empty (x ∷ xs) = false

pub matchhere : List ℕ → List ℕ → Bool
matchhere [] text = true
matchhere (c ∷ []) text = if c == dollar then is_empty text else matchnext (matchhere []) c text
matchhere (c ∷ d ∷ re) text = elim (d == star) [
  | true ↦ matchstar (matchhere re) c text
  | false ↦ matchnext (matchhere (d ∷ re)) c text
]

-- The loop of `match` over the ends of the text.
pub matchany : (List ℕ → Bool) → List ℕ → Bool
matchany here [] = here []
matchany here (x ∷ xs) = let rest = matchany here xs in here (x ∷ xs) || rest

pub match : List ℕ → List ℕ → Bool
match [] text = matchany (matchhere []) text
match (c ∷ re) text = if c == caret then matchhere re text else matchany (matchhere (c ∷ re)) text
