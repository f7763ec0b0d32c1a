-- ===== src/Grep/Tests.antt =====
-- Tests of the matcher, and its theorem at a concrete input.
use tatak_os.Base.{ℕ, ◌≡◌, ◌↔◌, refl, true, false, List, [], ◌∷◌}
use tatak_os.Grep.{matchstar, matchhere, matchany, match}
use tatak_os.Grep.Language.{Occurs, match_iff}

-- "a.*c$" and "xabcc"
abbrev expression : List ℕ
expression = 97 ∷ 46 ∷ 42 ∷ 99 ∷ 36 ∷ []

abbrev line : List ℕ
line = 120 ∷ 97 ∷ 98 ∷ 99 ∷ 99 ∷ []

matches : match expression line ≡ true
unfolding match matchany matchhere matchstar
matches = refl

anchored : match (94 ∷ expression) line ≡ false
unfolding match matchany matchhere matchstar
anchored = refl

match_iff_example : (match expression line ≡ true) ↔ Occurs expression line
match_iff_example = match_iff expression line
