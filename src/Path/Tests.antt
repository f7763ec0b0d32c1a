-- ===== src/Path/Tests.antt =====
-- Tests of path names, and their theorem at a concrete input.
use tatak_os.Base.{ℕ, ◌≡◌, refl, some, List, [], ◌∷◌, map, arith, replicate, take}
use tatak_os.Path.{dirsiz, skip_slashes, element, store_name, skipelem, name_of, walk}
use tatak_os.Path.Fields.{fields, nonempty, walk-fields}

-- "///a//bb"
abbrev path : List ℕ
path = 47 ∷ 47 ∷ 47 ∷ 97 ∷ 47 ∷ 47 ∷ 98 ∷ 98 ∷ []

abbrev buffer : List ℕ
buffer = replicate dirsiz 7

walk_collapses_slashes : walk 9 path buffer ≡ some ((97 ∷ []) ∷ (98 ∷ 98 ∷ []) ∷ [])
unfolding walk skipelem skip_slashes element store_name name_of
walk_collapses_slashes = refl

walk-fields_example : walk 9 path buffer ≡ some (map (take dirsiz) (nonempty (fields path)))
walk-fields_example =
    walk-fields 9 path buffer
      (
        omega arith,
        (
          omega arith,
          (
            omega arith,
            (omega arith, (omega arith, (omega arith, (omega arith, (omega arith, tt))))),
          ),
        ),
      )
      (omega arith)
