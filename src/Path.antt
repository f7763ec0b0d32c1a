-- ===== src/Path.antt =====
-- kernel/fs/fs.c (src/kernel/fs/fs.c in the repository): the elements of a path name.
-- A C string is the list of its bytes, without the zero that ends it.
pub mod Fields
mod Tests
use tatak_os.Base.{
  ℕ, zero, suc, ◌+◌, Bool, true, false, Option, none, some, List, [], ◌∷◌, ◌++◌, leb, ◌==◌,
  if◌then◌else◌, length, take, drop,
}

-- DIRSIZ of include/kernel/fs.h, and the character '/'.
abbrev pub dirsiz : ℕ
dirsiz = 14

abbrev pub slash : ℕ
slash = 47

-- The loops over slashes.
pub skip_slashes : List ℕ → List ℕ
skip_slashes [] = []
skip_slashes (c ∷ cs) = if c == slash then skip_slashes cs else c ∷ cs

-- The loop over an element: the element, and the path from there on.
pub element : List ℕ → List ℕ × List ℕ
element [] = ([], [])
element (c ∷ cs) = let (s, rest) = element cs in if c == slash then ([], c ∷ cs) else (c ∷ s, rest)

-- What is stored in the buffer `name` for the element `s`.
pub store_name : List ℕ → List ℕ → List ℕ
store_name s name =
    if leb dirsiz (length s)
    then take dirsiz s ++ drop dirsiz name
    else s ++ 0 ∷ drop (length s + 1) name

-- The rest of the path, and the buffer `name`.
pub skipelem : List ℕ → List ℕ → Option (List ℕ × List ℕ)
skipelem path name = elim (skip_slashes path) [
  | [] ↦ none
  | c ∷ cs ↦ let (s, rest) = element (c ∷ cs) in some (skip_slashes rest, store_name s name)
]

-- A name in a buffer ends at a zero byte, or after `k` bytes.
pub name_of : ℕ → List ℕ → List ℕ
name_of zero xs = []
name_of (suc k) [] = []
name_of (suc k) (x ∷ xs) = if x == 0 then [] else x ∷ name_of k xs

-- The names that the loop of `namex` looks up, for at most `fuel` rounds.
pub walk : ℕ → List ℕ → List ℕ → Option (List (List ℕ))
walk zero path name = none
walk (suc fuel) path name = elim (skipelem path name) [
  | none ↦ some []
  | some (rest, name') ↦ elim (walk fuel rest name') [
    | none ↦ none
    | some ns ↦ some (name_of dirsiz name' ∷ ns)
  ]
]
