-- ===== src/Cstring/Tests.antt =====
-- Tests of memory and strings, and their theorems at concrete inputs.
use tatak_os.Base.{◌≡◌, ◌↔◌, inl, inr, refl, ◌||◌, some, arith, length, ◌==◌, if◌then◌else◌}
use tatak_os.Cstring.{
  Bytes, same, copy_up, copy_down, memmove, strncmp, safestrcpy, strlen_from, pad, strncpy,
}
use tatak_os.Cstring.Copying.{moved, memmove_lem}
use tatak_os.Cstring.Comparing.{string_at, strncmp_iff, safestrcpy_lem, strlen_lem}

-- "ab" at 8 and at 12, each with a zero byte after it, and zeros elsewhere.
abbrev memory : Bytes
memory a = if a == 8 || (a == 12) then 97 else if a == 9 || (a == 13) then 98 else 0

memmove_lem_example : memmove 9 8 2 memory 10 ≡ moved 9 8 2 memory 10
memmove_lem_example = memmove_lem 9 8 2 memory 10

overlap : (memmove 9 8 2 memory 9 ≡ 97) × (memmove 9 8 2 memory 10 ≡ 98)
unfolding memmove copy_down copy_up
overlap = (refl, refl)

strncmp_iff_example :
    (strncmp 8 12 5 memory ≡ same) ↔ (string_at 8 5 memory ≡ string_at 12 5 memory)
strncmp_iff_example = strncmp_iff 8 12 5 memory

safestrcpy_lem_example :
    (string_at 20 2 (safestrcpy 20 8 2 memory) ≡ string_at 8 1 memory)
    × (safestrcpy 20 8 2 memory 22 ≡ memory 22)
safestrcpy_lem_example = safestrcpy_lem 20 8 1 memory 22 (inl (omega arith)) (inr (omega arith))

strlen_lem_example : strlen_from 8 0 5 memory ≡ some (length (string_at 8 4 memory))
strlen_lem_example = strlen_lem 8 3 5 memory refl (omega arith)

pads : strncpy 20 8 4 memory 23 ≡ 0
unfolding strncpy pad
pads = refl
