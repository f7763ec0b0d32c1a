-- ===== src/Numbers.antt =====
-- user/lib/printf.c and user/lib/ulib.c (under src/user/lib in the repository): `printint` and
-- `atoi`. An `int` is the number below 2 ^ 32 with its bits.
mod Tests
use tatak_os.Base.{
  ℕ, zero, suc, ◌+◌, ◌-◌, ◌*◌, ◌/◌, ◌%◌, ◌^◌, Bool, false, ◌&&◌, Option, none, some, List, [], ◌∷◌,
  ltb, leb, ◌==◌, if◌then◌else◌, length,
}

-- `digits[d]`
abbrev pub digit : ℕ → ℕ
digit d = if ltb d 10 then 48 + d else 55 + d

-- The size of `buf` in `printint`.
abbrev pub buf_size : ℕ
buf_size = 16

-- The loop of `printint` with room for `n` characters: `buf` from its end, as it is printed; `none`
-- is a write past the end of `buf`.
pub put_digits : ℕ → ℕ → ℕ → List ℕ → Option (List ℕ)
put_digits zero base x buf = none
put_digits (suc n) base x buf =
    let d = digit (x % base) in
    let rest = put_digits n base (x / base) (d ∷ buf) in
    if x / base == 0 then some (d ∷ buf) else rest

-- The characters that `printint` prints, the first one first.
pub printint : ℕ → ℕ → Bool → Option (List ℕ)
printint xx base sgn =
    let neg = sgn && leb (2 ^ 31) xx in
    let x = if neg then (2 ^ 32 - xx) % 2 ^ 32 else xx in
    elim (put_digits buf_size base x []) [
      | none ↦ none
      | some buf ↦
          if neg then (if ltb (length buf) buf_size then some (45 ∷ buf) else none) else some buf
    ]

-- The loop of `atoi` on a string, without its zero byte.
pub atoi_from : ℕ → List ℕ → ℕ
atoi_from n [] = n
atoi_from n (c ∷ s) =
    let rest = atoi_from ((n * 10 + c - 48) % 2 ^ 32) s in if leb 48 c && leb c 57 then rest else n

pub atoi : List ℕ → ℕ
atoi s = atoi_from 0 s

tens : ℕ → ℕ
tens zero = 1
tens (suc n) = 10 * tens n

-- Whether `printint` prints a sign, and the number whose digits it prints.
abbrev pub is_negative : ℕ → Bool → Bool
is_negative x sgn = sgn && leb (2 ^ 31) x

abbrev pub magnitude : ℕ → Bool → ℕ
magnitude x sgn = if is_negative x sgn then 2 ^ 32 - x else x
