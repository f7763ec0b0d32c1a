-- ===== src/Cstring.antt =====
-- kernel/lib/string.c (src/kernel/lib/string.c in the repository): memory and strings.
-- Memory is a function from addresses to bytes; an object does not wrap around the address space.
pub mod Copying
pub mod Comparing
mod Tests
use tatak_os.Base.{
  ℕ, zero, suc, ◌+◌, ◌-◌, ◌%◌, Bool, true, false, not, ◌&&◌, ◌||◌, Option, none, some, ltb, leb,
  ◌==◌, if◌then◌else◌,
}
use tatak_os.Disk.{update}

abbrev pub Bytes : Type 0
Bytes = ℕ → ℕ

-- The difference of two bytes as an `int`.
pub data Difference : Type 0 where
  same : Difference
  above : ℕ → Difference
  below : ℕ → Difference

abbrev pub minus : ℕ → ℕ → Difference
minus a b = if a == b then same else if ltb b a then above (a - b) else below (b - a)

-- The loop of `memset` from index `i` on, for `k` rounds.
pub memset_from : ℕ → ℕ → ℕ → ℕ → Bytes → Bytes
memset_from dst c i zero m = m
memset_from dst c i (suc k) m = memset_from dst c (i + 1) k (update m (dst + i) (c % 256))

pub memset : ℕ → ℕ → ℕ → Bytes → Bytes
memset dst c n m = memset_from dst c 0 n m

pub memcmp : ℕ → ℕ → ℕ → Bytes → Difference
memcmp s1 s2 zero m = same
memcmp s1 s2 (suc n) m =
    let rest = memcmp (s1 + 1) (s2 + 1) n m in if m s1 == m s2 then rest else minus (m s1) (m s2)

-- The two loops of `memmove`: from the end, and from the start.
pub copy_down : ℕ → ℕ → ℕ → Bytes → Bytes
copy_down d s zero m = m
copy_down d s (suc n) m = copy_down d s n (update m (d + n) (m (s + n)))

pub copy_up : ℕ → ℕ → ℕ → Bytes → Bytes
copy_up d s zero m = m
copy_up d s (suc n) m = copy_up (d + 1) (s + 1) n (update m d (m s))

pub memmove : ℕ → ℕ → ℕ → Bytes → Bytes
memmove d s n m =
    if n == 0 then m else if ltb s d && ltb d (s + n) then copy_down d s n m else copy_up d s n m

pub memcpy : ℕ → ℕ → ℕ → Bytes → Bytes
memcpy d s n m = memmove d s n m

pub strncmp : ℕ → ℕ → ℕ → Bytes → Difference
strncmp p q zero m = same
strncmp p q (suc n) m =
    let rest = strncmp (p + 1) (q + 1) n m in
    if not (m p == 0) && (m p == m q) then rest else minus (m p) (m q)

-- The second loop of `strncpy`.
pub pad : ℕ → ℕ → Bytes → Bytes
pad s zero m = m
pad s (suc n) m = pad (s + 1) n (update m s 0)

-- `strncpy`, for `n` that is not negative.
pub strncpy : ℕ → ℕ → ℕ → Bytes → Bytes
strncpy s t zero m = m
strncpy s t (suc n) m =
    let rest = strncpy (s + 1) (t + 1) n (update m s (m t)) in
    if m t == 0 then pad (s + 1) n (update m s (m t)) else rest

-- The loop of `safestrcpy` with `n` rounds left, and the byte after it.
pub safe_copy : ℕ → ℕ → ℕ → Bytes → Bytes
safe_copy s t zero m = update m s 0
safe_copy s t (suc n) m =
    let rest = safe_copy (s + 1) (t + 1) n (update m s (m t)) in
    if m t == 0 then update (update m s (m t)) (s + 1) 0 else rest

pub safestrcpy : ℕ → ℕ → ℕ → Bytes → Bytes
safestrcpy s t zero m = m
safestrcpy s t (suc n) m = safe_copy s t n m

-- The loop of `strlen` from index `n` on, for at most `fuel` rounds.
pub strlen_from : ℕ → ℕ → ℕ → Bytes → Option ℕ
strlen_from s n zero m = none
strlen_from s n (suc fuel) m =
    let rest = strlen_from s (n + 1) fuel m in if m (s + n) == 0 then some n else rest
