-- ===== src/Pipe/Ring.antt =====
-- The array and the two counters of a pipe as a queue of bytes. The counters wrap at 2^32, which
-- `pipe_size` divides, so that the array index goes round without a jump.
use tatak_os.Base.{
  ℕ, zero, suc, ◌+◌, ◌-◌, ◌%◌, ◌^◌, ◌≤◌, ◌<◌, ◌≡◌, ◌↔◌, refl, ap, ap₂, List, [], ◌∷◌, ◌++◌, true,
  false, arith, length, get_or, set, length-set, get_or-set_self, get_or-set_ne,
}
use tatak_os.Pipe.{Pipe, pipe_size, u32, init, put, next_byte, advance, is_empty, is_full}

-- The number of bytes held: `nwrite - nread` in `uint`.
abbrev pub count : Pipe → ℕ
count p = u32 (p.nwrite + 2 ^ 32 - p.nread)

pub record IsValid (p : Pipe) : Type 0 where
  pub storage : length p.bytes ≡ pipe_size
  pub nread_fits : p.nread < 2 ^ 32
  pub nwrite_fits : p.nwrite < 2 ^ 32
  pub room : count p ≤ pipe_size

-- The `n` bytes that the counter `r` reads next.
abbrev pub window : List ℕ → ℕ → ℕ → List ℕ
window bytes r zero = []
window bytes r (suc n) = get_or bytes (r % pipe_size) 0 ∷ window bytes (u32 (r + 1)) n

abbrev pub contents : Pipe → List ℕ
contents p = window p.bytes p.nread (count p)

pub length-window : (bytes : List ℕ) (r n : ℕ) → length (window bytes r n) ≡ n
length-window bytes r zero = refl
length-window bytes r (suc n) = ap suc (length-window bytes (u32 (r + 1)) n)

-- A write at the counter `r + n` extends the window of `n` bytes at `r`.
window-set :
    (bytes : List ℕ) (ch r w n : ℕ)
    → length bytes ≡ pipe_size
    → r < 2 ^ 32
    → n < pipe_size
    → w ≡ u32 (r + n)
    → window (set bytes (w % pipe_size) ch) r (suc n) ≡ window bytes r n ++ (ch ∷ [])
window-set bytes ch r w zero hl hr hn e =
    ap (λ x. x ∷ []) (rw same (get_or-set_self bytes (r % pipe_size) ch 0 (omega arith)))
  where
    same : w % pipe_size ≡ r % pipe_size
    same = omega arith
window-set bytes ch r w (suc n) hl hr hn e =
    ap₂ ◌∷◌ (get_or-set_ne bytes (w % pipe_size) (r % pipe_size) ch 0 (omega arith))
      (window-set bytes ch (u32 (r + 1)) w n hl (omega arith) (omega arith) (omega arith))

-- `pi->nwrite == pi->nread + PIPESIZE`, in wrapped arithmetic, says that the array is full.
pub is_full-count : {p : Pipe} → IsValid p → (is_full p ≡ true) ↔ (count p ≡ pipe_size)
unfolding is_full
is_full-count v = ground arith

pub is_empty-count : {p : Pipe} → IsValid p → (is_empty p ≡ true) ↔ (count p ≡ 0)
unfolding is_empty
is_empty-count v = ground arith

pub put-IsValid : (p : Pipe) (ch : ℕ) → IsValid p → is_full p ≡ false → IsValid (put p ch)
unfolding put is_full
put-IsValid p ch v h = ground (arith, length-set p.bytes (p.nwrite % pipe_size) ch)

pub advance-IsValid : (p : Pipe) → IsValid p → is_empty p ≡ false → IsValid (advance p)
unfolding advance is_empty
advance-IsValid p v h = ground arith

count-put : (p : Pipe) (ch : ℕ) → IsValid p → is_full p ≡ false → count (put p ch) ≡ suc (count p)
unfolding put is_full
count-put p ch v h = ground arith

count-advance : (p : Pipe) → IsValid p → is_empty p ≡ false → count p ≡ suc (count (advance p))
unfolding advance is_empty
count-advance p v h = ground arith

-- Storing a byte appends it to the queue.
pub contents-put :
    (p : Pipe) (ch : ℕ)
    → IsValid p
    → is_full p ≡ false
    → contents (put p ch) ≡ contents p ++ (ch ∷ [])
unfolding put is_full
contents-put p ch v h = rw (count-put p ch v h) (
    window-set p.bytes ch p.nread p.nwrite (count p) v.storage v.nread_fits (ground arith)
      (ground arith))

-- Fetching a byte takes it off the front.
pub contents-advance :
    (p : Pipe) → IsValid p → is_empty p ≡ false → contents p ≡ next_byte p ∷ contents (advance p)
unfolding advance next_byte
contents-advance p v h = rw (count-advance p v h)

-- A new pipe is valid and empty.
pub init-IsValid :
    (page : List ℕ) → length page ≡ pipe_size → IsValid (init page) × (contents (init page) ≡ [])
unfolding init
init-IsValid page h = (ground arith, refl)

pub contents-empty : (p : Pipe) → IsValid p → is_empty p ≡ true → contents p ≡ []
unfolding is_empty
contents-empty p v h = let e : count p ≡ 0 = ground arith in ap (window p.bytes p.nread) e
