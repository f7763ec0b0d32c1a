-- ===== src/Pipe/Wakeups.antt =====
-- Which processes may sleep on a pipe, and that no call leaves one asleep that should run.
use tatak_os.Base.{
  ℕ, zero, suc, ◌+◌, ◌%◌, ◌^◌, ◌≡◌, ◌∙◌, inl, inr, refl, Bool, true, false, not, ◌&&◌, ◌||◌, Option,
  some, List, [], ◌∷◌, arith, Bool-cases, Option-cases,
}
use tatak_os.Pipe.{
  Pipe, Channel, readers, writers, Result, Outcome, returned, failed, asleep, put, is_empty,
  is_full, write_loop, write, read, close,
}
use tatak_os.Pipe.Ring.{IsValid}

-- A pipe, and whether some process sleeps on `&pi->nread` and on `&pi->nwrite`.
pub record Scene : Type 0 where
  pub pipe : Pipe
  pub reader_sleeps : Bool
  pub writer_sleeps : Bool

abbrev wakes_reader : List Channel → Bool
wakes_reader [] = false
wakes_reader (readers ∷ cs) = true
wakes_reader (writers ∷ cs) = wakes_reader cs

abbrev wakes_writer : List Channel → Bool
wakes_writer [] = false
wakes_writer (writers ∷ cs) = true
wakes_writer (readers ∷ cs) = wakes_writer cs

abbrev is_asleep : Outcome → Bool
is_asleep (asleep i) = true
is_asleep (returned i) = false
is_asleep failed = false

-- The scene after a call of `pipewrite`, of `piperead` or of `pipeclose`: the wakeups come first,
-- and then the caller may go to sleep itself.
abbrev pub after_write : Scene → Result → Scene
after_write s r = record {
  pipe = r.pipe;
  reader_sleeps = s.reader_sleeps && not (wakes_reader r.wakes);
  writer_sleeps = is_asleep r.outcome || s.writer_sleeps && not (wakes_writer r.wakes);
}

abbrev pub after_read : Scene → Result → Scene
after_read s r = record {
  pipe = r.pipe;
  reader_sleeps = is_asleep r.outcome || s.reader_sleeps && not (wakes_reader r.wakes);
  writer_sleeps = s.writer_sleeps && not (wakes_writer r.wakes);
}

-- Who sleeps has a reason to: there is nothing to read, or no room to write.
pub record IsAwake (s : Scene) : Type 0 where
  pub reader : s.reader_sleeps ≡ true → (is_empty s.pipe ≡ true) × (s.pipe.writeopen ≡ true)
  pub writer : s.writer_sleeps ≡ true → (is_full s.pipe ≡ true) × (s.pipe.readopen ≡ true)

module _ (copyin : ℕ → Option ℕ) (killed : ℕ → Bool) (addr : ℕ) where
  put_readopen : (p : Pipe) (ch : ℕ) → (put p ch).readopen ≡ p.readopen
  unfolding put
  put_readopen p ch = refl

  -- While the read end is open and nobody kills the writer, every way out wakes the readers, and
  -- the writer sleeps only on a full pipe.
  write_loop_wakes :
      ((i : ℕ) → killed i ≡ false)
      → (p : Pipe) (i k : ℕ) → p.readopen ≡ true
      → let r = write_loop copyin killed addr p i k in
        (r.wakes ≡ readers ∷ [])
        × (is_asleep r.outcome ≡ true → (is_full r.pipe ≡ true) × (r.pipe.readopen ≡ true))
  unfolding write_loop
  write_loop_wakes alive p i zero o = (refl, λ h. cc)
  write_loop_wakes alive p i (suc k) o = elim (Bool-cases (is_full p)) [
    | inl full ↦ rw (o, alive i, full, write_loop) (refl, λ h. (full, o))
    | inr space ↦ elim (Option-cases (copyin ((addr + i) % 2 ^ 64))) [
      | inl bad ↦ rw (o, alive i, space, bad, write_loop) (refl, λ h. cc)
      | inr (ch, c) ↦
          rw (o, alive i, space, c, write_loop)
            (write_loop_wakes alive (put p ch) (i + 1) k (put_readopen p ch ∙ o))
    ]
  ]

  -- A full pipe, a closed read end or a killed writer: the call changes nothing.
  write_loop_idle :
      (p : Pipe) (i k : ℕ)
      → (is_full p || not p.readopen || killed i) ≡ true
      → (write_loop copyin killed addr p i k).pipe ≡ p
  unfolding write_loop
  write_loop_idle p i zero h = refl
  write_loop_idle p i (suc k) h = ground arith

  write_loop_dead :
      (p : Pipe) (i k : ℕ)
      → (not p.readopen || killed i) ≡ true
      → is_asleep (write_loop copyin killed addr p i k).outcome ≡ false
  unfolding write_loop
  write_loop_dead p i zero h = refl
  write_loop_dead p i (suc k) h = ground arith

  -- If every process that sleeps on the pipe has a reason to, that is so after any call of
  -- `pipewrite`, for a writer that is killed or not, but not in the middle of the call.
  pub write-IsAwake :
      (s : Scene) (n : ℕ) (b : Bool)
      → ((i : ℕ) → killed i ≡ b)
      → IsAwake s
      → IsAwake (after_write s (write copyin killed addr s.pipe n))
  unfolding write
  write-IsAwake s n true same a =
      ground (arith, same 0, write_loop_idle s.pipe 0 n, write_loop_dead s.pipe 0 n)
  write-IsAwake s n false same a = elim (Bool-cases s.pipe.readopen) [
    | inl o ↦ ground (arith, same 0, write_loop_wakes same s.pipe 0 n o, write_loop_idle s.pipe 0 n)
    | inr shut ↦ ground (arith, same 0, write_loop_idle s.pipe 0 n, write_loop_dead s.pipe 0 n)
  ]

  -- A writer that is killed between two bytes of one call returns -1 and wakes nobody: a reader
  -- that slept on the empty pipe goes on sleeping, although the first byte is there to read.
  pub lost_wakeup :
      (s : Scene) (m ch : ℕ)
      → s.reader_sleeps ≡ true
      → IsValid s.pipe
      → is_empty s.pipe ≡ true
      → s.pipe.readopen ≡ true
      → killed 0 ≡ false
      → killed 1 ≡ true
      → copyin ((addr + 0) % 2 ^ 64) ≡ some ch
      → let s' = after_write s (write copyin killed addr s.pipe (suc (suc m))) in
        (s'.reader_sleeps ≡ true) × (is_empty s'.pipe ≡ false)
  unfolding write write_loop is_empty is_full put
  lost_wakeup s m ch sleeps v e o k0 k1 c = ground arith

module _ (copyout : ℕ → Bool) (addr : ℕ) where
  -- If every process that sleeps on the pipe has a reason to, that is so after any call of
  -- `piperead`.
  pub read-IsAwake :
      (s : Scene) (n : ℕ) (killed : Bool)
      → IsAwake s
      → IsAwake (after_read s (read copyout addr killed s.pipe n).0)
  unfolding read
  read-IsAwake s n killed a = ground arith

-- If every process that sleeps on the pipe has a reason to, that is so after a `pipeclose` of
-- either end.
pub close-IsAwake :
    (s : Scene) (writable : Bool) → IsAwake s → IsAwake (after_read s (close s.pipe writable).0)
unfolding close is_empty is_full
close-IsAwake s writable a = ground arith
