-- ===== src/Pipe/Transfer.antt =====
-- What one critical section of `pipewrite` and of `piperead` moves.
use tatak_os.Base.{
  ℕ, zero, suc, ◌+◌, ◌%◌, ◌^◌, ◌<◌, ◌≡◌, ◌⊎◌, inl, inr, refl, sym, ap, ◌∙◌, Bool, true, false, not,
  ◌||◌, Option, none, some, List, [], ◌∷◌, ◌++◌, append-nil, append_assoc, arith, length,
  Bool-cases, Option-cases,
}
use tatak_os.Pipe.{
  Pipe, Channel, Result, Outcome, returned, failed, asleep, put, next_byte, advance, is_empty,
  is_full, write_loop, read_copy,
}
use tatak_os.Pipe.Ring.{
  IsValid, contents, put-IsValid, advance-IsValid, contents-put, contents-advance,
}

-- The bytes are those at the user addresses `addr + i` on.
abbrev pub Fetched : (ℕ → Option ℕ) → ℕ → ℕ → List ℕ → Type 0
Fetched copyin addr i [] = Unit
Fetched copyin addr i (c ∷ cs) =
    (copyin ((addr + i) % 2 ^ 64) ≡ some c) × Fetched copyin addr (i + 1) cs

module _ (copyin : ℕ → Option ℕ) (killed : ℕ → Bool) (addr : ℕ) where
  -- Why the loop of `pipewrite` stopped after `m` of its `k` rounds, at the pipe `q`.
  abbrev pub WriteStop : Pipe → ℕ → ℕ → ℕ → Outcome → Type 0
  WriteStop q i k m (returned j) =
      (j ≡ i + m) × ((m ≡ k) ⊎ (m < k) × (copyin ((addr + j) % 2 ^ 64) ≡ none))
  WriteStop q i k m failed = (m < k) × ((not q.readopen || killed (i + m)) ≡ true)
  WriteStop q i k m (asleep j) = (j ≡ i + m) × (m < k) × (is_full q ≡ true)

  pub record Wrote (p : Pipe) (i k : ℕ) (r : Result) (sent : List ℕ) : Type 0 where
    pub valid : IsValid r.pipe
    pub queue : contents r.pipe ≡ contents p ++ sent
    pub source : Fetched copyin addr i sent
    pub ends : (r.pipe.readopen ≡ p.readopen) × (r.pipe.writeopen ≡ p.writeopen)
    pub stop : WriteStop r.pipe i k (length sent) r.outcome

  -- The loop stops at once.
  stopped :
      (p : Pipe) (i k : ℕ) (ws : List Channel) (o : Outcome)
      → IsValid p
      → WriteStop p i k 0 o
      → Wrote p i k (record { pipe = p; wakes = ws; outcome = o }) []
  stopped p i k ws o v s = record {
    valid = v;
    queue = sym (append-nil (contents p));
    source = tt;
    ends = (refl, refl);
    stop = s;
  }

  WriteStop-suc :
      (q : Pipe) (i k m : ℕ) (o : Outcome)
      → WriteStop q (i + 1) k m o
      → WriteStop q i (suc k) (suc m) o
  WriteStop-suc q i k m (returned j) s = (omega arith, ground arith)
  WriteStop-suc q i k m failed s =
      let e : i + suc m ≡ i + 1 + m = omega arith in (omega arith, rw e s.1)
  WriteStop-suc q i k m (asleep j) s = (omega arith, omega arith, s.2)

  -- One round moves the byte `ch`, and the rest of the loop the bytes `sent`.
  one_more :
      (p : Pipe) (i k ch : ℕ) (r : Result) (sent : List ℕ)
      → is_full p ≡ false
      → IsValid p
      → copyin ((addr + i) % 2 ^ 64) ≡ some ch
      → Wrote (put p ch) (i + 1) k r sent
      → Wrote p i (suc k) r (ch ∷ sent)
  unfolding put
  one_more p i k ch r sent h v c w = record {
    valid = w.valid;
    queue =
        w.queue
        ∙ ap (λ l. l ++ sent) (contents-put p ch v h)
        ∙ append_assoc (contents p) (ch ∷ []) sent;
    source = (c, w.source);
    ends = w.ends;
    stop = WriteStop-suc r.pipe i k (length sent) r.outcome w.stop;
  }

  -- The loop of `pipewrite` on a valid pipe, from `i` on with `k` rounds left, appends to the queue
  -- the bytes `sent` that stand at the user addresses `addr + i` on, and nothing else. It returns
  -- how many there are in all once it has moved `k` of them or `copyin` has failed at the next one,
  -- sleeps only if the pipe is full, and returns -1 only if the read end is closed or the caller
  -- is killed.
  pub write_loop_lem :
      (p : Pipe) (i k : ℕ)
      → IsValid p
      → (sent : List ℕ) × Wrote p i k (write_loop copyin killed addr p i k) sent
  unfolding write_loop
  write_loop_lem p i zero v = ([], stopped p i 0 _ _ v (omega arith, inl refl))
  write_loop_lem p i (suc k) v = elim (Bool-cases (not p.readopen || killed i)) [
    | inl h ↦ (
      [],
      rw (h, write_loop)
          (stopped p i (suc k) _ _ v (omega arith, let e : i + 0 ≡ i = omega arith in rw e h)),
    )
    | inr go ↦ elim (Bool-cases (is_full p)) [
      | inl full ↦ (
        [],
        rw (go, full, write_loop) (stopped p i (suc k) _ _ v (omega arith, omega arith, full)),
      )
      | inr space ↦ elim (Option-cases (copyin ((addr + i) % 2 ^ 64))) [
        | inl bad ↦ (
          [],
          rw (go, space, bad, write_loop)
              (stopped p i (suc k) _ _ v (omega arith, inr (omega arith, bad))),
        )
        | inr (ch, c) ↦
            let (sent, w) = write_loop_lem (put p ch) (i + 1) k (put-IsValid p ch v space) in
            (ch ∷ sent, rw (go, space, c, write_loop) (one_more p i k ch _ sent space v c w))
      ]
    ]
  ]

-- Why the copying loop of `piperead` stopped: `lost` is the byte that was taken off the queue
-- before `copyout` failed at the address `addr + j`.
module _ (copyout : ℕ → Bool) (addr : ℕ) where
  abbrev pub ReadStop : Pipe → ℕ → ℕ → ℕ → List ℕ → Type 0
  ReadStop q j k m [] = (m ≡ k) ⊎ (m < k) × (is_empty q ≡ true)
  ReadStop q j k m (c ∷ lost) = (m < k) × (lost ≡ []) × (copyout ((addr + j) % 2 ^ 64) ≡ false)

  pub record Copied (p : Pipe) (i k : ℕ) (r : Pipe × ℕ × List ℕ) (lost : List ℕ) : Type 0 where
    pub valid : IsValid r.0
    pub queue : contents p ≡ r.2 ++ lost ++ contents r.0
    pub moved : r.1 ≡ i + length r.2
    pub ends : (r.0.readopen ≡ p.readopen) × (r.0.writeopen ≡ p.writeopen)
    pub stop : ReadStop r.0 r.1 k (length r.2) lost

  ReadStop-suc :
      (q : Pipe) (j k m : ℕ) (lost : List ℕ)
      → ReadStop q j k m lost
      → ReadStop q j (suc k) (suc m) lost
  ReadStop-suc q j k m [] s = ground arith
  ReadStop-suc q j k m (c ∷ lost) s = (omega arith, s.1, s.2)

  ends-advance :
      (p : Pipe) → ((advance p).readopen ≡ p.readopen) × ((advance p).writeopen ≡ p.writeopen)
  unfolding advance
  ends-advance p = (refl, refl)

  Copied-none : (p : Pipe) (i k : ℕ) → IsValid p → ReadStop p i k 0 [] → Copied p i k (p, i, []) []
  Copied-none p i k v s = record {
    valid = v;
    queue = refl;
    moved = omega arith;
    ends = (refl, refl);
    stop = s;
  }

  Copied-lost :
      (p : Pipe) (i k : ℕ)
      → IsValid p
      → is_empty p ≡ false
      → copyout ((addr + i) % 2 ^ 64) ≡ false
      → Copied p i (suc k) (advance p, i, []) (next_byte p ∷ [])
  Copied-lost p i k v more bad = record {
    valid = advance-IsValid p v more;
    queue = contents-advance p v more;
    moved = omega arith;
    ends = ends-advance p;
    stop = (omega arith, refl, bad);
  }

  Copied-one :
      (p : Pipe) (i k : ℕ) (r : Pipe × ℕ × List ℕ) (lost : List ℕ)
      → is_empty p ≡ false
      → IsValid p
      → Copied (advance p) (i + 1) k r lost
      → Copied p i (suc k) (r.0, r.1, next_byte p ∷ r.2) lost
  Copied-one p i k r lost h v c = record {
    valid = c.valid;
    queue = contents-advance p v h ∙ ap (λ l. next_byte p ∷ l) c.queue;
    moved = omega (arith, c.moved);
    ends = (c.ends.0 ∙ (ends-advance p).0, c.ends.1 ∙ (ends-advance p).1);
    stop = ReadStop-suc r.0 r.1 k (length r.2) lost c.stop;
  }

  -- The copying loop of `piperead` on a valid pipe, from `i` on with `k` rounds left, takes bytes off
  -- the front of the queue in order and counts those that it has copied out. It stops after `k`
  -- bytes, or when the pipe is empty, or when `copyout` fails: then, and only then, one byte has
  -- left the queue that was not copied out.
  pub read_copy_lem :
      (p : Pipe) (i k : ℕ)
      → IsValid p
      → (lost : List ℕ) × Copied p i k (read_copy copyout addr p i k) lost
  unfolding read_copy
  read_copy_lem p i zero v = ([], Copied-none p i 0 v (inl refl))
  read_copy_lem p i (suc k) v = elim (Bool-cases (is_empty p)) [
    | inl empty ↦ ([], rw (empty, read_copy) (Copied-none p i (suc k) v (inr (omega arith, empty))))
    | inr more ↦ elim (Bool-cases (copyout ((addr + i) % 2 ^ 64))) [
      | inl good ↦
          let (lost, c) = read_copy_lem (advance p) (i + 1) k (advance-IsValid p v more) in
          (lost, rw (more, good, read_copy) (Copied-one p i k _ lost more v c))
      | inr bad ↦ (next_byte p ∷ [], rw (more, bad, read_copy) (Copied-lost p i k v more bad))
    ]
  ]
