-- ===== src/Log/Crash.antt =====
-- The machine may stop after any write of a commit, or of a recovery, and starts again.
use tatak_os.Base.{
  ℕ, suc, ◌+◌, ◌<◌, ◌≤◌, ◌≡◌, inl, inr, ap, ◌∙◌, sym, Bool, true, false, some, List, [], ◌∷◌, ◌++◌,
  arith, length, take, take-nil, leb, if◌then◌else◌, Bool-cases,
}
use tatak_os.Disk.{
  Block, Disk, Writes, update, update_self, update_ne, apply, apply-append, take-append-cases,
}
use tatak_os.Buffers.{nbuf, mem}
use tatak_os.Buffers.Spec.{Cache, spec}
use tatak_os.Log.{Log, header, entries, commit, recover}
use tatak_os.Log.Header.{entries-header, entries_empty}
use tatak_os.Log.Rounds.{idle}
use tatak_os.Log.Loops.{after, Apart, AllApart, log_writes, home_writes}
use tatak_os.Log.Places.{
  LogHas-congr, LogHas-log_writes, apply-take-log_writes, apply-log_writes_out, length-log_writes,
  apply-home_writes, apply-take-home_writes, apply-take-home_writes_out,
}
use tatak_os.Log.Commit.{commit_writes, commit_lem}
use tatak_os.Log.Recovery.{
  reboot, recover_writes, Recoverable, recover_lem, recovered, recovered_empty, Committed,
  Committed-Recoverable, recover_writes-Committed, recovered-Committed,
}

-- From the disk `e` recovery succeeds, and outside the log it yields the blocks of `goal`.
abbrev pub Yields : Disk → ℕ → ℕ → Disk → Type 0
Yields e start n goal =
    Recoverable e start n × ((a : ℕ) → Apart start n a → recovered e start a ≡ goal a)

-- The blocks of the list as `v` has them, the others as `d` has them.
abbrev pub updated : List ℕ → Disk → Disk → Disk
updated bs v d a = if mem a bs then v a else d a

Yields-congr :
    (e : Disk) (start n : ℕ) (goal goal' : Disk)
    → ((a : ℕ) → Apart start n a → goal a ≡ goal' a)
    → Yields e start n goal
    → Yields e start n goal'
Yields-congr e start n goal goal' same y = (y.0, λ a out. y.1 a out ∙ same a out)

module _ {d : Disk} {start n : ℕ} {bs : List ℕ} {v : Disk} (c : Committed d start n bs v)
    (m : ℕ) where
  -- Some of the blocks are installed, and the header is still there.
  partly : Committed (apply (take m (home_writes v bs)) d) start n bs v
  partly = record {
    listed =
        ap entries
          (apply-take-home_writes v start n bs d m start c.apart (omega arith) (omega arith))
        ∙ c.listed;
    apart = c.apart;
    fits = c.fits;
    has =
        LogHas-congr d (apply (take m (home_writes v bs)) d) start n 0 bs v (omega (arith, c.fits))
          (λ j h k. apply-take-home_writes v start n bs d m j c.apart (omega arith) (omega arith))
          c.has;
  }

  partly-Yields : Yields (apply (take m (home_writes v bs)) d) start n (updated bs v d)
  partly-Yields = (Committed-Recoverable partly, λ a out. recovered-Committed a partly out ∙ same a)
    where
      same : (a : ℕ) → updated bs v (apply (take m (home_writes v bs)) d) a ≡ updated bs v d a
      same a = elim (Bool-cases (mem a bs)) [
        | inl h ↦ rw h
        | inr h ↦ rw h (apply-take-home_writes_out v bs d m a h)
      ]

-- All is installed and the header has been emptied.
emptied-Yields :
    {d : Disk} {start n : ℕ} {bs : List ℕ} {v : Disk} (c : Committed d start n bs v) (x : Block)
    → Yields (update (apply (home_writes v bs) d) start (header x [])) start n (updated bs v d)
emptied-Yields {d} {start} {n} {bs} {v} c x = (
  rw nil (tt, omega arith),
  λ a out.
      recovered_empty (update (apply (home_writes v bs) d) start (header x [])) start a nil
        (omega arith)
      ∙ update_ne (apply (home_writes v bs) d) start a (header x []) (omega arith)
      ∙ apply-home_writes v bs d a,
)
  where
    nil : entries (update (apply (home_writes v bs) d) start (header x []) start) ≡ []
    nil =
        ap entries (update_self (apply (home_writes v bs) d) start (header x []))
        ∙ entries-header x []

-- A crash after any number of the installing writes: recovery completes the transaction.
installing-Yields :
    {d : Disk} {start n : ℕ} {bs : List ℕ} {v : Disk} (m : ℕ) (x : Block)
    → Committed d start n bs v
    → Yields
        (apply (take m (home_writes v bs ++ ((start, header x []) ∷ []))) d)
        start
        n
        (updated bs v d)
installing-Yields {d} {start} {n} {bs} {v} m x c =
    elim (take-append-cases m (home_writes v bs) ((start, header x []) ∷ [])) [
      | inl (le, e) ↦ rw e (partly-Yields c m)
      | inr (k, le, e) ↦ rw (e, take-nil, apply-append) (emptied-Yields c x)
    ]

-- While the header on the disk is empty, a crash in the middle of the log writes leaves the old
-- blocks.
logging-Yields :
    (d v : Disk) (start n : ℕ) (bs : List ℕ) (k : ℕ)
    → length bs ≤ n
    → d start 0 ≡ 0
    → Yields (apply (take k (log_writes v start 0 bs)) d) start n d
logging-Yields d v start n bs k h e = (
  rw nil (tt, omega arith),
  λ a out.
      recovered_empty (apply (take k (log_writes v start 0 bs)) d) start a nil (omega arith)
      ∙ apply-take-log_writes v start n 0 bs d k a (omega arith) (ground arith),
)
  where
    nil : entries (apply (take k (log_writes v start 0 bs)) d start) ≡ []
    nil =
        ap entries
          (apply-take-log_writes v start n 0 bs d k start (omega arith) (inl (omega arith)))
        ∙ entries_empty (d start) e

-- The header written over the complete log commits the transaction.
header-Committed :
    (d v : Disk) (start n : ℕ) (bs : List ℕ) (x : Block)
    → length bs ≤ n
    → AllApart start n bs
    → Committed (update (apply (log_writes v start 0 bs) d) start (header x bs)) start n bs v
header-Committed d v start n bs x h a = record {
  listed =
      ap entries (update_self (apply (log_writes v start 0 bs) d) start (header x bs))
      ∙ entries-header x bs;
  apart = a;
  fits = h;
  has =
      LogHas-congr (apply (log_writes v start 0 bs) d) _ start n 0 bs v (omega arith)
        (λ j p q. update_ne (apply (log_writes v start 0 bs) d) start j (header x bs) (omega arith))
        (LogHas-log_writes v start 0 bs d);
}

committed-Yields :
    (d v : Disk) (start n : ℕ) (bs : List ℕ) (m : ℕ)
    → length bs ≤ n
    → AllApart start n bs
    → Yields
        (apply
          (log_writes v start 0 bs
            ++ take (suc m) (
                (start, header (v start) bs)
                ∷ (home_writes v bs ++ ((start, header (header (v start) bs) []) ∷ []))))
          d)
        start
        n
        (updated bs v d)
committed-Yields d v start n bs m h a = rw apply-append (
    Yields-congr
      (apply (take m (home_writes v bs ++ ((start, header x []) ∷ [])))
        (update (apply ws d) start x))
      start n (updated bs v (update (apply ws d) start x)) (updated bs v d) same
      (installing-Yields m x (header-Committed d v start n bs (v start) h a)))
  where
    ws : Writes
    ws = log_writes v start 0 bs

    x : Block
    x = header (v start) bs

    same :
        (a : ℕ) → Apart start n a → updated bs v (update (apply ws d) start x) a ≡ updated bs v d a
    same a out =
        ap (λ z. if mem a bs then v a else z)
          (update_ne (apply ws d) start a x (omega arith)
            ∙ apply-log_writes_out v start n bs d a h out)

-- The disk after the first `k` writes of a commit.
commit_writes-Yields :
    (d v : Disk) (start n : ℕ) (bs : List ℕ) (k : ℕ)
    → length bs ≤ n
    → AllApart start n bs
    → d start 0 ≡ 0
    → Yields
        (apply (take k (commit_writes v start bs)) d)
        start
        n
        (if leb k (length bs) then d else updated bs v d)
commit_writes-Yields d v start n bs k h a e =
    elim (take-append-cases k (log_writes v start 0 bs) rest) [
      | inl (le, p) ↦
          let t : leb k (length bs) ≡ true = ground (arith, length-log_writes v start 0 bs) in
          rw (p, t) (logging-Yields d v start n bs k h e)
      | inr (m, lt, p) ↦
          let t : leb k (length bs) ≡ false = ground (arith, length-log_writes v start 0 bs) in
          rw (p, t) (committed-Yields d v start n bs m h a)
    ]
  where
    rest : Writes
    rest =
        (start, header (v start) bs)
        ∷ (home_writes v bs ++ ((start, header (header (v start) bs) []) ∷ []))

-- `commit` interrupted after any `k` of its disk writes, then a restart: recovery succeeds and
-- leaves, outside the log, all blocks of the transaction old or all of them new. It is the header
-- write, number `length block`, that decides.
pub commit_atomic :
    (d v : Disk) (y : ℕ → Bool) (l : Log) (n k : ℕ)
    → 0 < length l.block
    → length l.block < nbuf
    → length l.block ≤ n
    → AllApart l.start n l.block
    → ((i : ℕ) → i ≤ n → y (l.start + i) ≡ false)
    → d l.start 0 ≡ 0
    → (a : ℕ) → Apart l.start n a
    → (c c' : Cache) × (commit spec l (idle d v y l.block []) ≡ some (record l { block = [] }, c))
      × (recover spec l (reboot (apply (take k c.writes) d)) ≡ some (record l { block = [] }, c'))
      × (c'.disk a ≡ (if leb k (length l.block) then d else updated l.block v d) a)
commit_atomic d v y l n k p q h apart c e a outside =
    let out = commit_writes-Yields d v l.start n l.block k h apart e in
    (
      after d v y [] [] (commit_writes v l.start l.block),
      after (crashed d) (crashed d) (λ b. false) [] [] (recover_writes (crashed d) l.start),
      commit_lem d v y [] l n p q h apart c,
      recover_lem (crashed d) l n out.0,
      out.1 a outside,
    )
  where
    crashed : Disk → Disk
    crashed = apply (take k (commit_writes v l.start l.block))

-- A recovery of a committed transaction interrupted after any `k` of its disk writes, then another
-- restart: the second recovery succeeds and leaves the same blocks outside the log as the first
-- would have.
pub recover_again :
    (d v : Disk) (l : Log) (n : ℕ) (bs : List ℕ) (k : ℕ)
    → Committed d l.start n bs v
    → (a : ℕ) → Apart l.start n a
    → (c c' : Cache) × (recover spec l (reboot d) ≡ some (record l { block = [] }, c))
      × (recover spec l (reboot (apply (take k c.writes) d)) ≡ some (record l { block = [] }, c'))
      × (c'.disk a ≡ c.disk a)
recover_again d v l n bs k done a out = (
  after d d (λ b. false) [] [] ws,
  after e e (λ b. false) [] [] (recover_writes e l.start),
  recover_lem d l n (Committed-Recoverable done),
  recover_lem e l n yields.0,
  yields.1 a out ∙ sym (recovered-Committed a done out),
)
  where
    ws : Writes
    ws = recover_writes d l.start

    e : Disk
    e = apply (take k ws) d

    yields : Yields e l.start n (updated bs v d)
    yields = rw (recover_writes-Committed done) (installing-Yields k (d l.start) done)
