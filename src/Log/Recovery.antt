-- ===== src/Log/Recovery.antt =====
-- What `recover_from_log` does after a restart, and after a crash in its own middle.
use tatak_os.Base.{
  ℕ, ◌≤◌, ◌≡◌, ◌≢◌, refl, ◌∙◌, sym, true, false, some, List, [], ◌∷◌, ◌++◌, arith, length,
  if◌then◌else◌,
}
use tatak_os.Disk.{Disk, Writes, update_ne, apply, apply-append}
use tatak_os.Buffers.{mem, >>=-ok, >>-ok}
use tatak_os.Buffers.Spec.{Cache, spec}
use tatak_os.Log.{Log, header, entries, read_head, write_head, install_trans, recover}
use tatak_os.Log.Rounds.{idle, read_head_lem}
use tatak_os.Log.Loops.{after, Apart, AllApart, install_writes, home_writes, recover_trans_lem}
use tatak_os.Log.Commit.{header_step}
use tatak_os.Log.Places.{
  apply-install_writes_log, LogHas, install-eq-home_writes, apply-home_writes,
}

-- The cache just after a restart: nothing is cached, so every view is the disk's.
abbrev pub reboot : Disk → Cache
reboot d = idle d d (λ b. false) [] []

abbrev pub recover_writes : Disk → ℕ → Writes
recover_writes d start =
    install_writes d start 0 (entries (d start)) ++ ((start, header (d start) []) ∷ [])

-- The header on the disk lists no more blocks than the log has, all of them outside the log.
abbrev pub Recoverable : Disk → ℕ → ℕ → Type 0
Recoverable d start n = AllApart start n (entries (d start)) × (length (entries (d start)) ≤ n)

pub recover_lem :
    (d : Disk) (l : Log) (n : ℕ)
    → Recoverable d l.start n
    → recover spec l (reboot d)
      ≡ some (record l { block = [] }, after d d (λ b. false) [] [] (recover_writes d l.start))
unfolding recover
recover_lem d l n r =
    >>=-ok (read_head spec l.start) _ (read_head_lem d d (λ b. false) [] l.start refl)
    ∙ >>-ok (install_trans spec true l.start 0 bs) _ (
        recover_trans_lem l.start n d d (λ b. false) [] 0 bs (omega (arith, r.1)) r.0 (λ i h. refl))
    ∙ >>-ok (write_head spec l.start []) _ (
        header_step d d (λ b. false) [] l.start [] (install_writes d l.start 0 bs) (d l.start) []
          (omega arith)
          (apply-install_writes_log d l.start n 0 bs d l.start r.0 (omega arith) (omega arith)))
  where
    bs : List ℕ
    bs = entries (d l.start)

-- The disk after a recovery from `d`.
abbrev pub recovered : Disk → ℕ → Disk
recovered d start = apply (recover_writes d start) d

-- An empty header: recovery changes nothing but the header.
pub recovered_empty :
    (d : Disk) (start a : ℕ) → entries (d start) ≡ [] → a ≢ start → recovered d start a ≡ d a
recovered_empty d start a e ne = rw e (update_ne d start a _ (λ p. ne (sym p)))

-- The disk of a transaction that is committed and perhaps not yet installed.
pub record Committed (d : Disk) (start n : ℕ) (bs : List ℕ) (v : Disk) : Type 0 where
  pub listed : entries (d start) ≡ bs
  pub apart : AllApart start n bs
  pub fits : length bs ≤ n
  pub has : LogHas d start 0 bs v

pub Committed-Recoverable :
    {d : Disk} {start n : ℕ} {bs : List ℕ} {v : Disk}
    → Committed d start n bs v
    → Recoverable d start n
Committed-Recoverable c = rw c.listed (c.apart, c.fits)

pub recover_writes-Committed :
    {d : Disk} {start n : ℕ} {bs : List ℕ} {v : Disk}
    → Committed d start n bs v
    → recover_writes d start ≡ home_writes v bs ++ ((start, header (d start) []) ∷ [])
recover_writes-Committed {d} {start} {n} {bs} {v} c =
    rw (c.listed, install-eq-home_writes d start 0 bs v c.has)

-- A committed header: recovery brings every block of the list to its new contents.
pub recovered-Committed :
    {d : Disk} {start n : ℕ} {bs : List ℕ} {v : Disk} (a : ℕ)
    → Committed d start n bs v
    → Apart start n a
    → recovered d start a ≡ (if mem a bs then v a else d a)
recovered-Committed {d} {start} {n} {bs} {v} a c out =
    rw (recover_writes-Committed c, apply-append)
      (update_ne (apply (home_writes v bs) d) start a _ (omega arith) ∙ apply-home_writes v bs d a)
