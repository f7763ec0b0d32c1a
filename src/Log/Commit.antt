-- ===== src/Log/Commit.antt =====
-- What `commit` does over the abstract cache: the exact writes that reach the disk, in order.
use tatak_os.Base.{
  ℕ, ◌+◌, ◌<◌, ◌≤◌, ◌≡◌, refl, ap, ◌∙◌, Bool, true, false, some, List, [], ◌∷◌, ◌++◌, ltb,
  append_assoc, arith, length,
}
use tatak_os.Disk.{Block, Disk, Writes, update_self, update_ne, apply, apply-append}
use tatak_os.Buffers.{◌>>◌, pure, nbuf, >>-ok}
use tatak_os.Buffers.Spec.{spec}
use tatak_os.Log.{Log, header, write_head, install_trans, write_log, commit}
use tatak_os.Log.Rounds.{idle, write_head_lem}
use tatak_os.Log.Loops.{
  cleaned, after, AllApart, AllIn-self, log_writes, home_writes, write_log_lem, install_trans_lem,
}
use tatak_os.Log.Places.{
  cleaned-false, cleaned-append, LogHas, LogHas-log_writes, LogHas-congr, install-eq-home_writes,
  apply-log_writes_below, apply-home_writes_log,
}

-- The blocks, the header that commits, the blocks once more at home, and the empty header.
abbrev pub commit_writes : Disk → ℕ → List ℕ → Writes
commit_writes v start bs =
    log_writes v start 0 bs
    ++ ((start, header (v start) bs)
        ∷ (home_writes v bs ++ ((start, header (header (v start) bs) []) ∷ [])))

after-append :
    (d v : Disk) (y : ℕ → Bool) (p : List ℕ) (w ws vs : Writes)
    → after (apply ws d) (apply ws v) (cleaned ws y) p (w ++ ws) vs ≡ after d v y p w (ws ++ vs)
after-append d v y p w ws vs = rw (append_assoc, apply-append, apply-append, cleaned-append) refl

module _ (d v : Disk) (y : ℕ → Bool) (w : Writes) (start : ℕ) where
  -- Between the loops: the header written in the middle of a commit.
  pub header_step :
      (p : List ℕ) (ws : Writes) (x : Block) (cs : List ℕ)
      → length p < nbuf
      → apply ws v start ≡ x
      → write_head spec start cs (after d v y p w ws)
        ≡ some (tt, after d v y p w (ws ++ ((start, header x cs) ∷ [])))
  header_step p ws x cs h e =
      rw e at (write_head_lem (apply ws d) (apply ws v) (cleaned ws y) (w ++ ws) p start cs h)
      ∙ ap (λ c. some (tt, c)) (after-append d v y p w ws ((start, header x cs) ∷ []))

module _ (d v : Disk) (y : ℕ → Bool) (w : Writes) (start n : ℕ) (bs : List ℕ) where
  install_step :
      (ws : Writes)
      → length bs < nbuf
      → length bs ≤ n
      → AllApart start n bs
      → ((i : ℕ) → i ≤ n → y (start + i) ≡ false)
      → LogHas (apply ws v) start 0 bs v
      → install_trans spec false start 0 bs (after d v y bs w ws)
        ≡ some (tt, after d v y [] w (ws ++ home_writes v bs))
  install_step ws h k a c has =
      install_trans_lem start n (apply ws d) (apply ws v) (cleaned ws y) (w ++ ws) 0 bs h
        (omega arith) a (λ i hi. cleaned-false ws y (start + i) (c i hi))
      ∙ ap (λ c. some (tt, c))
          (rw (install-eq-home_writes (apply ws v) start 0 bs v has)
            (after-append d v y [] w ws (home_writes v bs)))

  -- The four steps in a row, with what each leaves in the log's blocks and in its header.
  commit_steps :
      (l : Log)
      → length bs < nbuf
      → length bs ≤ n
      → AllApart start n bs
      → ((i : ℕ) → i ≤ n → y (start + i) ≡ false)
      → (write_log spec start 0 bs
            >> (write_head spec start bs
                >> (install_trans spec false start 0 bs >> (write_head spec start [] >> pure l))))
          (idle d v y bs w)
        ≡ some (l, after d v y [] w (commit_writes v start bs))
  commit_steps l h k a c =
      >>-ok (write_log spec start 0 bs) _
        (write_log_lem start n d v y w bs 0 bs h (omega arith) a (AllIn-self bs))
      ∙ >>-ok (write_head spec start bs) _ (
          header_step d v y w start bs w1 (v start) bs h
            (apply-log_writes_below v start 0 bs v start (omega arith)))
      ∙ >>-ok (install_trans spec false start 0 bs) _ (install_step w2 h k a c has)
      ∙ >>-ok (write_head spec start []) _ (
          header_step d v y w start [] (w2 ++ home_writes v bs) (header (v start) bs) []
            (omega arith) empty)
      ∙ ap (λ ws. some (l, after d v y [] w ws)) in_order
    where
      w1 : Writes
      w1 = log_writes v start 0 bs

      w2 : Writes
      w2 = w1 ++ ((start, header (v start) bs) ∷ [])

      has : LogHas (apply w2 v) start 0 bs v
      has =
          LogHas-congr (apply w1 v) (apply w2 v) start n 0 bs v (omega arith)
            (λ j hj hk. rw apply-append (update_ne (apply w1 v) start j _ (omega arith)))
            (LogHas-log_writes v start 0 bs v)

      empty : apply (w2 ++ home_writes v bs) v start ≡ header (v start) bs
      empty = rw (apply-append) (
          apply-home_writes_log v start n bs (apply w2 v) start a (omega arith) (omega arith)
          ∙ rw apply-append (update_self (apply w1 v) start (header (v start) bs)))

      in_order :
          (w2 ++ home_writes v bs) ++ ((start, header (header (v start) bs) []) ∷ [])
          ≡ commit_writes v start bs
      in_order =
          append_assoc w2 (home_writes v bs) _
          ∙ append_assoc w1 ((start, header (v start) bs) ∷ []) _

-- `commit` of the pinned blocks `l.block` succeeds. It writes exactly `commit_writes`, in that
-- order, unpins the blocks and empties the log.
pub commit_lem :
    (d v : Disk) (y : ℕ → Bool) (w : Writes) (l : Log) (n : ℕ)
    → 0 < length l.block
    → length l.block < nbuf
    → length l.block ≤ n
    → AllApart l.start n l.block
    → ((i : ℕ) → i ≤ n → y (l.start + i) ≡ false)
    → commit spec l (idle d v y l.block w)
      ≡ some (record l { block = [] }, after d v y [] w (commit_writes v l.start l.block))
unfolding commit
commit_lem d v y w l n ne h k a c =
    let t : ltb 0 (length l.block) ≡ true = ground arith in
    rw (t, commit) (commit_steps d v y w l.start n l.block (record l { block = [] }) h k a c)
