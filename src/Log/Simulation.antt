-- ===== src/Log/Simulation.antt =====
-- The log over any buffer cache that keeps the promises of the abstract one.
use tatak_os.Base.{
  ℕ, ◌+◌, Bool, true, false, List, [], ◌∷◌, ltb, length, if◌then◌else◌, Bool-cases, inl, inr,
}
use tatak_os.Buffers.{pure, Ops}
use tatak_os.Buffers.Spec.{Cache, spec}
use tatak_os.Buffers.Simulation.{Sim, Simulates, Sim-pure, Sim-bind, Sim-then}
use tatak_os.Log.{
  Log, header, entries, write_head, read_head, install_block, install_trans, log_block, write_log,
  commit, recover,
}

module _ {S : Type 0} (ops : Ops S) (R : S → Cache → Type 0) (i : Simulates ops R) where
  write_head-Sim :
      (start : ℕ) (bs : List ℕ) → Sim R (write_head ops start bs) (write_head spec start bs)
  unfolding write_head
  write_head-Sim start bs = Sim-bind R _ _ _ _ (i.bread start) λ x.
      Sim-then R _ _ _ _ (i.fill start (header x bs))
        (Sim-then R _ _ _ _ (i.bwrite start) (i.brelse start))

  read_head-Sim : (start : ℕ) → Sim R (read_head ops start) (read_head spec start)
  unfolding read_head
  read_head-Sim start =
      Sim-bind R _ _ _ _ (i.bread start)
        λ x. Sim-then R _ _ _ _ (i.brelse start) (Sim-pure R (entries x))

  install_block-Sim :
      (recovering : Bool) (l b : ℕ)
      → Sim R (install_block ops recovering l b) (install_block spec recovering l b)
  unfolding install_block
  install_block-Sim recovering l b = Sim-bind R _ _ _ _ (i.bread l) λ x.
      Sim-then R _ _ _ _ (Sim-bind R _ _ _ _ (i.bread b) (λ z. i.fill b x)) (
        Sim-then R _ _ _ _ (i.bwrite b)
          (Sim-then R _ _ _ _ (unpin recovering) (Sim-then R _ _ _ _ (i.brelse l) (i.brelse b))))
    where
      unpin :
          (recovering : Bool)
          → Sim R
              (if recovering then pure tt else ops.bunpin b)
              (if recovering then pure tt else spec.bunpin b)
      unpin true = Sim-pure R tt
      unpin false = i.bunpin b

  install_trans-Sim :
      (recovering : Bool) (start tail : ℕ) (bs : List ℕ)
      → Sim R
          (install_trans ops recovering start tail bs)
          (install_trans spec recovering start tail bs)
  unfolding install_trans
  install_trans-Sim recovering start tail [] = Sim-pure R tt
  install_trans-Sim recovering start tail (b ∷ bs) =
      Sim-then R _ _ _ _ (install_block-Sim recovering (start + tail + 1) b)
        (install_trans-Sim recovering start (tail + 1) bs)

  log_block-Sim : (l b : ℕ) → Sim R (log_block ops l b) (log_block spec l b)
  unfolding log_block
  log_block-Sim l b = Sim-then R _ _ _ _ (Sim-bind R _ _ _ _ (i.bread l) (λ z. Sim-pure R tt)) (
      Sim-bind R _ _ _ _ (i.bread b) λ x.
        Sim-then R _ _ _ _ (i.fill l x)
          (Sim-then R _ _ _ _ (i.bwrite l) (Sim-then R _ _ _ _ (i.brelse b) (i.brelse l))))

  write_log-Sim :
      (start tail : ℕ) (bs : List ℕ)
      → Sim R (write_log ops start tail bs) (write_log spec start tail bs)
  unfolding write_log
  write_log-Sim start tail [] = Sim-pure R tt
  write_log-Sim start tail (b ∷ bs) =
      Sim-then R _ _ _ _ (log_block-Sim (start + tail + 1) b) (write_log-Sim start (tail + 1) bs)

  pub commit-Sim : (l : Log) → Sim R (commit ops l) (commit spec l)
  unfolding commit
  commit-Sim l = elim (Bool-cases (ltb 0 (length l.block))) [
    | inl some_blocks ↦
        rw (some_blocks, commit)
          (Sim-then R _ _ _ _ (write_log-Sim l.start 0 l.block) (
            Sim-then R _ _ _ _ (write_head-Sim l.start l.block) (
              Sim-then R _ _ _ _ (install_trans-Sim false l.start 0 l.block) (
                Sim-then R _ _ _ _ (write_head-Sim l.start [])
                  (Sim-pure R (record l { block = [] }))))))
    | inr no_blocks ↦ rw (no_blocks, commit) (Sim-pure R l)
  ]

  pub recover-Sim : (l : Log) → Sim R (recover ops l) (recover spec l)
  unfolding recover
  recover-Sim l = Sim-bind R _ _ _ _ (read_head-Sim l.start) λ bs.
      Sim-then R _ _ _ _ (install_trans-Sim true l.start 0 bs)
        (Sim-then R _ _ _ _ (write_head-Sim l.start []) (Sim-pure R (record l { block = [] })))
