-- ===== src/Sysfile/Sound.antt =====
-- kernel/sysfile.c and the loops of `fork` and `exit`: what holds in every state they lead to.
use tatak_os.Base.{ℕ, ◌≡◌, ◌≢◌, ◌<◌, none, some}
use tatak_os.File.{Lower}
use tatak_os.Proc.{nproc, nofile, Services}
use tatak_os.Proc.Calls.{copy_files, close_files}
use tatak_os.Sysfile.{Names}
use tatak_os.Sysfile.Forks.{services}
use tatak_os.Sysfile.Needs.{IsSafe}
use tatak_os.Sysfile.System.{
  System, Call, call, Reach, in_all, call-IsSafe, others_of, mine, fork-IsTable, exit-IsTable,
  Reach-IsTable,
}

module _ {S : Type 0} (lower : Lower S) (names : Names S) (base : Services S) where
  -- In every state that `dup`, `close`, `read`, `write`, `fstat`, `pipe`, `open`, `fork` and `exit`, called
  -- by any processes in any order, lead to from boot, the reference count of each open file is the
  -- number of the descriptors, of all processes, that name it.
  pub ref_lem :
      (s : S) (sys : System S) (f : ℕ)
      → Reach lower names base s sys
      → f ≢ 0
      → (sys.table.files f).ref ≡ in_all lower names base sys.ofile f
  ref_lem s sys f h p = (Reach-IsTable lower names base s sys h).counted f p

  -- In every such state, a call on descriptors by any process ends without a panic, and so do the
  -- loop of `fork` over the open files, into a slot without descriptors, and the loop of `exit`.
  pub no_panic :
      (s : S) (sys : System S) (me child : ℕ) (c : Call)
      → Reach lower names base s sys
      → me < nproc
      → child < nproc
      → ((fd : ℕ) → fd < nofile → sys.ofile child fd ≡ 0)
      → (call lower names base c (sys.ofile me) sys.table ≢ none)
        × ((copy_files
              (services lower base)
              (sys.ofile me)
              0
              nofile
              (sys.ofile child)
              (some sys.table)).1
            ≢ none)
        × ((close_files (services lower base) 0 nofile (sys.ofile me) (some sys.table)).1 ≢ none)
  unfolding IsSafe
  no_panic s sys me child c h lt lt' free =
      let w = Reach-IsTable lower names base s sys h in
      let mine_w = mine lower names base sys.ofile me sys.table.files lt w in
      let safe =
        call-IsSafe lower names base (others_of lower names base sys.ofile me) c (sys.ofile me)
          sys.table mine_w in
      let (t1, e1, w1) = fork-IsTable lower names base sys.ofile me child sys.table lt lt' free w in
      let (t2, e2, w2) = exit-IsTable lower names base sys.ofile me sys.table lt w in
      (λ e. absurd (rw e at safe), λ e. absurd cc, λ e. absurd cc)
