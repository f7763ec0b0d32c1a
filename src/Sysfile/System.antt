-- ===== src/Sysfile/System.antt =====
-- kernel/sysfile.c: processes that make calls on descriptors, one after the other, in any order.
use tatak_os.Base.{
  ℕ, ◌+◌, ◌-◌, ◌≡◌, ◌≢◌, ◌≤◌, ◌<◌, refl, sym, ap, ◌∙◌, false, Option, some, some-injective, List,
  arith,
}
use tatak_os.Disk.{update}
use tatak_os.File.{fd_none, File, Ftable, Lower}
use tatak_os.File.Counts.{
  count, total, count-agree, count-present, count-absent, total-absent, total-update,
  count_le_total,
}
use tatak_os.File.Table.{IsTable, no_raw, IsTable-need}
use tatak_os.Proc.{nproc, nofile, Services}
use tatak_os.Proc.Calls.{copy_files, close_files}
use tatak_os.Sysfile.{
  Names, Outcome, sys_dup, sys_close, sys_read, sys_write, sys_fstat, sys_pipe, sys_open,
}
use tatak_os.Sysfile.Forks.{
  services, copy_files_row, copy_files-IsTable, close_files_row, close_files-IsTable,
}
use tatak_os.Sysfile.Needs.{needs, IsSafe}
use tatak_os.Sysfile.Opens.{sys_pipe-IsSafe, sys_open-IsSafe}
use tatak_os.Sysfile.Safe.{
  sys_dup-IsSafe, sys_close-IsSafe, sys_read-IsSafe, sys_write-IsSafe, sys_fstat-IsSafe,
}

-- The descriptors of each slot of the process table, and the open files.
pub record System (S : Type 0) : Type 0 where
  pub ofile : ℕ → ℕ → ℕ
  pub table : Ftable S

pub data Call : Type 0 where
  dup close pipe : ℕ → Call
  fstat : ℕ → ℕ → Call
  read write : ℕ → ℕ → ℕ → Call
  open_path : Option (List ℕ) → ℕ → Call

-- `ftable` is zero at boot, and so are the descriptors.
abbrev pub blank : File
blank = record {
  type = fd_none;
  ref = 0;
  readable = false;
  writable = false;
  pipe = 0;
  ip = 0;
  off = 0;
  major = 0;
}

abbrev pub boot : {S : Type 0} → S → System S
boot s = record { ofile = λ p fd. 0; table = record { files = λ f. blank; rest = s } }

module _ {S : Type 0} (lower : Lower S) (names : Names S) (base : Services S) where
  unfoldable pub call : Call → (ℕ → ℕ) → Ftable S → Outcome S
  call (dup fd) g t = sys_dup lower names fd g t
  call (close fd) g t = sys_close lower names fd g t
  call (pipe fdarray) g t = sys_pipe lower names fdarray g t
  call (fstat fd st) g t = sys_fstat lower names fd st g t
  call (read fd p n) g t = sys_read lower names fd p n g t
  call (write fd p n) g t = sys_write lower names fd p n g t
  call (open_path path omode) g t = sys_open lower names path omode g t

  -- The states that calls lead to from boot.
  pub data Reach (s : S) : System S → Type 0 where
    at_boot : Reach s (boot s)
    step :
        (sys : System S) (me : ℕ) (c : Call) (r : Option ℕ) (g : ℕ → ℕ) (t : Ftable S)
        → me < nproc
        → call c (sys.ofile me) sys.table ≡ some (r, (g, t))
        → Reach s sys
        → Reach s (record { ofile = update sys.ofile me g; table = t })
    -- `fork`, whose child has a slot without descriptors.
    fork :
        (sys : System S) (me child : ℕ) (g : ℕ → ℕ) (t : Ftable S)
        → me < nproc
        → child < nproc
        → ((fd : ℕ) → fd < nofile → sys.ofile child fd ≡ 0)
        → copy_files
            (services lower base)
            (sys.ofile me)
            0
            nofile
            (sys.ofile child)
            (some sys.table)
          ≡ (g, some t)
        → Reach s sys
        → Reach s (record { ofile = update sys.ofile child g; table = t })
    exit :
        (sys : System S) (me : ℕ) (g : ℕ → ℕ) (t : Ftable S)
        → me < nproc
        → close_files (services lower base) 0 nofile (sys.ofile me) (some sys.table) ≡ (g, some t)
        → Reach s sys
        → Reach s (record { ofile = update sys.ofile me g; table = t })

  -- The references that the descriptors of all processes need.
  abbrev pub in_all : (ℕ → ℕ → ℕ) → ℕ → ℕ
  in_all o f = total f o nofile 0 nproc

  pub call-IsSafe :
      (others : ℕ → ℕ) (c : Call) (g : ℕ → ℕ) (t : Ftable S)
      → IsTable (needs others g) no_raw t.files
      → IsSafe others (call c g t)
  unfolding call
  call-IsSafe others (dup fd) g t w = sys_dup-IsSafe lower names others fd g t w
  call-IsSafe others (close fd) g t w = sys_close-IsSafe lower names others fd g t w
  call-IsSafe others (pipe a) g t w = sys_pipe-IsSafe lower names others a g t w
  call-IsSafe others (fstat fd st) g t w = sys_fstat-IsSafe lower names others fd st g t w
  call-IsSafe others (read fd p n) g t w = sys_read-IsSafe lower names others fd p n g t w
  call-IsSafe others (write fd p n) g t w = sys_write-IsSafe lower names others fd p n g t w
  call-IsSafe others (open_path path m) g t w = sys_open-IsSafe lower names others path m g t w

  -- The references that the other processes need.
  pub others_of : (ℕ → ℕ → ℕ) → ℕ → ℕ → ℕ
  others_of o me f = in_all o f - count f (o me) 0 nofile

  pub mine :
      (o : ℕ → ℕ → ℕ) (me : ℕ) (fs : ℕ → File)
      → me < nproc
      → IsTable (in_all o) no_raw fs
      → IsTable (needs (others_of o me) (o me)) no_raw fs
  unfolding others_of
  mine o me fs lt w =
      IsTable-need (in_all o) (needs (others_of o me) (o me)) no_raw no_raw fs
        (λ x p.
          let le = count_le_total x o nofile me 0 nproc (omega arith) (omega (arith, lt)) in
          omega (arith, le))
        (λ x p r. r) w

  after :
      (o : ℕ → ℕ → ℕ) (me : ℕ) (g : ℕ → ℕ) (fs : ℕ → File)
      → me < nproc
      → IsTable (needs (others_of o me) g) no_raw fs
      → IsTable (in_all (update o me g)) no_raw fs
  unfolding others_of
  after o me g fs lt w =
      IsTable-need (needs (others_of o me) g) (in_all (update o me g)) no_raw no_raw fs
        (λ x p.
          let le = count_le_total x o nofile me 0 nproc (omega arith) (omega (arith, lt)) in
          let u = total-update x o nofile me g 0 nproc (omega arith) (omega (arith, lt)) in
          omega (arith, le, u))
        (λ x p r. r) w

  used-in_all : (o : ℕ → ℕ → ℕ) (me fd : ℕ) → me < nproc → fd < nofile → 1 ≤ in_all o (o me fd)
  used-in_all o me fd lt lt' =
      let one = count-present (o me) 0 nofile fd (omega arith) (omega (arith, lt')) in
      let le = count_le_total (o me fd) o nofile me 0 nproc (omega arith) (omega (arith, lt)) in
      omega (arith, one, le)

  pub fork-IsTable :
      (o : ℕ → ℕ → ℕ) (me child : ℕ) (t : Ftable S)
      → me < nproc
      → child < nproc
      → ((fd : ℕ) → fd < nofile → o child fd ≡ 0)
      → IsTable (in_all o) no_raw t.files
      → let copied = copy_files (services lower base) (o me) 0 nofile (o child) (some t) in
        (t' : Ftable S) × (copied.1 ≡ some t')
        × IsTable (in_all (update o child copied.0)) no_raw t'.files
  fork-IsTable o me child t lt lt' free w =
      let (t', e, w') =
        copy_files-IsTable lower base (o me) 0 nofile (o child) (in_all o) t
          (λ j lo hi p. used-in_all o me j lt (omega (arith, hi))) w in
      let g : (ℕ → ℕ) = (copy_files (services lower base) (o me) 0 nofile (o child) (some t)).0 in
      let row : (j : ℕ) → 0 ≤ j → j < 0 + nofile → g j ≡ o me j = λ j lo hi.
        let r = copy_files_row lower base (o me) 0 nofile (o child) (some t) j in
        let z = free j (omega (arith, hi)) in ground (arith, r, z, hi) in
      (
        t',
        e,
        IsTable-need (λ x. in_all o x + count x (o me) 0 nofile) (in_all (update o child g)) no_raw
            no_raw t'.files
            (λ x p.
              let u = total-update x o nofile child g 0 nproc (omega arith) (omega (arith, lt')) in
              let a = count-agree x g (o me) 0 nofile row in
              let none_yet =
                count-absent x (o child) 0 nofile
                  λ j lo hi q. p (sym q ∙ free j (omega (arith, hi))) in
              omega (arith, u, a, none_yet))
            (λ x p r. r) w',
      )

  pub exit-IsTable :
      (o : ℕ → ℕ → ℕ) (me : ℕ) (t : Ftable S)
      → me < nproc
      → IsTable (in_all o) no_raw t.files
      → let closed = close_files (services lower base) 0 nofile (o me) (some t) in
        (t' : Ftable S) × (closed.1 ≡ some t')
        × IsTable (in_all (update o me closed.0)) no_raw t'.files
  exit-IsTable o me t lt w =
      let (t', e, w') =
        close_files-IsTable lower base 0 nofile (o me) (others_of o me) t
          (mine o me t.files lt w) in
      let g : (ℕ → ℕ) = (close_files (services lower base) 0 nofile (o me) (some t)).0 in
      let empty : (x : ℕ) → x ≢ 0 → count x g 0 nofile ≡ 0 = λ x p.
        count-absent x g 0 nofile λ j lo hi q.
          let r = close_files_row lower base 0 nofile (o me) (some t) j in
          p (sym q ∙ ground (arith, r, hi)) in
      (
        t',
        e,
        after o me g t'.files lt (
            IsTable-need (others_of o me) (needs (others_of o me) g) no_raw no_raw t'.files
              (λ x p. let z = empty x p in omega (arith, z)) (λ x p r. r) w'),
      )

  pub Reach-IsTable :
      (s : S) (sys : System S) → Reach s sys → IsTable (in_all sys.ofile) no_raw sys.table.files
  unfolding IsSafe
  Reach-IsTable s _ at_boot = record {
    counted = λ f p. sym (total-absent f (λ q fd. 0) nofile 0 nproc λ q fd. λ e. p (sym e));
    quiet = λ f p e. refl;
    typed = λ f p r e. absurd (omega arith);
  }
  Reach-IsTable s _ (step sys me c r g t lt e h) =
      let w = mine sys.ofile me sys.table.files lt (Reach-IsTable s sys h) in
      let safe = call-IsSafe (others_of sys.ofile me) c (sys.ofile me) sys.table w in
      after sys.ofile me g t.files lt (rw e at safe)
  Reach-IsTable s _ (fork sys me child g t lt lt' free e h) =
      let (t', q, w) =
        fork-IsTable sys.ofile me child sys.table lt lt' free (Reach-IsTable s sys h) in
      let same : t ≡ t' = some-injective _ _ (ap (λ x. x.1) (sym e) ∙ q) in
      rw (same, ← (ap (λ x. x.0) e)) w
  Reach-IsTable s _ (exit sys me g t lt e h) =
      let (t', q, w) = exit-IsTable sys.ofile me sys.table lt (Reach-IsTable s sys h) in
      let same : t ≡ t' = some-injective _ _ (ap (λ x. x.1) (sym e) ∙ q) in
      rw (same, ← (ap (λ x. x.0) e)) w
