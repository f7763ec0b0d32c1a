-- ===== src/Sysfile/Tests.antt =====
-- Runs of the calls on descriptors, with a kernel below them that counts its writes.
use tatak_os.Base.{
  ℕ, ◌+◌, ◌%◌, ◌^◌, ◌≡◌, ◌≢◌, ◌≤◌, ◌⊎◌, refl, true, false, Option, none, some, [], arith,
}
use tatak_os.Disk.{update}
use tatak_os.File.{
  fd_inode, fd_pipe, File, Ftable, Lower, fileclose, pipealloc, filewrite, write_chunks,
  write_chunk, filealloc, find_free, filedup,
}
use tatak_os.File.Counts.{count, total}
use tatak_os.File.Write.{filewrite_lem}
use tatak_os.Proc.{nofile, Services}
use tatak_os.Proc.Calls.{copy_files, close_files}
use tatak_os.Sysfile.{
  Names, sys_open, open_inode, fdalloc, first_free, opened, finish_open, sys_pipe, pipe_fds,
  copy_fds,
}
use tatak_os.Sysfile.Forks.{services}
use tatak_os.Sysfile.Sound.{ref_lem, no_panic}
use tatak_os.Sysfile.System.{
  System, close, open_path, blank, boot, call, Reach, at_boot, step, in_all, Reach-IsTable,
}

abbrev lower : Lower ℕ
lower = record {
  kalloc = λ s. (8192, s);
  pipe_init = λ pi s. s;
  pipeclose = λ pi w s. s;
  piperead = λ pi a n s. (some 0, s);
  pipewrite = λ pi a n s. (some n, s);
  has_read = λ major. false;
  has_write = λ major. false;
  devread = λ major a n s. (none, s);
  devwrite = λ major a n s. (none, s);
  begin_op = λ s. s;
  end_op = λ s. s;
  ilock = λ ip s. s;
  iunlock = λ ip s. s;
  iput = λ ip s. s;
  readi = λ ip a off n s. (some 0, s);
  writei = λ ip a off n s. (some n, s + 1);
  stati = λ ip s. [];
  copyout = λ addr st s. (true, s);
}

abbrev names : Names ℕ
names = record {
  create = λ path type major minor s. (7, s);
  namei = λ path s. (7, s);
  inode_type = λ ip s. 2;
  inode_major = λ ip s. 0;
  iunlockput = λ ip s. s;
  itrunc = λ ip s. s;
  copyout = λ addr v s. (true, s);
}

abbrev base : Services ℕ
base = record {
  kalloc = λ s. (8192, s);
  kfree = λ pa s. s;
  proc_pagetable = λ page s. (4096, s);
  proc_freepagetable = λ table size s. s;
  uvmcopy = λ old new size s. (true, s);
  copy_registers = λ from to s. s;
  filedup = λ f s. s;
  fileclose = λ f s. s;
  idup = λ i s. s;
  iput = λ i s. s;
  copyout = λ table a v s. (true, s);
}

-- Process 0 opens a file to write to it, and gets descriptor 0 of file 1.
abbrev written_file : File
written_file = record blank { type = fd_inode; ref = 1; readable = false; writable = true; ip = 7 }

abbrev row : ℕ → ℕ
row = update (λ fd. 0) 0 1

abbrev table : Ftable ℕ
table = record {
  files = update (update (λ f. blank) 1 (record blank { ref = 1 })) 1 written_file;
  rest = 1;
}

abbrev sys : System ℕ
sys = record { ofile = update (λ p fd. 0) 0 row; table = table }

sys-Reach : Reach lower names base 1 sys
unfolding call sys_open open_inode filealloc find_free fdalloc first_free opened finish_open
sys-Reach = step (boot 1) 0 (open_path (some []) 513) (some 0) row table (omega arith) refl at_boot

ref_lem_example : (table.files 1).ref ≡ in_all lower names base sys.ofile 1
ref_lem_example = ref_lem lower names base 1 sys 1 sys-Reach (λ e. absurd (omega arith))

no_panic_example :
    (call lower names base (close 0) row table ≢ none)
    × ((copy_files (services lower base) row 0 nofile (λ fd. 0) (some table)).1 ≢ none)
    × ((close_files (services lower base) 0 nofile row (some table)).1 ≢ none)
no_panic_example =
    no_panic lower names base 1 sys 0 1 (close 0) sys-Reach (omega arith) (omega arith)
      (λ fd lt. refl)

needed : 1 ≤ in_all lower names base sys.ofile 1
unfolding total count
needed = omega arith

filewrite_lem_example :
    (r : Option ℕ) × (t' : Ftable ℕ) × (filewrite lower 1 0 5000 table ≡ some (r, t'))
    × ((r ≡ none) ⊎ ((r ≡ some 5000) × ((t'.files 1).off % 2 ^ 32 ≡ (0 + 5000) % 2 ^ 32)))
filewrite_lem_example =
    filewrite_lem lower (in_all lower names base sys.ofile) 1 0 5000 table
      (λ e. absurd (omega arith)) needed (Reach-IsTable lower names base 1 sys sys-Reach) refl refl

abbrev after : Ftable ℕ
after = record { files = update table.files 1 (record written_file { off = 100 }); rest = 2 }

-- A count of 100 takes one transaction.
hundred : filewrite lower 1 0 100 table ≡ some (some 100, after)
unfolding filewrite write_chunks write_chunk
hundred = refl

-- A pipe takes the two lowest descriptors, and is closed with its last end.
pipe_test :
    sys_pipe lower names 0 (λ fd. 0) (boot 1).table
    ≡ some (
      some 0,
      (
        update (update (λ fd. 0) 0 1) 1 2,
        record {
          files =
              update
                (update
                  (update
                    (update (λ f. blank) 1 (record blank { ref = 1 }))
                    2
                    (record blank { ref = 1 }))
                  1
                  (record blank {
                    ref = 1;
                    type = fd_pipe;
                    readable = true;
                    writable = false;
                    pipe = 8192;
                  }))
                2
                (record blank {
                  ref = 1;
                  type = fd_pipe;
                  readable = false;
                  writable = true;
                  pipe = 8192;
                });
          rest = 1;
        },
      ),
    )
unfolding sys_pipe pipe_fds pipealloc filealloc find_free fdalloc first_free copy_fds
    tatak_os.File.connect
pipe_test = refl
