-- ===== src/Lib.antt =====
-- tatakOS, a small operating system for RISC-V: a model of its kernel in files named for its parts.
--
-- Parts and files. Paths are the repository's.
-- - Base, with its children: names of the libraries, tests on numbers, lists as C arrays.
-- - Disk: blocks of 256 words, and lists of writes in the order in which they reach the disk.
-- - Buffers: the interface `Ops` of the buffer cache to its clients; Buffers/Spec: the abstract
--   cache, what a call promises to one process; Buffers/Counts, Buffers/Simulation: what it means
--   that an implementation keeps the promises.
-- - Sleeplock: src/kernel/sleeplock.c, function for function.
-- - Bcache: src/kernel/fs/bio.c. `bread`, `bwrite`, `brelse`, `bpin`, `bunpin` are the
--   functions of these names; `claim` is `bget` up to the release of bcache.lock, with its second
--   loop in `recycle`, and `fetch` the rest of `bget` and `bread`; `bio` puts them in the interface
--   `Ops`. Proofs: Bcache/Ring and Bcache/Recycle on the ring of buffers, Bcache/Relation,
--   Bcache/Refine and Bcache/Claim for the calls one by one, Bcache/Promise for all.
--   Bcache/Init has `binit` with its links `prev` and `next`, and Bcache/Linked the ring they make.
-- - Storage: the log over the buffer cache.
-- - Log: src/kernel/fs/log.c. `commit`, `recover` (recover_from_log), `initlog`, `install_trans`,
--   `write_log`, `write_head`, `read_head`, `log_write`, `begin_op`, `end_op` are the functions of
--   these names; `install_block` and `log_block` are one round of the two loops over the log.
--   Proofs: Log/Rounds, Log/Loops, Log/Places, Log/Header, Log/Commit, Log/Recovery, Log/Crash;
--   Log/Reserve for operations under way together; Log/Simulation carries the theorems over to any
--   buffer cache that keeps the promises.
-- - Pipe: src/kernel/fs/pipe.c. `write` (pipewrite), `read` (piperead), `close` (pipeclose), `init`
--   (the assignments of pipealloc to its page). Proofs: Pipe/Ring, Pipe/Transfer, Pipe/Wakeups.
-- - Proc: src/kernel/proc.c. Proc/Calls: `allocproc`, `freeproc`, `fork` (with `adopt` and `start`
--   for its two last critical sections), `exit` (with `exit_files` for what comes before
--   wait_lock), `wait` (once round its loop); Proc: `wakeup`, `reparent`, `sleep` (with `wake_up`
--   for its end), `yield`, `kill`; Proc/System: `schedule` (the body of scheduler) and `sched`.
--   Memory and files are the interface `Services`. Proofs: Proc/Loops and Proc/Reparent on the
--   loops over the table, Proc/Family, Proc/Fork, Proc/Preserve and Proc/Ends on parents and
--   children, Proc/Running and Proc/Sound on CPUs, Proc/Runs on all runs, Proc/Kill on kill.
-- - File: src/kernel/fs/file.c, and `pipealloc` of pipe.c (with `connect` and `give_up` for its
--   last parts). `filealloc`, `filedup`, `fileclose`, `fileread` and `filewrite` are the
--   functions of these names; `write_chunks` is the loop of filewrite. File/Stat: `filestat`.
--   Pipes, devices and inodes are the interface `Lower`. Proofs: File/Counts, File/Table and
--   File/Pipes on reference counts, File/Chunks and File/Write on transfers.
-- - Sysfile: src/kernel/sysfile.c, the calls on descriptors: `argfd`, `fdalloc` and each `sys_`
--   function by its name, with `open_inode` and `finish_open` for parts of sys_open and `pipe_fds`
--   for what sys_pipe does after pipealloc. Names and inodes are the interface `Names`. Proofs:
--   Sysfile/Needs, Sysfile/Safe and Sysfile/Opens on each call, Sysfile/Forks on the loops of fork
--   and exit, Sysfile/System and Sysfile/Sound on all runs.
-- - Cstring: src/kernel/lib/string.c, function for function; `copy_down` and `copy_up` are the
--   loops of memmove, `pad` the second one of strncpy, `safe_copy` that of safestrcpy. Proofs:
--   Cstring/Copying and Cstring/Comparing.
-- - Numbers: `printint` of src/user/lib/printf.c, with its loop in `put_digits`, whose room is the
--   size of its buffer, and `atoi` of src/user/lib/ulib.c.
-- - Grep: src/user/grep/grep.c, the matcher. `matchhere` and `matchstar` are the functions of these
--   names, with the former an argument of the latter; `match` has its loop in `matchany`. Proofs:
--   Grep/Language.
-- - Path: skipelem of src/kernel/fs/fs.c, with its loops in `skip_slashes` and `element` and what
--   it stores in `store_name`; `walk` is the sequence of names that the loop of namex takes off a
--   path. Proofs: Path/Fields.
-- - Spinlock: src/kernel/spinlock.c, for any number of CPUs. `acquire` is the function up to its
--   first atomic swap and `spin` a later round of its loop; `release`, `holding`, `push_off`,
--   `pop_off` and `initlock` are the functions of these names. Proofs: Spinlock/Steps on the ways
--   out, Spinlock/Nesting on one CPU, Spinlock/Runs and Spinlock/Interrupts on all.
-- - Kalloc: src/kernel/mm/kalloc.c. `kinit`, `freerange`, `kfree` and `kalloc` are the functions of
--   these names; `free_pages` is the loop of freerange, and `link` what kfree does to the memory.
--   Proofs: Kalloc/FreeList for the links, Kalloc/Initial for kinit, Kalloc/Owners for the callers.
-- - Fs: blocks and inodes of src/kernel/fs/fs.c, over the blocks as `bread` returns them.
--   `balloc`, `bfree` and `bmap` are the functions of these names, with their loops in
--   `balloc_from` and `find_clear`; Fs/Dinode has `iupdate`, `ialloc` and, as `load`, ilock;
--   Fs/Data has `readi` and `writei`, Fs/Trunc `itrunc`. Proofs: Fs/Bits and Fs/Balloc on the
--   bitmap, Fs/Slots, Fs/Grow and Fs/Map on the blocks of a file, Fs/Write, Fs/Read and Fs/Files
--   on the loops, Fs/Array on the calls, Fs/Logged and Fs/Budget on the blocks that they log.
-- - Vm: src/kernel/mm/vm.c on the memory of Kalloc. `walk`, `walkaddr` and `mappages` are the
--   functions of these names, with their loops in `walk_from`, `descend`, `map_pages` and
--   `map_page`; `uvmcreate` is the function of this name. Proofs: Vm/Nodes on the tables of a page
--   table, Vm/Grow, Vm/Grown and Vm/Walk on a new table, Vm/Store on a new entry, Vm/Mapping and
--   Vm/Ranges on mappages, Vm/Lookup and Vm/Translate on walkaddr, Vm/Create on uvmcreate.
--   Vm/User has `uvmunmap`, `uvmdealloc`, `uvmalloc`, `uvmcopy`, `uvmclear`, `freewalk` and
--   `uvmfree`. Vm/Unmap has the proofs on uvmunmap that keeps the physical pages.
--
-- How they interact: the log reads and writes blocks through the buffer cache, pins what it has
-- logged, and installs it; a pipe is memory shared by the processes that hold its two ends, each
-- call runs under its lock from there to the next sleep or to the return, and what others do
-- while a caller sleeps is another call on the pipe.
--
-- Descriptors name the files of the table, and fork, exit and the calls of sysfile.c share and
-- give them up: Sysfile/Forks fills the interface `Services` of Proc with the functions of File.
--
-- Numbers: `uint` counters of a pipe wrap at 2^32 and user addresses at 2^64. Block numbers and the
-- header's words are natural numbers, as the code never computes past the disk's size with them.
-- Loops over a count recur on the rounds left, so no fuel is needed; the loop of freerange has fuel
-- for every page below its end, and one more round for its last test;
-- that of filewrite has fuel for a round per byte and one more, and each round writes a byte.
-- The loops of uvmunmap, uvmalloc and uvmcopy have fuel for a round per page and for the last test,
-- and freewalk for the three levels of Sv39.
-- Bounds: LOGSIZE = NBUF = 30 and MAXOPBLOCKS = 10 (include/kernel/param.h), PIPESIZE = 512.
--
-- Not modelled: the spinlocks inside the other parts, which run each call under its lock, and the
-- scheduler behind `sleep` and `wakeup`; a disk write is atomic and the writes reach the disk in
-- the order of the calls of `bwrite`.
pub mod Base
pub mod Pipe
pub mod Sleeplock
pub mod Bcache
pub mod Storage
pub mod Disk
pub mod Buffers
pub mod Log
pub mod Kalloc
pub mod Spinlock
pub mod Path
pub mod Proc
pub mod Cstring
pub mod Grep
pub mod File
pub mod Sysfile
pub mod Numbers
pub mod Fs
pub mod Vm
