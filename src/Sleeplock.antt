-- ===== src/Sleeplock.antt =====
-- kernel/sleeplock.c (src/kernel/sleeplock.c in the repository): locks that are held across sleeps,
-- as the process `pid` sees them. The spinlock inside protects each function here.
use tatak_os.Base.{ℕ, Bool, true, false, ◌&&◌, Option, none, some, ◌==◌, if◌then◌else◌}

-- `struct sleeplock`.
pub record Sleeplock : Type 0 where
  pub locked : Bool
  pub pid : ℕ

unfoldable pub initsleeplock : Sleeplock
initsleeplock = record { locked = false; pid = 0 }

-- `acquiresleep` once round its loop: `none` is a sleep on the lock.
unfoldable pub acquiresleep : ℕ → Sleeplock → Option Sleeplock
acquiresleep me l = if l.locked then none else some (record l { locked = true; pid = me })

unfoldable pub releasesleep : Sleeplock → Sleeplock
releasesleep l = record l { locked = false; pid = 0 }

unfoldable pub holdingsleep : ℕ → Sleeplock → Bool
holdingsleep me l = l.locked && (l.pid == me)
