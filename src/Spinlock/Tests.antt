-- ===== src/Spinlock/Tests.antt =====
-- Tests of the spinlocks, and their theorems at concrete inputs: two CPUs and two locks.
use tatak_os.Base.{ℕ, ◌≡◌, refl, Bool, false, arith, ◌==◌}
use tatak_os.Spinlock.{
  initlock, push_off, holding, Machine, Outcome, panics, spins, done, acquire, release,
}
use tatak_os.Spinlock.Steps.{mine, with_cpu, with_lock}
use tatak_os.Spinlock.Runs.{System, acquires}
use tatak_os.Spinlock.Interrupts.{Reach, here, next, boot, holder_interrupts, interrupts_restored}

-- Only CPU 0 takes interrupts.
abbrev wanted : ℕ → Bool
wanted c = c == 0

abbrev start : Machine
start = (boot wanted).machine

-- CPU 0 holds lock 1.
abbrev taken : System
taken = record (boot wanted) {
  machine = with_lock 1 (mine 0) (with_cpu 0 (push_off (start.cpus 0)) start);
}

taken-Reach : Reach 2 (boot wanted) taken
unfolding acquire holding initlock
taken-Reach = next here (acquires 0 1 _ (omega arith) refl refl)

holder_interrupts_example :
    ((taken.machine.cpus 0).interrupts ≡ false)
    × ((m : Machine) × (release 0 1 taken.machine ≡ done m))
unfolding holding
holder_interrupts_example = holder_interrupts 2 wanted taken 0 1 (omega arith) taken-Reach refl

interrupts_restored_example : (taken.machine.cpus 1).interrupts ≡ wanted 1
unfolding holding initlock
interrupts_restored_example = interrupts_restored 2 wanted taken 1 taken-Reach refl refl

-- A CPU that takes a lock twice panics, and another one spins.
abbrev code : Outcome → ℕ
code panics = 0
code (spins m) = 1
code (done m) = 2

twice : code (acquire 0 1 taken.machine) ≡ 0
unfolding acquire holding
twice = refl

other : code (acquire 1 1 taken.machine) ≡ 1
unfolding acquire holding
other = refl
