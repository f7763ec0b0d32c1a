-- ===== src/Pipe/Tests.antt =====
-- Tests of the pipe, and its theorems at concrete inputs.
use tatak_os.Base.{
  ℕ, ◌+◌, ◌≡◌, refl, Bool, true, false, Option, some, none, List, [], ◌∷◌, length-replicate,
  replicate, ltb, if◌then◌else◌,
}
use tatak_os.Pipe.{
  Pipe, returned, init, put, is_empty, is_full, write, write_loop, read, read_copy, close,
}
use tatak_os.Pipe.Ring.{IsValid, contents, init-IsValid}
use tatak_os.Pipe.Transfer.{Wrote, write_loop_lem, Copied, read_copy_lem}
use tatak_os.Pipe.Wakeups.{
  Scene, IsAwake, after_write, after_read, write-IsAwake, read-IsAwake, close-IsAwake, lost_wakeup,
}

abbrev page : List ℕ
page = replicate 512 0

abbrev fresh : Pipe
fresh = record { bytes = page; nread = 0; nwrite = 0; readopen = true; writeopen = true }

-- Address `a` of the user holds `a + 10`; memory ends at 3.
abbrev memory : ℕ → Option ℕ
memory a = if ltb a 3 then some (a + 10) else none

abbrev alive : ℕ → Bool
alive i = false

-- Killed after the first byte.
abbrev hit : ℕ → Bool
hit i = ltb 0 i

fresh-IsValid : IsValid fresh
unfolding init
fresh-IsValid = (init-IsValid page (length-replicate {A = ℕ} 512 0)).0

write_stops_at_bad_address : (write memory alive 1 fresh 5).outcome ≡ returned 2
unfolding write write_loop is_full put
write_stops_at_bad_address = refl

contents_after_write : contents (write memory alive 1 fresh 2).pipe ≡ 11 ∷ 12 ∷ []
unfolding write write_loop is_full put
contents_after_write = refl

close_last_frees : (close (close fresh true).0.pipe false).1 ≡ true
unfolding close
close_last_frees = refl

write_loop_lem_example :
    (sent : List ℕ) × Wrote memory alive 0 fresh 0 5 (write_loop memory alive 0 fresh 0 5) sent
write_loop_lem_example = write_loop_lem memory alive 0 fresh 0 5 fresh-IsValid

read_copy_lem_example :
    (lost : List ℕ) × Copied (λ a. true) 0 fresh 0 2 (read_copy (λ a. true) 0 fresh 0 2) lost
read_copy_lem_example = read_copy_lem (λ a. true) 0 fresh 0 2 fresh-IsValid

-- A reader sleeps on the empty pipe.
abbrev waiting : Scene
waiting = record { pipe = fresh; reader_sleeps = true; writer_sleeps = false }

waiting-IsAwake : IsAwake waiting
unfolding is_empty
waiting-IsAwake = record { reader = λ h. (refl, refl); writer = λ h. cc }

write-IsAwake_example : IsAwake (after_write waiting (write memory alive 0 fresh 2))
write-IsAwake_example = write-IsAwake memory alive 0 waiting 2 false (λ i. refl) waiting-IsAwake

read-IsAwake_example : IsAwake (after_read waiting (read (λ a. true) 0 false fresh 4).0)
read-IsAwake_example = read-IsAwake (λ a. true) 0 waiting 4 false waiting-IsAwake

close-IsAwake_example : IsAwake (after_read waiting (close fresh true).0)
close-IsAwake_example = close-IsAwake waiting true waiting-IsAwake

lost_wakeup_example :
    let s' = after_write waiting (write memory hit 0 fresh 2) in
    (s'.reader_sleeps ≡ true) × (is_empty s'.pipe ≡ false)
lost_wakeup_example =
    lost_wakeup memory hit 0 waiting 0 10 refl fresh-IsValid ((waiting-IsAwake).reader refl).0 refl
      refl refl refl

init-IsValid_example : IsValid (init page) × (contents (init page) ≡ [])
init-IsValid_example = init-IsValid page (length-replicate {A = ℕ} 512 0)
